-- ===== src/Forward/Shares.antt =====
-- The sizes of the attention blocks of llama and qwen2, and those that `ModelConfig` gives to the cache.
use lmserve.Prelude.{
  ℕ, ◌*◌, ◌/◌, ◌%◌, ◌<◌, ◌≡◌, refl, ap, sym, ◌∙◌, subst, inl, inr, ◌==◌, arith, ok, then_ok, ok_inj,
  Bool-cases,
}
use native.Mathlib.Nat.{div-add-mod', mul_assoc, mul_comm, mul_right_comm, mul-div_cancel}
use lmserve.Loading.Config.{
  TfConfig, ModelConfig, floor_div, share_heads, model_config, orig_num_kv_heads,
}
use lmserve.Forward.Sizes.{
  AttentionSizes, assert_divides, scaling, attention_sizes, llama_attention_init,
  qwen2_attention_init,
}

-- An assertion that holds divides evenly.
pub assert_divides-even : (a b : ℕ) → assert_divides a b ≡ ok tt → (0 < b) × (a / b * b ≡ a)
unfolding assert_divides
assert_divides-even a b h = elim (Bool-cases (b == 0)) [
  | inl x ↦ ground (arith, x)
  | inr x ↦ elim (Bool-cases (a % b == 0)) [
    | inl y ↦ let z : a % b ≡ 0 = ground arith in (ground arith, omega (arith, z, div-add-mod' a b))
    | inr y ↦ ground (arith, x, y)
  ]
]

pub share_heads-even :
    (heads tp : ℕ) → assert_divides heads tp ≡ ok tt → share_heads heads tp ≡ ok (heads / tp)
unfolding assert_divides share_heads floor_div
share_heads-even heads tp h = elim (Bool-cases (tp == 0)) [
  | inl x ↦ ground (arith, x)
  | inr x ↦ elim (Bool-cases (heads % tp == 0)) [
    | inl y ↦ ground (arith, x, y)
    | inr y ↦ ground (arith, x, y)
  ]
]

-- What the ranks have of the heads and of the projections' columns.
pub record Shares (tf : TfConfig) (tp_size : ℕ) (s : AttentionSizes) (c : ModelConfig)
    : Type 0 where
  -- The heads of the cache are those of the attention.
  pub num_heads : c.num_heads ≡ s.num_heads
  pub num_kv_heads : c.num_kv_heads ≡ s.num_kv_heads
  pub head_dim : c.head_dim ≡ s.head_dim
  -- The queries are as wide as the hidden states, and the ranks' heads cover the projections.
  pub q_size : s.q_size ≡ tf.hidden_size
  pub q_columns : s.num_heads * s.head_dim * tp_size ≡ s.q_size
  pub kv_columns : s.num_kv_heads * s.head_dim * tp_size ≡ s.kv_size

pub columns : (heads dim tp : ℕ) → heads / tp * tp ≡ heads → heads / tp * dim * tp ≡ heads * dim
columns heads dim tp h = mul_right_comm (heads / tp) dim tp ∙ ap (λ (t : ℕ). t * dim) h

-- The key and value heads of a rank divide its query heads.
pub groups :
    (n kv tp : ℕ)
    → 0 < tp
    → n / kv * kv ≡ n
    → n / tp * tp ≡ n
    → kv / tp * tp ≡ kv
    → n / tp ≡ n / kv * (kv / tp)
groups n kv tp pos even_kv even_n even_ranks =
    let whole : n / kv * (kv / tp) * tp ≡ n =
      mul_assoc (n / kv) (kv / tp) tp ∙ ap (λ (t : ℕ). n / kv * t) even_ranks ∙ even_kv in
    ap (λ (t : ℕ). t / tp) (sym whole) ∙ mul-div_cancel (n / kv * (kv / tp)) pos

module _ (tf : TfConfig) (tp_size : ℕ) where
  -- The configuration of the cache when the heads divide evenly.
  pub even_config :
      assert_divides tf.hidden_size tf.num_attention_heads ≡ ok tt
      → assert_divides tf.num_attention_heads tp_size ≡ ok tt
      → assert_divides (orig_num_kv_heads tf) tp_size ≡ ok tt
      → (c : ModelConfig) × (model_config tf tp_size ≡ ok c)
        × Shares tf tp_size
            (attention_sizes tf.hidden_size tf.num_attention_heads (orig_num_kv_heads tf) tp_size)
            c
  unfolding model_config floor_div
  even_config h n kv =
      let width = assert_divides-even tf.hidden_size tf.num_attention_heads h in
      let heads = assert_divides-even tf.num_attention_heads tp_size n in
      let kv_heads = assert_divides-even (orig_num_kv_heads tf) tp_size kv in
      let dim = tf.hidden_size / tf.num_attention_heads in
      let divided : floor_div tf.hidden_size tf.num_attention_heads ≡ ok dim =
        ground (arith, width.0) in
      (
        record {
          num_layers = tf.num_hidden_layers;
          hidden_size = tf.hidden_size;
          head_dim = dim;
          num_heads = tf.num_attention_heads / tp_size;
          num_kv_heads = orig_num_kv_heads tf / tp_size;
          dtype_bits = tf.dtype_bits;
        },
        rw
            (
              model_config,
              divided,
              share_heads-even tf.num_attention_heads tp_size n,
              share_heads-even (orig_num_kv_heads tf) tp_size kv,
            )
            refl,
        record {
          num_heads = refl;
          num_kv_heads = refl;
          head_dim = refl;
          q_size = mul_comm tf.num_attention_heads dim ∙ width.1;
          q_columns = columns tf.num_attention_heads dim tp_size heads.1;
          kv_columns = columns (orig_num_kv_heads tf) dim tp_size kv_heads.1;
        },
      )

-- An attention block of llama that is accepted for a configuration has the heads that the cache is made
-- for: `ModelConfig` accepts the configuration with the same heads and width of a head. The heads of all
-- ranks together are as wide as the projections, the queries as wide as the hidden states, and in a rank
-- each key and value head serves the same number of query heads. Qwen2 accepts the same configurations.
pub llama_attention_init-Shares :
    (tf : TfConfig) (tp_size : ℕ) (s : AttentionSizes)
    → llama_attention_init tf.hidden_size tf.num_attention_heads (orig_num_kv_heads tf) tp_size
      ≡ ok s
    → (c : ModelConfig) × (model_config tf tp_size ≡ ok c)
      × Shares tf tp_size s c
      × ((group : ℕ) × (s.num_heads ≡ group * s.num_kv_heads))
      × (qwen2_attention_init tf.hidden_size tf.num_attention_heads (orig_num_kv_heads tf) tp_size
          ≡ ok s)
unfolding llama_attention_init qwen2_attention_init model_config
llama_attention_init-Shares tf tp s h =
    let n = tf.num_attention_heads in
    let kv = orig_num_kv_heads tf in
    let one = then_ok (assert_divides tf.hidden_size n) _ s h in
    let two = then_ok (assert_divides n kv) _ s one.1 in
    let three = then_ok (assert_divides n tp) _ s two.1 in
    let four = then_ok (assert_divides kv tp) _ s three.1 in
    let five = then_ok (scaling (tf.hidden_size / n)) _ s four.1 in
    let (c, made, shares) = even_config tf tp one.0 three.0 four.0 in
    let ranks = assert_divides-even n tp three.0 in
    let e : attention_sizes tf.hidden_size n kv tp ≡ s = ok_inj five.1 in
    (
      c,
      made,
      subst (λ t. Shares tf tp t c) e shares,
      (
        n / kv,
        subst (λ t. t.num_heads ≡ n / kv * t.num_kv_heads) e
            (groups n kv tp ranks.0 (assert_divides-even n kv two.0).1 ranks.1
              (assert_divides-even kv tp four.0).1),
      ),
      h,
    )
