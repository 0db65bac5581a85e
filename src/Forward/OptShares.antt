-- ===== src/Forward/OptShares.antt =====
-- The sizes of the attention blocks and the decoder of OPT.
use lmserve.Prelude.{
  Option, some, if◌then◌else◌, ◌+◌, ℕ, ◌*◌, ◌/◌, ◌≡◌, ◌≢◌, refl, ◌∙◌, subst, inl, inr, ◌==◌, none,
  arith, ok, raise, guard, then_ok, ok_inj, value_error, Result-cases,
}
use native.Mathlib.Nat.{mul_comm}
use lmserve.Loading.Config.{TfConfig, ModelConfig, model_config, orig_num_kv_heads}
use lmserve.Forward.Sizes.{
  AttentionSizes, assert_divides, scaling, attention_sizes, opt_attention_init, OptConfig,
  opt_decoder_init,
}
use lmserve.Forward.Shares.{even_config, assert_divides-even, Shares}

divides_no_value_error : (a b : ℕ) → assert_divides a b ≢ raise value_error
unfolding assert_divides
divides_no_value_error a b h = ground arith

-- An attention block of OPT never raises the error for a width that its heads do not divide, which
-- the assertions exclude.
pub opt_attention_init_no_value_error :
    (hidden_size num_heads tp_size : ℕ)
    → opt_attention_init hidden_size num_heads tp_size ≢ raise value_error
unfolding opt_attention_init scaling
opt_attention_init_no_value_error hidden_size num_heads tp_size h =
    elim (Result-cases (assert_divides hidden_size num_heads)) [
      | inl (e, x) ↦ divides_no_value_error hidden_size num_heads (ground (arith, x))
      | inr (u, x) ↦
          let even = assert_divides-even hidden_size num_heads x in
          elim (Result-cases (assert_divides num_heads tp_size)) [
            | inl (e, y) ↦ divides_no_value_error num_heads tp_size (ground (arith, x, y))
            | inr (u', y) ↦ ground (arith, x, y, even.1)
          ]
    ]

-- An attention block of OPT that is accepted for a configuration without a number of key and value
-- heads has the heads that the cache is made for, and the heads of all ranks together are as wide as
-- the hidden states.
opt_attention_init-Shares :
    (tf : TfConfig) (tp_size : ℕ) (s : AttentionSizes)
    → tf.num_key_value_heads ≡ none
    → opt_attention_init tf.hidden_size tf.num_attention_heads tp_size ≡ ok s
    → (c : ModelConfig) × (model_config tf tp_size ≡ ok c) × Shares tf tp_size s c
unfolding opt_attention_init
opt_attention_init-Shares tf tp s absent h =
    let n = tf.num_attention_heads in
    let one = then_ok (assert_divides tf.hidden_size n) _ s h in
    let two = then_ok (assert_divides n tp) _ s one.1 in
    let three = then_ok (guard (tf.hidden_size / n * n == tf.hidden_size) value_error) _ s two.1 in
    let four = then_ok (scaling (tf.hidden_size / n)) _ s three.1 in
    let kv : orig_num_kv_heads tf ≡ n = rw absent in
    let (c, made, shares) = even_config tf tp one.0 two.0 (rw kv two.0) in
    let width : n * (tf.hidden_size / n) ≡ tf.hidden_size =
      mul_comm n (tf.hidden_size / n) ∙ (assert_divides-even tf.hidden_size n one.0).1 in
    let e : attention_sizes tf.hidden_size n (orig_num_kv_heads tf) tp ≡ s =
      rw (kv, width) (ok_inj four.1) in
    (c, made, subst (λ t. Shares tf tp t c) e shares)

-- The width of a row after a part, if the part takes rows of its width.
abbrev pub through : Option (ℕ × ℕ) → ℕ → Option ℕ
through none width = some width
through (some (into, out)) width = if width == into then some out else none

abbrev pub normed : Option ℕ → ℕ → Option ℕ
normed none width = some width
normed (some n) width = if width == n then some width else none

-- The parts of a decoder of OPT fit each other whatever the configuration: the embeddings become as wide
-- as the hidden states, which the last norm takes, and the output is as wide as the embeddings, which is
-- what the head takes; the table of positions has two rows more than there are positions.
pub opt_decoder_init-Widths :
    (c : OptConfig)
    → (through (opt_decoder_init c).project_in (opt_decoder_init c).embed_width
        ≡ some c.hidden_size)
      × (normed (opt_decoder_init c).final_layer_norm c.hidden_size ≡ some c.hidden_size)
      × (through (opt_decoder_init c).project_out c.hidden_size ≡ some c.word_embed_proj_dim)
      × ((opt_decoder_init c).num_positions ≡ c.max_position_embeddings + 2)
unfolding opt_decoder_init
opt_decoder_init-Widths c = (ground arith, ground arith, ground arith, refl)
