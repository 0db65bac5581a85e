-- ===== src/Kernels/RotaryTable.antt =====
-- `RotaryEmbedding` of models/layers/rotary_embedding.py: the frequencies, the table of cosines and sines
-- that `__init__` registers, and `forward`. Floating point numbers are of an arbitrary type.
use lmserve.Prelude.{
  ℕ, ◌+◌, ◌*◌, ◌/◌, Bool, not, ◌&&◌, List, ◌++◌, map, Option, none, some, if◌then◌else◌, length,
  get_elem?, concat, range_from, Result, ok, ◌>>=◌,
}
use lmserve.Loading.Config.{floor_div}
use lmserve.Kernels.Rotary.{Arith, Launch, rotary_pos_emb}

-- The operations of Python and torch on floating point numbers: `F` is the type of float32 and `A` that
-- of the model's `torch_dtype`.
pub record Floats (F A : Type 0) : Type 0 where
  pub float : ℕ → F
  pub int : F → ℕ
  pub one : F
  pub two_pi : F
  pub add : F → F → F
  pub sub : F → F → F
  pub mul : F → F → F
  pub div : F → F → F
  pub pow : F → F → F
  pub cos : F → F
  pub sin : F → F
  pub below : F → F → Bool
  pub cast : F → A

-- `config.rope_scaling`
pub record RopeScaling (F : Type 0) : Type 0 where
  pub factor : F
  pub low_freq_factor : F
  pub high_freq_factor : F
  pub original_max_position_embeddings : F

-- What `__init__` reads of the configuration; with `none` for what may be missing.
pub record RopeConfig (F : Type 0) : Type 0 where
  pub rope_theta : Option F
  pub partial_rotary_factor : Option F
  pub head_dim : Option ℕ
  pub hidden_size : ℕ
  pub num_attention_heads : ℕ
  pub max_position_embeddings : ℕ
  pub rope_scaling : Option (RopeScaling F)

-- `getattr(config, name, default)`
abbrev pub get_or {ℓ} : {A : Type ℓ} → Option A → A → A
get_or none default = default
get_or (some a) default = a

-- `cos_sin_cached` is a tensor with rows of `cos_sin_width` numbers.
pub record RotaryEmbedding (A : Type 0) : Type 0 where
  pub rotary_dim : ℕ
  pub head_dim : ℕ
  pub cos_sin_cached : List (List A)
  pub cos_sin_width : ℕ

module _ {F A : Type 0} (fl : Floats F A) where
  -- `1.0 / (base ** (torch.arange(0, rotary_dim, 2).float() / rotary_dim))`, at the number `2 * i`
  unfoldable pub inv_freq_at : F → ℕ → ℕ → F
  inv_freq_at base rotary_dim i =
      fl.div fl.one (fl.pow base (fl.div (fl.float (2 * i)) (fl.float rotary_dim)))

  -- `math.pi * 2 / inv_freq`
  abbrev pub wavelen_of : F → F
  wavelen_of f = fl.div fl.two_pi f

  -- The scaling of one frequency, the three `torch.where` in their order.
  unfoldable pub scale_freq : RopeScaling F → F → F
  scale_freq s f =
      let low_freq_wavelen = fl.div s.original_max_position_embeddings s.low_freq_factor in
      let high_freq_wavelen = fl.div s.original_max_position_embeddings s.high_freq_factor in
      let wavelen = wavelen_of f in
      let divided = if fl.below low_freq_wavelen wavelen then fl.div f s.factor else f in
      let smooth =
        fl.div (fl.sub (fl.div s.original_max_position_embeddings wavelen) s.low_freq_factor)
          (fl.sub s.high_freq_factor s.low_freq_factor) in
      let smoothed =
        fl.add (fl.div (fl.mul (fl.sub fl.one smooth) divided) s.factor) (fl.mul smooth divided) in
      let is_medium_freq =
        not (fl.below wavelen high_freq_wavelen) && not (fl.below low_freq_wavelen wavelen) in
      if is_medium_freq then smoothed else divided

  unfoldable pub scaled : Option (RopeScaling F) → F → F
  unfolding scale_freq
  scaled none f = f
  scaled (some s) f = scale_freq s f

  unfoldable pub inv_freqs : Option (RopeScaling F) → F → ℕ → List F
  unfolding inv_freq_at scaled
  inv_freqs scaling base rotary_dim =
      map (λ i. scaled scaling (inv_freq_at base rotary_dim i))
        (range_from 0 ((rotary_dim + 1) / 2))

  -- Row `t` of the table: `cat((emb.cos(), emb.sin()))` of `cat((freqs, freqs))`.
  unfoldable pub cos_sin_row : List F → ℕ → List A
  cos_sin_row freq t =
      let freqs = map (fl.mul (fl.float t)) freq in
      let emb = freqs ++ freqs in
      map (λ x. fl.cast (fl.cos x)) emb ++ map (λ x. fl.cast (fl.sin x)) emb

  -- `RotaryEmbedding.__init__`, with 10000 as the default of `base`. The default of the width of a head is
  -- computed whether it is needed or not.
  unfoldable pub rotary_embedding_init : RopeConfig F → Result (RotaryEmbedding A)
  unfolding floor_div inv_freqs cos_sin_row
  rotary_embedding_init config = do
    even_width ← floor_div config.hidden_size config.num_attention_heads
    let base = get_or config.rope_theta (fl.float 10000)
    let partial_rotary_factor = get_or config.partial_rotary_factor fl.one
    let head_dim = get_or config.head_dim even_width
    let rotary_dim = fl.int (fl.mul (fl.float head_dim) partial_rotary_factor)
    let inv_freq = inv_freqs config.rope_scaling base rotary_dim
    ok (record {
      rotary_dim = rotary_dim;
      head_dim = head_dim;
      cos_sin_cached = map (cos_sin_row inv_freq) (range_from 0 config.max_position_embeddings);
      cos_sin_width = 4 * length inv_freq;
    })

-- A tensor in memory: its numbers, and anything behind them.
abbrev pub flat : {A : Type 0} → List A → (ℕ → A) → ℕ → A
flat numbers beyond a = elim (get_elem? numbers a) [ none ↦ beyond a | some x ↦ x ]

-- The arguments of `forward`: two matrices with a row for each token, and the positions.
pub record RotaryInputs (A : Type 0) : Type 0 where
  pub query : ℕ → A
  pub key : ℕ → A
  pub query_width : ℕ
  pub key_width : ℕ
  pub position : ℕ → ℕ

module _ {A : Type 0} (ops : Arith A) (e : RotaryEmbedding A) (beyond : ℕ → A) where
  -- What `rotary_pos_emb` launches its kernel with.
  abbrev pub launch_of : RotaryInputs A → ℕ → ℕ → Launch A
  launch_of i num_heads num_kv_heads = record {
    query = i.query;
    key = i.key;
    position = i.position;
    cos_sin_cache = flat (concat e.cos_sin_cached) beyond;
    num_heads = num_heads;
    num_kv_heads = num_kv_heads;
    head_dim = e.head_dim;
    rotary_dim = e.cos_sin_width / 2;
  }

  -- `RotaryEmbedding.forward`
  unfoldable pub rotary_embedding_forward :
      RotaryInputs A → List ℕ → (ℕ → A) × (ℕ → A) → Result ((ℕ → A) × (ℕ → A))
  unfolding floor_div rotary_pos_emb
  rotary_embedding_forward i tokens out = do
    num_heads ← floor_div i.query_width e.head_dim
    num_kv_heads ← floor_div i.key_width e.head_dim
    rotary_pos_emb ops (launch_of i num_heads num_kv_heads) tokens out
