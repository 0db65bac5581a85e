-- ===== src/Kernels/RotaryTests.antt =====
-- Two tokens of two query heads and one key head of six numbers, of which four are rotated.
use lmserve.Prelude.{ℕ, ◌+◌, ◌-◌, ◌*◌, ◌/◌, ◌≡◌, refl, [], ◌∷◌, none, some, ltb, ok, arith}
use lmserve.Kernels.Rotary.{Arith, Launch, rotary_programs, rotary_pos_emb}
use lmserve.Kernels.RotaryHeads.{rotated}
use lmserve.Kernels.RotaryTokens.{rotary_pos_emb-rotated}
use lmserve.Kernels.RotaryTable.{
  Floats, RopeConfig, RotaryEmbedding, RotaryInputs, inv_freq_at, scaled, rotary_embedding_init,
  rotary_embedding_forward,
}
use lmserve.Kernels.RotaryAngles.{Turned, rotary_embedding_forward-Turned}

abbrev ops : Arith ℕ
ops = record { add = λ a b. a + b; sub = λ a b. a - b; mul = λ a b. a * b }

abbrev launch : Launch ℕ
launch = record {
  query = λ a. 10 + a;
  key = λ a. 50 + a;
  position = λ t. t + 3;
  cos_sin_cache = λ a. a;
  num_heads = 2;
  num_kv_heads = 1;
  head_dim = 6;
  rotary_dim = 4;
}

-- What `torch.empty_like` leaves.
abbrev outputs : (ℕ → ℕ) × (ℕ → ℕ)
outputs = (λ a. 777, λ a. 888)

-- The last number of a head is never written.
garbage_run : (rotary_programs ops launch (1 ∷ 0 ∷ []) outputs).0 23 ≡ 777
unfolding rotary_programs
garbage_run = refl

rotary_pos_emb-rotated_example :
    (r : (ℕ → ℕ) × (ℕ → ℕ)) × (rotary_pos_emb ops launch (1 ∷ 0 ∷ []) outputs ≡ ok r)
    × (r.0 ((1 * 2 + 1) * 6 + 3) ≡ rotated ops launch 1 launch.query ((1 * 2 + 1) * 6) 3 777)
    × (r.1 ((1 * 1 + 0) * 6 + 3) ≡ rotated ops launch 1 launch.key ((1 * 1 + 0) * 6) 3 888)
rotary_pos_emb-rotated_example =
    rotary_pos_emb-rotated ops launch (omega arith) (omega arith) 1 3 (omega arith) (1 ∷ 0 ∷ [])
      outputs 1 0 1 refl (omega arith) refl (omega arith) (omega arith)

-- Whole numbers in the place of floating point numbers, with a cosine and a sine that show their angle.
abbrev floats : Floats ℕ ℕ
floats = record {
  float = λ n. n;
  int = λ n. n;
  one = 1;
  two_pi = 6;
  add = λ a b. a + b;
  sub = λ a b. a - b;
  mul = λ a b. a * b;
  div = λ a b. a / b;
  pow = λ a b. 1;
  cos = λ a. 100 + a;
  sin = λ a. 200 + a;
  below = ltb;
  cast = λ a. a;
}

abbrev rope : RopeConfig ℕ
rope = record {
  rope_theta = some 0;
  partial_rotary_factor = none;
  head_dim = some 4;
  hidden_size = 8;
  num_attention_heads = 2;
  max_position_embeddings = 3;
  rope_scaling = none;
}

abbrev embedding : RotaryEmbedding ℕ
embedding = record {
  rotary_dim = 4;
  head_dim = 4;
  cos_sin_cached =
      (100 ∷ 100 ∷ 100 ∷ 100 ∷ 200 ∷ 200 ∷ 200 ∷ 200 ∷ [])
      ∷ (101 ∷ 101 ∷ 101 ∷ 101 ∷ 201 ∷ 201 ∷ 201 ∷ 201 ∷ [])
      ∷ (102 ∷ 102 ∷ 102 ∷ 102 ∷ 202 ∷ 202 ∷ 202 ∷ 202 ∷ [])
      ∷ [];
  cos_sin_width = 8;
}

made : rotary_embedding_init floats rope ≡ ok embedding
unfolding rotary_embedding_init
made = refl

abbrev tensors : RotaryInputs ℕ
tensors = record {
  query = λ a. 10 + a;
  key = λ a. 50 + a;
  query_width = 8;
  key_width = 4;
  position = λ t. t + 1;
}

-- The pair 1 of token 1, which stands at position 2: head 1 of the query, head 0 of the key.
rotary_embedding_forward-Turned_example :
    (r : (ℕ → ℕ) × (ℕ → ℕ)) × (rotary_embedding_forward ops embedding
        (λ a. 0)
        tensors
        (1 ∷ 0 ∷ [])
        outputs
      ≡ ok r)
    × Turned ops tensors.query r.0 12 2 1 102 202
    × Turned ops tensors.key r.1 4 2 1 102 202
unfolding scaled inv_freq_at
rotary_embedding_forward-Turned_example =
    rotary_embedding_forward-Turned floats rope made 2 (λ a. 0) ops tensors (1 ∷ 0 ∷ []) outputs 1 1
      1 0 1 refl refl (omega arith) (omega arith) (omega arith) (omega arith) refl (omega arith)
      (omega arith)
