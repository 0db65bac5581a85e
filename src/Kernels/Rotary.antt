-- ===== src/Kernels/Rotary.antt =====
-- The rotary embedding: `rotary_pos_emb` of ops/rotary_embedding_ops.py and its kernel in
-- ops/triton/rotary_embedding.py, over numbers of an arbitrary type.
use lmserve.Prelude.{
  ℕ, zero, suc, ◌+◌, ◌-◌, ◌*◌, ◌/◌, ◌%◌, ◌^◌, ◌<◌, ◌≡◌, refl, ap, ◌∙◌, inl, inr, Bool, true, false,
  ◌&&◌, ◌||◌, List, [], ◌∷◌, ltb, ◌==◌, if◌then◌else◌, range_from, Bool-cases, Result, ok, raise,
  compilation_error, arith,
}
use native.Mathlib.Nat.{pow-succ'}
use lmserve.Kernels.{masked}

-- The arithmetic of the numbers.
pub record Arith (A : Type 0) : Type 0 where
  pub add : A → A → A
  pub sub : A → A → A
  pub mul : A → A → A

-- The arguments of the launch: `query`, `key`, `positions` and `cos_sin_cache` with its last dimension
-- halved, and the sizes.
pub record Launch (A : Type 0) : Type 0 where
  pub query : ℕ → A
  pub key : ℕ → A
  pub position : ℕ → ℕ
  pub cos_sin_cache : ℕ → A
  pub num_heads : ℕ
  pub num_kv_heads : ℕ
  pub head_dim : ℕ
  pub rotary_dim : ℕ

module _ {A : Type 0} where
  -- `tl.store(ptr + idxs, values, mask=mask)`
  unfoldable pub store_values : ℕ → (ℕ → A) → List ℕ → (ℕ → A) → ℕ → A
  store_values ptr value [] out = out
  store_values ptr value (o ∷ os) out =
      store_values ptr value os (λ a. if ptr + o == a then value o else out a)

module _ {A : Type 0} (ops : Arith A) (p : Launch A) (token : ℕ) where
  abbrev pub embed_dim : ℕ
  embed_dim = p.rotary_dim / 2

  abbrev pub cos_ptr : ℕ
  cos_ptr = p.position token * (p.rotary_dim * 2)

  abbrev pub sin_ptr : ℕ
  sin_ptr = p.position token * (p.rotary_dim * 2) + p.rotary_dim

  -- The two numbers that a lane computes from the numbers of a head at `ptr`.
  abbrev pub rotated_x : (ℕ → A) → ℕ → ℕ → A
  rotated_x src ptr o =
      ops.sub (ops.mul (src (ptr + o)) (p.cos_sin_cache (cos_ptr + o)))
        (ops.mul (src (ptr + (embed_dim + o))) (p.cos_sin_cache (sin_ptr + o)))

  abbrev pub rotated_y : (ℕ → A) → ℕ → ℕ → A
  rotated_y src ptr o =
      ops.add (ops.mul (src (ptr + (embed_dim + o))) (p.cos_sin_cache (cos_ptr + (embed_dim + o))))
        (ops.mul (src (ptr + o)) (p.cos_sin_cache (sin_ptr + (embed_dim + o))))

  -- The stores of one round into the output of a head.
  unfoldable pub rotate_round : (ℕ → A) → ℕ → List ℕ → (ℕ → A) → ℕ → A
  unfolding store_values
  rotate_round src ptr os out =
      store_values (ptr + embed_dim) (rotated_y src ptr) os
        (store_values ptr (rotated_x src ptr) os out)

  -- `for i in range(0, embed_dim, BLOCK_SIZE)`, of which `rounds` rounds are left.
  unfoldable pub rotate_rounds : ℕ → ℕ → ℕ → ℕ → (ℕ → A) × (ℕ → A) → (ℕ → A) × (ℕ → A)
  unfolding masked rotate_round
  rotate_rounds block_size head zero i out = out
  rotate_rounds block_size head (suc rounds) i out =
      let os = masked embed_dim (range_from i block_size) in
      let q = token * (p.num_heads * p.head_dim) + head * p.head_dim in
      let k = token * (p.num_kv_heads * p.head_dim) + head * p.head_dim in
      rotate_rounds block_size head rounds (i + block_size) (
        rotate_round p.query q os out.0,
        if ltb head p.num_kv_heads then rotate_round p.key k os out.1 else out.1,
      )

  -- `for head_id in range(head, head + heads)`
  unfoldable pub rotate_heads : ℕ → ℕ → ℕ → (ℕ → A) × (ℕ → A) → (ℕ → A) × (ℕ → A)
  unfolding rotate_rounds
  rotate_heads block_size zero head out = out
  rotate_heads block_size (suc heads) head out =
      rotate_heads block_size heads (head + 1)
        (rotate_rounds block_size head ((embed_dim + block_size - 1) / block_size) 0 out)

  -- `apply_rotary_pos_emb_kernel`
  unfoldable pub apply_rotary_pos_emb_kernel : ℕ → (ℕ → A) × (ℕ → A) → (ℕ → A) × (ℕ → A)
  unfolding rotate_heads
  apply_rotary_pos_emb_kernel block_size out = rotate_heads block_size p.num_heads 0 out

-- The programs of the tokens in the order in which they run.
unfoldable pub rotary_programs :
    {A : Type 0} → Arith A → Launch A → List ℕ → (ℕ → A) × (ℕ → A) → (ℕ → A) × (ℕ → A)
unfolding apply_rotary_pos_emb_kernel
rotary_programs ops p [] out = out
rotary_programs ops p (token ∷ tokens) out =
    rotary_programs ops p tokens (apply_rotary_pos_emb_kernel ops p token (p.rotary_dim / 2) out)

-- Whether `n` is a power of two, by halving it.
unfoldable pub halves_to_one : ℕ → ℕ → Bool
halves_to_one zero n = false
halves_to_one (suc fuel) n = (n == 1) || ((n % 2 == 0) && halves_to_one fuel (n / 2))

unfoldable pub is_power_of_two : ℕ → Bool
unfolding halves_to_one
is_power_of_two n = halves_to_one n n

-- `rotary_pos_emb`, on two outputs that `torch.empty_like` has made. Triton compiles the kernel for its
-- `BLOCK_SIZE`, which is `rotary_dim // 2`, and refuses `tl.arange` of a length that is no power of two.
unfoldable pub rotary_pos_emb :
    {A : Type 0} → Arith A → Launch A → List ℕ → (ℕ → A) × (ℕ → A) → Result ((ℕ → A) × (ℕ → A))
unfolding rotary_programs is_power_of_two
rotary_pos_emb ops p tokens out =
    if is_power_of_two (p.rotary_dim / 2)
    then ok (rotary_programs ops p tokens out)
    else raise compilation_error

halves-double : (fuel k : ℕ) → halves_to_one fuel k ≡ true → halves_to_one (suc fuel) (2 * k) ≡ true
unfolding halves_to_one
halves-double fuel k h =
    let even : (2 * k % 2 == 0) ≡ true = ground arith in
    let half : 2 * k / 2 ≡ k = omega arith in
    elim (Bool-cases (2 * k == 1)) [ inl x ↦ rw x refl | inr x ↦ rw (x, even, half) h ]

-- A power of two is accepted.
halves-pow : (fuel n : ℕ) → n < fuel → halves_to_one fuel (2 ^ n) ≡ true
unfolding halves_to_one
halves-pow zero n h = absurd (omega arith)
halves-pow (suc fuel) zero h = refl
halves-pow (suc fuel) (suc n) h =
    ap (halves_to_one (suc fuel)) (pow-succ' 2 n)
    ∙ halves-double fuel (2 ^ n) (halves-pow fuel n (omega arith))

lt-pow : (n : ℕ) → n < 2 ^ n
lt-pow zero = omega arith
lt-pow (suc n) = omega (arith, pow-succ' 2 n, lt-pow n)

pub is_power_of_two-pow : (n : ℕ) → is_power_of_two (2 ^ n) ≡ true
unfolding is_power_of_two
is_power_of_two-pow n = halves-pow (2 ^ n) n (lt-pow n)
