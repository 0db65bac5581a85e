-- ===== src/Kernels/RotaryRows.antt =====
-- The rows of the two outputs of the rotary embedding: a row is a head of a token.
use native.Mathlib.Nat.{mul-le-mul_right, mul_assoc}
use lmserve.Prelude.{
  ℕ, zero, suc, ◌+◌, ◌-◌, ◌*◌, ◌/◌, ◌≤◌, ◌<◌, ◌≡◌, ◌≢◌, refl, ap, ◌∙◌, inl, inr, ◌&&◌, false, ltb,
  leb, ◌==◌, if◌then◌else◌, arith, Bool-cases,
}
use lmserve.Kernels.Rotary.{Arith, Launch, embed_dim, rotate_round, rotate_rounds, rotate_heads}
use lmserve.Kernels.RotaryHeads.{rotated, lanes, rotate_round_head, rotate_round_other, one_round}

later : (r r' : ℕ) → r' ≢ r → ltb r' r ≡ false → suc r ≤ r'
later r r' ne x = elim (Bool-cases (r' == r)) [
  | inl y ↦ absurd (ne (ground (arith, y)))
  | inr y ↦ ground (arith, x, y)
]

-- Rows of one width do not meet.
rows_apart :
    (width n r r' j : ℕ)
    → n ≤ width
    → j < width
    → r' ≢ r
    → (leb (r * width) (r' * width + j) && ltb (r' * width + j) (r * width + n)) ≡ false
rows_apart width n r r' j fits hj ne = elim (Bool-cases (ltb r' r)) [
  | inl x ↦
      let below : suc r' ≤ r = ground (arith, x) in ground (arith, mul-le-mul_right width below)
  | inr x ↦ let above : suc r ≤ r' = later r r' ne x in ground (arith, mul-le-mul_right width above)
]

-- One row more is written, here below a limit.
module _ {A : Type 0} (write : A → A) (x x' : A) (r n first first' : ℕ)
    (next : first' ≡ first + 1) where
  span_step :
      x' ≡ (if r == first then write x else x)
      → (if leb first' r && ltb r (first' + n) then write x' else x')
        ≡ (if leb first r && ltb r (first + suc n) then write x else x)
  span_step turn = elim (Bool-cases (r == first)) [
    | inl y ↦ ground (arith, turn, y, next)
    | inr y ↦
        let kept : x' ≡ x = ground (arith, turn, y) in ground (arith, kept, y, next, ap write kept)
  ]

  limited_step :
      (limit : ℕ)
      → x' ≡ (if (r == first) && ltb first limit then write x else x)
      → (if leb first' r && ltb r (first' + n) && ltb r limit then write x' else x')
        ≡ (if leb first r && ltb r (first + suc n) && ltb r limit then write x else x)
  limited_step limit turn = elim (Bool-cases ((r == first) && ltb first limit)) [
    | inl y ↦ ground (arith, turn, y, next)
    | inr y ↦
        let kept : x' ≡ x = ground (arith, turn, y) in ground (arith, kept, y, next, ap write kept)
  ]

module _ {A : Type 0} (ops : Arith A) (p : Launch A) (token : ℕ)
    (positive : 0 < embed_dim ops p token) (fits : embed_dim ops p token * 2 ≤ p.head_dim) where
  -- A round at a row writes that row.
  round_row :
      (src : ℕ → A) (row r j : ℕ) (out : ℕ → A)
      → j < p.head_dim
      → rotate_round ops p token src (row * p.head_dim) (lanes ops p token) out (r * p.head_dim + j)
        ≡ (if r == row
            then rotated ops p token src (r * p.head_dim) j (out (r * p.head_dim + j))
            else out (r * p.head_dim + j))
  round_row src row r j out hj = elim (Bool-cases (r == row)) [
    | inl x ↦
        let same : row ≡ r = ground arith in
        rw (x, same) (rotate_round_head ops p token src (r * p.head_dim) out j)
    | inr x ↦
        let ne : r ≢ row = λ e. absurd (ground (arith, x, e)) in
        rw x (
          rotate_round_other ops p token src (row * p.head_dim) out (r * p.head_dim + j)
            (rows_apart p.head_dim (embed_dim ops p token * 2) row r j fits hj ne))
  ]

  abbrev rounds : ℕ
  rounds = (embed_dim ops p token + embed_dim ops p token - 1) / embed_dim ops p token

  flat_row : (n h : ℕ) → token * (n * p.head_dim) + h * p.head_dim ≡ (token * n + h) * p.head_dim
  flat_row n h = omega (arith, mul_assoc token n p.head_dim)

  -- One turn of the loop over the heads.
  query_turn :
      (head r j : ℕ) (out : (ℕ → A) × (ℕ → A))
      → j < p.head_dim
      → (rotate_rounds ops p token (embed_dim ops p token) head rounds 0 out).0 (r * p.head_dim + j)
        ≡ (if r == token * p.num_heads + head
            then rotated ops p token p.query (r * p.head_dim) j (out.0 (r * p.head_dim + j))
            else out.0 (r * p.head_dim + j))
  unfolding rotate_rounds
  query_turn head r j out hj =
      rw (one_round ops p token positive, flat_row p.num_heads head)
        (round_row p.query (token * p.num_heads + head) r j out.0 hj)

  key_turn :
      (head r j : ℕ) (out : (ℕ → A) × (ℕ → A))
      → j < p.head_dim
      → (rotate_rounds ops p token (embed_dim ops p token) head rounds 0 out).1 (r * p.head_dim + j)
        ≡ (if (r == token * p.num_kv_heads + head) && ltb head p.num_kv_heads
            then rotated ops p token p.key (r * p.head_dim) j (out.1 (r * p.head_dim + j))
            else out.1 (r * p.head_dim + j))
  unfolding rotate_rounds
  key_turn head r j out hj =
      let written = round_row p.key (token * p.num_kv_heads + head) r j out.1 hj in
      rw (one_round ops p token positive, flat_row p.num_kv_heads head)
        (elim (Bool-cases (ltb head p.num_kv_heads)) [
          | inl x ↦ rw x (
              written ∙ elim (Bool-cases (r == token * p.num_kv_heads + head)) [
                | inl y ↦ rw y refl
                | inr y ↦ rw y refl
              ])
          | inr x ↦ rw x (elim (Bool-cases (r == token * p.num_kv_heads + head)) [
            | inl y ↦ rw y refl
            | inr y ↦ rw y refl
          ])
        ])

  -- The loop over the heads from `head` on.
  pub query_heads :
      (n head r j : ℕ) (out : (ℕ → A) × (ℕ → A))
      → j < p.head_dim
      → (rotate_heads ops p token (embed_dim ops p token) n head out).0 (r * p.head_dim + j) ≡ (
          if leb (token * p.num_heads + head) r && ltb r (token * p.num_heads + head + n)
          then rotated ops p token p.query (r * p.head_dim) j (out.0 (r * p.head_dim + j))
          else out.0 (r * p.head_dim + j))
  unfolding rotate_heads
  query_heads zero head r j out hj = ground arith
  query_heads (suc n) head r j out hj =
      let out' = rotate_rounds ops p token (embed_dim ops p token) head rounds 0 out in
      let turn = query_turn head r j out hj in
      query_heads n (head + 1) r j out' hj
      ∙ span_step (λ old. rotated ops p token p.query (r * p.head_dim) j old)
          (out.0 (r * p.head_dim + j)) (out'.0 (r * p.head_dim + j)) r n
          (token * p.num_heads + head) (token * p.num_heads + (head + 1)) (omega arith) turn

  pub key_heads :
      (n head r j : ℕ) (out : (ℕ → A) × (ℕ → A))
      → j < p.head_dim
      → (rotate_heads ops p token (embed_dim ops p token) n head out).1 (r * p.head_dim + j) ≡ (
          if leb (token * p.num_kv_heads + head) r
            && ltb r (token * p.num_kv_heads + head + n)
            && ltb r (token * p.num_kv_heads + p.num_kv_heads)
          then rotated ops p token p.key (r * p.head_dim) j (out.1 (r * p.head_dim + j))
          else out.1 (r * p.head_dim + j))
  unfolding rotate_heads
  key_heads zero head r j out hj = ground arith
  key_heads (suc n) head r j out hj =
      let out' = rotate_rounds ops p token (embed_dim ops p token) head rounds 0 out in
      let first = token * p.num_kv_heads + head in
      let limit = token * p.num_kv_heads + p.num_kv_heads in
      let below : ltb head p.num_kv_heads ≡ ltb first limit = ground arith in
      let x = out.1 (r * p.head_dim + j) in
      let turn : out'.1 (r * p.head_dim + j) ≡ (
          if (r == first) && ltb first limit
          then rotated ops p token p.key (r * p.head_dim) j x
          else x) =
        rw (← below) (key_turn head r j out hj) in
      key_heads n (head + 1) r j out' hj
      ∙ limited_step (λ old. rotated ops p token p.key (r * p.head_dim) j old) x
          (out'.1 (r * p.head_dim + j)) r n first (token * p.num_kv_heads + (head + 1))
          (omega arith) limit turn
