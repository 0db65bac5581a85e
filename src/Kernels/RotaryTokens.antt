-- ===== src/Kernels/RotaryTokens.antt =====
-- The two outputs of the rotary embedding, whatever the order of the tokens.
use native.Mathlib.Nat.{mul-le-mul_right}
use lmserve.Prelude.{
  ◌^◌, ok, ℕ, suc, ◌+◌, ◌*◌, ◌/◌, ◌≤◌, ◌<◌, ◌≡◌, refl, ap, ◌∙◌, inl, inr, Bool, true, false, ◌&&◌,
  ◌||◌, List, [], ◌∷◌, ltb, leb, ◌==◌, if◌then◌else◌, arith, Bool-cases,
}
use lmserve.Kernels.Rotary.{
  Arith, Launch, apply_rotary_pos_emb_kernel, rotary_programs, rotary_pos_emb, is_power_of_two,
  is_power_of_two-pow,
}
use lmserve.Kernels.RotaryHeads.{rotated}
use lmserve.Kernels.RotaryRows.{query_heads, key_heads}

-- The rows of a token are its own.
in_token :
    (n token t h : ℕ)
    → h < n
    → (leb (token * n + 0) (t * n + h) && ltb (t * n + h) (token * n + 0 + n)) ≡ (t == token)
in_token n token t h hh = elim (Bool-cases (t == token)) [
  | inl x ↦
      let same : t * n ≡ token * n = ap (λ (k : ℕ). k * n) (ground (arith, x)) in
      ground (arith, x, same)
  | inr x ↦ elim (Bool-cases (ltb t token)) [
    | inl y ↦
        let below : suc t ≤ token = ground (arith, y) in ground (arith, x, mul-le-mul_right n below)
    | inr y ↦
        let above : suc token ≤ t = ground (arith, x, y) in
        ground (arith, x, mul-le-mul_right n above)
  ]
]

-- The loop over the query heads writes all key heads, if there are no more of these.
key_rows_lem :
    (heads n token t h : ℕ)
    → h < n
    → n ≤ heads
    → (leb (token * n + 0) (t * n + h)
        && ltb (t * n + h) (token * n + 0 + heads)
        && ltb (t * n + h) (token * n + n))
      ≡ (t == token)
key_rows_lem heads n token t h hh grouped = ground (arith, in_token n token t h hh)

-- A value that is written once or again.
order_step :
    {A : Type 0} (write : A → A) (b c : Bool) (x x' : A)
    → write (write x) ≡ write x
    → x' ≡ (if b then write x else x)
    → (if c then write x' else x') ≡ (if b || c then write x else x)
order_step write true true x x' idem turn = ap write turn ∙ idem
order_step write true false x x' idem turn = turn
order_step write false true x x' idem turn = ap write turn
order_step write false false x x' idem turn = turn

abbrev pub among : ℕ → List ℕ → Bool
among t [] = false
among t (token ∷ tokens) = (t == token) || among t tokens

module _ {A : Type 0} (ops : Arith A) (p : Launch A) (positive : 0 < p.rotary_dim / 2)
    (fits : p.rotary_dim / 2 * 2 ≤ p.head_dim) (t j : ℕ) (hj : j < p.head_dim) where
  rotated_idem :
      (src : ℕ → A) (ptr : ℕ) (old : A)
      → rotated ops p t src ptr j (rotated ops p t src ptr j old) ≡ rotated ops p t src ptr j old
  rotated_idem src ptr old = elim (Bool-cases (ltb j (p.rotary_dim / 2))) [
    | inl x ↦ rw x refl
    | inr x ↦ elim (Bool-cases (ltb j (p.rotary_dim / 2 * 2))) [
      | inl y ↦ rw (x, y) refl
      | inr y ↦ rw (x, y) refl
    ]
  ]

  module _ (h : ℕ) (hh : h < p.num_heads) where
    query_kernel :
        (token : ℕ) (out : (ℕ → A) × (ℕ → A))
        → (apply_rotary_pos_emb_kernel ops p token (p.rotary_dim / 2) out).0
            ((t * p.num_heads + h) * p.head_dim + j)
          ≡ (if t == token
              then rotated ops p t p.query
                  ((t * p.num_heads + h) * p.head_dim)
                  j
                  (out.0 ((t * p.num_heads + h) * p.head_dim + j))
              else out.0 ((t * p.num_heads + h) * p.head_dim + j))
    unfolding apply_rotary_pos_emb_kernel
    query_kernel token out =
        let r = t * p.num_heads + h in
        query_heads ops p token positive fits p.num_heads 0 r j out hj
        ∙ rw (in_token p.num_heads token t h hh) (elim (Bool-cases (t == token)) [
          | inl x ↦
              let same : token ≡ t = ground (arith, x) in
              rw x (
                ap
                  (λ (k : ℕ).
                    rotated ops p k p.query (r * p.head_dim) j (out.0 (r * p.head_dim + j)))
                  same)
          | inr x ↦ rw x refl
        ])

    query_tokens :
        (tokens : List ℕ) (out : (ℕ → A) × (ℕ → A))
        → (rotary_programs ops p tokens out).0 ((t * p.num_heads + h) * p.head_dim + j) ≡ (
            if among t tokens
            then rotated ops p t p.query
                ((t * p.num_heads + h) * p.head_dim)
                j
                (out.0 ((t * p.num_heads + h) * p.head_dim + j))
            else out.0 ((t * p.num_heads + h) * p.head_dim + j))
    unfolding rotary_programs
    query_tokens [] out = refl
    query_tokens (token ∷ tokens) out =
        let r = t * p.num_heads + h in
        let out' = apply_rotary_pos_emb_kernel ops p token (p.rotary_dim / 2) out in
        query_tokens tokens out'
        ∙ order_step (rotated ops p t p.query (r * p.head_dim) j) (t == token) (among t tokens)
            (out.0 (r * p.head_dim + j)) (out'.0 (r * p.head_dim + j))
            (rotated_idem p.query (r * p.head_dim) (out.0 (r * p.head_dim + j)))
            (query_kernel token out)

  module _ (h : ℕ) (hh : h < p.num_kv_heads) (grouped : p.num_kv_heads ≤ p.num_heads) where
    key_kernel :
        (token : ℕ) (out : (ℕ → A) × (ℕ → A))
        → (apply_rotary_pos_emb_kernel ops p token (p.rotary_dim / 2) out).1
            ((t * p.num_kv_heads + h) * p.head_dim + j)
          ≡ (if t == token
              then rotated ops p t p.key
                  ((t * p.num_kv_heads + h) * p.head_dim)
                  j
                  (out.1 ((t * p.num_kv_heads + h) * p.head_dim + j))
              else out.1 ((t * p.num_kv_heads + h) * p.head_dim + j))
    unfolding apply_rotary_pos_emb_kernel
    key_kernel token out =
        let r = t * p.num_kv_heads + h in
        key_heads ops p token positive fits p.num_heads 0 r j out hj
        ∙ rw (key_rows_lem p.num_heads p.num_kv_heads token t h hh grouped)
            (elim (Bool-cases (t == token)) [
              | inl x ↦
                  let same : token ≡ t = ground (arith, x) in
                  rw x (
                    ap
                      (λ (k : ℕ).
                        rotated ops p k p.key (r * p.head_dim) j (out.1 (r * p.head_dim + j)))
                      same)
              | inr x ↦ rw x refl
            ])

    key_tokens :
        (tokens : List ℕ) (out : (ℕ → A) × (ℕ → A))
        → (rotary_programs ops p tokens out).1 ((t * p.num_kv_heads + h) * p.head_dim + j) ≡ (
            if among t tokens
            then rotated ops p t p.key
                ((t * p.num_kv_heads + h) * p.head_dim)
                j
                (out.1 ((t * p.num_kv_heads + h) * p.head_dim + j))
            else out.1 ((t * p.num_kv_heads + h) * p.head_dim + j))
    unfolding rotary_programs
    key_tokens [] out = refl
    key_tokens (token ∷ tokens) out =
        let r = t * p.num_kv_heads + h in
        let out' = apply_rotary_pos_emb_kernel ops p token (p.rotary_dim / 2) out in
        key_tokens tokens out'
        ∙ order_step (rotated ops p t p.key (r * p.head_dim) j) (t == token) (among t tokens)
            (out.1 (r * p.head_dim + j)) (out'.1 (r * p.head_dim + j))
            (rotated_idem p.key (r * p.head_dim) (out.1 (r * p.head_dim + j)))
            (key_kernel token out)

  -- What the programs leave of one number of a query head and of a key head.
  pub rotary_programs-rotated :
      (tokens : List ℕ) (out : (ℕ → A) × (ℕ → A)) (h g : ℕ)
      → p.num_kv_heads ≤ p.num_heads
      → among t tokens ≡ true
      → h < p.num_heads
      → g < p.num_kv_heads
      → ((rotary_programs ops p tokens out).0 ((t * p.num_heads + h) * p.head_dim + j)
          ≡ rotated ops p t p.query
              ((t * p.num_heads + h) * p.head_dim)
              j
              (out.0 ((t * p.num_heads + h) * p.head_dim + j)))
        × ((rotary_programs ops p tokens out).1 ((t * p.num_kv_heads + g) * p.head_dim + j)
            ≡ rotated ops p t p.key
                ((t * p.num_kv_heads + g) * p.head_dim)
                j
                (out.1 ((t * p.num_kv_heads + g) * p.head_dim + j)))
  rotary_programs-rotated tokens out h g grouped ran hh hg =
      (query_tokens h hh tokens out ∙ rw ran refl, key_tokens g hg grouped tokens out ∙ rw ran refl)

  -- For a rotary dimension that fits a head and whose half is a power of two, and no more key heads than
  -- query heads, the kernel is compiled, and in every order of the programs, with that of a token
  -- among them, each number of each query head and key head of the token is, in the two halves of the
  -- rotary dimension, the rotation of the input by the table's numbers for the position of the token;
  -- what stands behind the rotary dimension is what the output held before the kernel.
  pub rotary_pos_emb-rotated :
      (tokens : List ℕ) (out : (ℕ → A) × (ℕ → A)) (h g n : ℕ)
      → p.rotary_dim / 2 ≡ 2 ^ n
      → p.num_kv_heads ≤ p.num_heads
      → among t tokens ≡ true
      → h < p.num_heads
      → g < p.num_kv_heads
      → (r : (ℕ → A) × (ℕ → A)) × (rotary_pos_emb ops p tokens out ≡ ok r)
        × (r.0 ((t * p.num_heads + h) * p.head_dim + j)
            ≡ rotated ops p t p.query
                ((t * p.num_heads + h) * p.head_dim)
                j
                (out.0 ((t * p.num_heads + h) * p.head_dim + j)))
        × (r.1 ((t * p.num_kv_heads + g) * p.head_dim + j)
            ≡ rotated ops p t p.key
                ((t * p.num_kv_heads + g) * p.head_dim)
                j
                (out.1 ((t * p.num_kv_heads + g) * p.head_dim + j)))
  unfolding rotary_pos_emb
  rotary_pos_emb-rotated tokens out h g n power grouped ran hh hg =
      let compiled : is_power_of_two (p.rotary_dim / 2) ≡ true =
        ap is_power_of_two power ∙ is_power_of_two-pow n in
      let both = rotary_programs-rotated tokens out h g grouped ran hh hg in
      (rotary_programs ops p tokens out, rw compiled refl, both.0, both.1)
