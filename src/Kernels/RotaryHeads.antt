-- ===== src/Kernels/RotaryHeads.antt =====
-- What a program of the rotary embedding writes into the heads of its token.
use native.Mathlib.Nat.{div-eq_of_lt-le}
use lmserve.Prelude.{
  ℕ, zero, suc, ◌+◌, ◌-◌, ◌*◌, ◌/◌, ◌<◌, ◌≡◌, ap, ◌∙◌, inl, inr, ◌&&◌, List, ltb, leb, ◌==◌, false,
  if◌then◌else◌, range_from, arith, Bool-cases,
}
use lmserve.Kernels.{masked}
use lmserve.Kernels.Rotary.{
  Arith, Launch, store_values, embed_dim, rotated_x, rotated_y, rotate_round,
}

module _ {A : Type 0} where
  store_values_lem :
      (numel ptr : ℕ) (value : ℕ → A) (i n : ℕ) (out : ℕ → A) (a : ℕ)
      → store_values ptr value (masked numel (range_from i n)) out a ≡ (
          if leb (ptr + i) a && ltb a (ptr + (i + n)) && ltb a (ptr + numel)
          then value (a - ptr)
          else out a)
  unfolding store_values masked
  store_values_lem numel ptr value i zero out a = ground arith
  store_values_lem numel ptr value i (suc n) out a =
      let out' : ℕ → A = λ b. if ptr + i == b then value i else out b in
      elim (Bool-cases (ltb i numel)) [
        | inl x ↦
            rw (masked, x)
              (store_values_lem numel ptr value (i + 1) n out' a
                ∙ elim (Bool-cases (ptr + i == a)) [
                  | inl y ↦
                      let same : i ≡ a - ptr = ground arith in
                      let v : value i ≡ value (a - ptr) = ap value same in ground (arith, x, y, v)
                  | inr y ↦ ground (arith, x, y)
                ])
        | inr x ↦
            rw (masked, x) (store_values_lem numel ptr value (i + 1) n out a ∙ ground (arith, x))
      ]

  -- The stores of the two halves of a head.
  two_stores :
      (e ptr : ℕ) (fx fy : ℕ → A) (out : ℕ → A) (j : ℕ)
      → store_values
          (ptr + e)
          fy
          (masked e (range_from 0 e))
          (store_values ptr fx (masked e (range_from 0 e)) out)
          (ptr + j)
        ≡ (if ltb j e then fx j else if ltb j (e * 2) then fy (j - e) else out (ptr + j))
  two_stores e ptr fx fy out j =
      let first = store_values_lem e ptr fx 0 e out (ptr + j) in
      let vx : fx (ptr + j - ptr) ≡ fx j = ap fx (omega arith) in
      let vy : fy (ptr + j - (ptr + e)) ≡ fy (j - e) = ap fy (omega arith) in
      store_values_lem e (ptr + e) fy 0 e (store_values ptr fx (masked e (range_from 0 e)) out)
        (ptr + j)
      ∙ ground (arith, first, vx, vy)

  other_stores :
      (e ptr : ℕ) (fx fy : ℕ → A) (out : ℕ → A) (a : ℕ)
      → (leb ptr a && ltb a (ptr + e * 2)) ≡ false
      → store_values
          (ptr + e)
          fy
          (masked e (range_from 0 e))
          (store_values ptr fx (masked e (range_from 0 e)) out)
          a
        ≡ out a
  other_stores e ptr fx fy out a h =
      let first = store_values_lem e ptr fx 0 e out a in
      store_values_lem e (ptr + e) fy 0 e (store_values ptr fx (masked e (range_from 0 e)) out) a
      ∙ ground (arith, first, h)

module _ {A : Type 0} (ops : Arith A) (p : Launch A) (token : ℕ) where
  -- What the number `j` of a head becomes: in the first half, in the second, and behind them.
  abbrev pub rotated : (ℕ → A) → ℕ → ℕ → A → A
  rotated src ptr j old =
      if ltb j (embed_dim ops p token)
      then rotated_x ops p token src ptr j
      else if ltb j (embed_dim ops p token * 2)
      then rotated_y ops p token src ptr (j - embed_dim ops p token)
      else old

  abbrev pub lanes : List ℕ
  lanes = masked (embed_dim ops p token) (range_from 0 (embed_dim ops p token))

  pub rotate_round_head :
      (src : ℕ → A) (ptr : ℕ) (out : ℕ → A) (j : ℕ)
      → rotate_round ops p token src ptr lanes out (ptr + j) ≡ rotated src ptr j (out (ptr + j))
  unfolding rotate_round
  rotate_round_head src ptr out j =
      two_stores (embed_dim ops p token) ptr (rotated_x ops p token src ptr)
        (rotated_y ops p token src ptr) out j

  pub rotate_round_other :
      (src : ℕ → A) (ptr : ℕ) (out : ℕ → A) (a : ℕ)
      → (leb ptr a && ltb a (ptr + embed_dim ops p token * 2)) ≡ false
      → rotate_round ops p token src ptr lanes out a ≡ out a
  unfolding rotate_round
  rotate_round_other src ptr out a h =
      other_stores (embed_dim ops p token) ptr (rotated_x ops p token src ptr)
        (rotated_y ops p token src ptr) out a h

  -- A launch has one round: as many lanes as half the rotary dimension.
  pub one_round :
      0 < embed_dim ops p token
      → (embed_dim ops p token + embed_dim ops p token - 1) / embed_dim ops p token ≡ 1
  one_round h = div-eq_of_lt-le (embed_dim ops p token) (omega (arith, h)) (omega (arith, h))
