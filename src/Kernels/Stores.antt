-- ===== src/Kernels/Stores.antt =====
-- What the rounds of one program write: one range of addresses, from another that it does not meet.
use lmserve.Prelude.{
  ℕ, zero, suc, ◌+◌, ◌-◌, ◌*◌, ◌≤◌, ◌≡◌, ap, ◌∙◌, ◌⊎◌, inl, inr, ◌&&◌, ltb, leb, ◌==◌,
  if◌then◌else◌, range_from, arith, Bool-cases,
}
use lmserve.Kernels.{masked, store, copy_rounds}

module _ {A : Type 0} (numel src dst : ℕ) where
  store_lem :
      (loaded : ℕ → A) (i n : ℕ) (m : ℕ → A) (a : ℕ)
      → store loaded src dst (masked numel (range_from i n)) m a ≡ (
          if leb (dst + i) a && ltb a (dst + (i + n)) && ltb a (dst + numel)
          then loaded (src + (a - dst))
          else m a)
  unfolding store masked
  store_lem loaded i zero m a = ground arith
  store_lem loaded i (suc n) m a =
      let m' : ℕ → A = λ b. if dst + i == b then loaded (src + i) else m b in
      elim (Bool-cases (ltb i numel)) [
        | inl x ↦
            rw (masked, x)
              (store_lem loaded (i + 1) n m' a ∙ elim (Bool-cases (dst + i == a)) [
                | inl y ↦
                    let same : i ≡ a - dst = ground arith in
                    let value : loaded (src + i) ≡ loaded (src + (a - dst)) =
                      ap (λ (t : ℕ). loaded (src + t)) same in
                    ground (arith, x, y, value)
                | inr y ↦ ground (arith, x, y)
              ])
        | inr x ↦ rw (masked, x) (store_lem loaded (i + 1) n m a ∙ ground (arith, x))
      ]

  -- The range that is read and the range that is written.
  module _ (apart : (src + numel ≤ dst) ⊎ (dst + numel ≤ src)) where
    copy_rounds_lem :
        (block_size rounds i : ℕ) (m : ℕ → A) (a : ℕ)
        → copy_rounds numel block_size src dst rounds i m a ≡ (
            if leb (dst + i) a && ltb a (dst + (i + rounds * block_size)) && ltb a (dst + numel)
            then m (src + (a - dst))
            else m a)
    unfolding copy_rounds
    copy_rounds_lem block_size zero i m a = ground arith
    copy_rounds_lem block_size (suc rounds) i m a =
        let m' = store m src dst (masked numel (range_from i block_size)) m in
        let here = store_lem m i block_size m a in
        copy_rounds_lem block_size rounds (i + block_size) m' a
        ∙ elim (Bool-cases (leb dst a && ltb a (dst + numel))) [
          | inl x ↦
              let o = a - dst in
              let there : m' (src + o) ≡ m (src + o) =
                store_lem m i block_size m (src + o)
                ∙ elim apart [ inl h ↦ ground (arith, x, h) | inr h ↦ ground (arith, x, h) ] in
              ground (arith, x, here, there)
          | inr x ↦ ground (arith, x, here)
        ]

    -- Enough rounds write the whole range.
    pub copy_rounds_whole :
        (block_size rounds : ℕ) (m : ℕ → A) (a : ℕ)
        → numel ≤ rounds * block_size
        → copy_rounds numel block_size src dst rounds 0 m a
          ≡ (if leb dst a && ltb a (dst + numel) then m (src + (a - dst)) else m a)
    copy_rounds_whole block_size rounds m a h =
        copy_rounds_lem block_size rounds 0 m a ∙ ground (arith, h)
