-- ===== src/Kernels/Programs.antt =====
-- What one program copies: a block of its layer, and nothing else.
use native.Mathlib.Nat.{mul_assoc, mul-le-mul_right, div-add-mod', mod-lt}
use lmserve.Prelude.{
  ℕ, suc, ◌+◌, ◌-◌, ◌*◌, ◌/◌, ◌≤◌, ◌<◌, ◌≡◌, ◌≢◌, refl, ap, sym, ◌∙◌, ◌⊎◌, inl, inr, ◌&&◌, false,
  ltb, leb, ◌==◌, if◌then◌else◌, arith, Bool-cases, ltb→lt,
}
use lmserve.KvWorker.Directions.{slots_apart}
use lmserve.Kernels.{copy_blocks_kernel}
use lmserve.Kernels.Stores.{copy_rounds_whole}

suc_le : (a b : ℕ) → a < b → suc a ≤ b
suc_le a b h = omega arith

other_lt : (a b : ℕ) → a ≢ b → ltb a b ≡ false → b < a
other_lt a b h x = elim (Bool-cases (a == b)) [
  | inl y ↦ absurd (h (ground arith))
  | inr y ↦ ground (arith, x, y)
]

-- `range(0, numel, block_size)` has enough rounds.
enough_rounds :
    (numel block_size : ℕ)
    → 0 < block_size
    → numel ≤ (numel + block_size - 1) / block_size * block_size
enough_rounds numel block_size h =
    omega
      (arith, div-add-mod' (numel + block_size - 1) block_size, mod-lt (numel + block_size - 1) h)

module _ (num_blocks numel : ℕ) where
  -- The addresses of a block in a layer, and of a number in it.
  abbrev pub row : ℕ → ℕ → ℕ
  row l b = l * (num_blocks * numel) + b * numel

  abbrev pub cell : ℕ → ℕ → ℕ → ℕ
  cell l b o = row l b + o

  cell_flat : (l b o : ℕ) → cell l b o ≡ (l * num_blocks + b) * numel + o
  cell_flat l b o = omega (arith, mul_assoc l num_blocks numel)

  ordered : (a b : ℕ) → a < b → a * numel + numel ≤ b * numel
  ordered a b h = omega (arith, mul-le-mul_right numel (suc_le a b h))

  cell_eq :
      (l l' b b' o o' : ℕ)
      → b < num_blocks
      → b' < num_blocks
      → o < numel
      → o' < numel
      → cell l b o ≡ cell l' b' o'
      → (l ≡ l') × (b ≡ b') × (o ≡ o')
  cell_eq l l' b b' o o' hb hb' ho ho' e =
      let one =
        slots_apart numel (l * num_blocks + b) (l' * num_blocks + b') o o' ho ho'
          (sym (cell_flat l b o) ∙ e ∙ cell_flat l' b' o') in
      let two = slots_apart num_blocks l l' b b' hb hb' one.0 in (two.0, two.1, one.1)

  -- A cell stands in the range of a block exactly if it is a cell of the block.
  in_block :
      (l l' b b' o : ℕ)
      → b < num_blocks
      → b' < num_blocks
      → o < numel
      → (leb (row l' b') (cell l b o) && ltb (cell l b o) (row l' b' + numel))
        ≡ ((l == l') && (b == b'))
  in_block l l' b b' o hb hb' ho =
      elim (Bool-cases (leb (row l' b') (cell l b o) && ltb (cell l b o) (row l' b' + numel))) [
        | inl x ↦
            let o' = cell l b o - row l' b' in
            let same = cell_eq l l' b b' o o' hb hb' ho (ground (arith, x)) (ground (arith, x)) in
            x ∙ ground (arith, same.0, same.1)
        | inr x ↦ elim (Bool-cases ((l == l') && (b == b'))) [
          | inl y ↦
              let p : l ≡ l' = ground arith in
              let q : b ≡ b' = ground arith in
              let e : cell l b o ≡ cell l' b' o =
                ap (λ (t : ℕ). cell t b o) p ∙ ap (λ (t : ℕ). cell l' t o) q in
              ground (arith, x, e, ho)
          | inr y ↦ x ∙ sym y
        ]
      ]

  blocks_apart :
      (l src dst : ℕ)
      → src ≢ dst
      → (row l src + numel ≤ row l dst) ⊎ (row l dst + numel ≤ row l src)
  blocks_apart l src dst h = elim (Bool-cases (ltb src dst)) [
    | inl x ↦ inl (omega (arith, ordered src dst (ltb→lt src dst x)))
    | inr x ↦ inr (omega (arith, ordered dst src (other_lt src dst h x)))
  ]

  module _ {A : Type 0} (maps : ℕ → ℕ) (block_size : ℕ) (positive : 0 < block_size) where
    -- A program whose two blocks are in range and different copies one to the other in its layer, and
    -- leaves all other cells.
    pub copy_blocks_kernel-cell :
        (layer block : ℕ) (m : ℕ → A) (l b o : ℕ)
        → maps (block * 2) < num_blocks
        → maps (block * 2 + 1) < num_blocks
        → maps (block * 2) ≢ maps (block * 2 + 1)
        → b < num_blocks
        → o < numel
        → copy_blocks_kernel maps (num_blocks * numel) numel block_size layer block m (cell l b o)
          ≡ (if (l == layer) && (b == maps (block * 2 + 1))
              then m (cell l (maps (block * 2)) o)
              else m (cell l b o))
    unfolding copy_blocks_kernel
    copy_blocks_kernel-cell layer block m l b o hs hd apart hb ho =
        let src = maps (block * 2) in
        let dst = maps (block * 2 + 1) in
        let from = row layer src in
        let to = row layer dst in
        let copied =
          copy_rounds_whole numel from to (blocks_apart layer src dst apart) block_size
            ((numel + block_size - 1) / block_size) m (cell l b o)
            (enough_rounds numel block_size positive) in
        let inside = in_block l layer b dst o hb hd ho in
        copied ∙ elim (Bool-cases ((l == layer) && (b == dst))) [
          | inl x ↦
              let p : l ≡ layer = ground arith in
              let q : b ≡ dst = ground arith in
              let at : row l b ≡ to = ap (λ (t : ℕ). row t b) p ∙ ap (λ (t : ℕ). row layer t) q in
              let there : from + (cell l b o - to) ≡ cell l src o =
                omega (arith, at) ∙ ap (λ (t : ℕ). cell t src o) (sym p) in
              rw (inside, x) (ap m there)
          | inr x ↦ rw (inside, x) refl
        ]
