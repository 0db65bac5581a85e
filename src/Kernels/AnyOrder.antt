-- ===== src/Kernels/AnyOrder.antt =====
-- The copy of blocks on the GPU does not depend on the order in which the programs of its grid run.
use lmserve.Prelude.{
  ℕ, ◌*◌, ◌<◌, ◌≡◌, ap, ◌∙◌, subst, inl, inr, List, [], ◌∷◌, ◌==◌, arith, All, Bool-cases,
}
use lmserve.KvWorker.Store.{Entry}
use lmserve.KvWorker.Contents.{source_of, pick}
use lmserve.Kernels.{num_copy_blocks, run_programs}
use lmserve.Kernels.Pairs.{In, copies, entry_of, maps_of, loads_pair, has_program}
use lmserve.Kernels.Programs.{cell}
use lmserve.Kernels.Grid.{
  in_layer, in_layer_here, in_layer_other, in_layer-In, source_of_eq, IsSafe, run_programs_lem,
}

program-In :
    (maps : ℕ → ℕ) (l i : ℕ) (programs : List (ℕ × ℕ))
    → In (l, i) programs
    → In (entry_of maps i) (in_layer maps l programs)
program-In maps l i [] at = absurd at
program-In maps l i ((layer, block) ∷ programs) at = elim (Bool-cases (l == layer)) [
  | inl x ↦ rw (in_layer_here maps l layer block programs x) (elim at [
    | inl same ↦ inl (ap (λ (p : ℕ × ℕ). entry_of maps p.1) same)
    | inr later ↦ inr (program-In maps l i programs later)
  ])
  | inr x ↦ rw (in_layer_other maps l layer block programs x) (elim at [
    | inl same ↦ let eq : l ≡ layer = ap (λ (p : ℕ × ℕ). p.0) same in absurd (ground (arith, x, eq))
    | inr later ↦ program-In maps l i programs later
  ])
]

module _ (items : List (ℕ × List ℕ)) (beyond : ℕ → ℕ) where
  loads_pairs :
      (programs : List (ℕ × ℕ))
      → All (λ p. p.1 < num_copy_blocks items) programs
      → All (λ p. In (entry_of (maps_of items beyond) p.1) (copies items)) programs
  loads_pairs [] h = tt
  loads_pairs (p ∷ programs) h = (loads_pair items beyond p.1 h.0, loads_pairs programs h.1)

  -- If the blocks of a copy are in range, none of them is both a source and a destination and no
  -- destination has two sources, then in every order of the programs of the grid, with those of a
  -- layer among them, each number of a block in that layer ends as that of the block's source, or is
  -- kept if the block is no destination.
  pub run_programs-any_order :
      {A : Type 0} (num_blocks numel block_size : ℕ) (m : ℕ → A) (programs : List (ℕ × ℕ))
      (l b o : ℕ)
      → 0 < block_size
      → IsSafe num_blocks (copies items)
      → ((e e' : Entry)
          → In e (copies items)
          → In e' (copies items)
          → e.dst_block_id ≡ e'.dst_block_id
          → e.src_block_id ≡ e'.src_block_id)
      → All (λ p. p.1 < num_copy_blocks items) programs
      → ((i : ℕ) → i < num_copy_blocks items → In (l, i) programs)
      → b < num_blocks
      → o < numel
      → run_programs
          (maps_of items beyond)
          (num_blocks * numel)
          numel
          block_size
          programs
          m
          (cell num_blocks numel l b o)
        ≡ pick
            (source_of (copies items) b)
            (m (cell num_blocks numel l b o))
            (λ a. m (cell num_blocks numel l a o))
  run_programs-any_order num_blocks numel block_size m programs l b o positive safe single valid
        complete hb ho =
      let maps = maps_of items beyond in
      let loads = loads_pairs programs valid in
      run_programs_lem num_blocks numel block_size positive maps (copies items) safe l b o hb ho
        programs m loads
      ∙ ap (λ s. pick s (m (cell num_blocks numel l b o)) (λ a. m (cell num_blocks numel l a o)))
          (source_of_eq (in_layer maps l programs) (copies items) b
            (λ e at. in_layer-In maps (copies items) l programs e loads at)
            (λ e at.
              let (i, small, same) = has_program items beyond e at in
              subst (λ (t : Entry). In t (in_layer maps l programs)) same
                (program-In maps l i programs (complete i small)))
            single)
