-- ===== src/Kernels/Grid.antt =====
-- What the programs of the grid copy, in any order.
use lmserve.Prelude.{
  ℕ, ◌*◌, ◌<◌, ◌≡◌, ◌≢◌, refl, ap, sym, subst, ◌∙◌, inl, inr, true, false, List, [], ◌∷◌, none,
  some, ◌==◌, if◌then◌else◌, arith, All, Bool-cases, Option-cases,
}
use lmserve.KvWorker.Store.{Entry}
use lmserve.KvWorker.Contents.{source_of, pick}
use lmserve.Kernels.{copy_blocks_kernel, run_programs}
use lmserve.Kernels.Pairs.{In, entry_of}
use lmserve.Kernels.Programs.{cell, copy_blocks_kernel-cell}

-- The pairs that the programs of a layer load, in the order of the programs.
unfoldable pub in_layer : (ℕ → ℕ) → ℕ → List (ℕ × ℕ) → List Entry
in_layer maps l [] = []
in_layer maps l ((layer, block) ∷ programs) =
    let rest = in_layer maps l programs in if l == layer then entry_of maps block ∷ rest else rest

source_of-In :
    (es : List Entry) (b a : ℕ)
    → source_of es b ≡ some a
    → (e : Entry) × In e es × (e.src_block_id ≡ a) × (e.dst_block_id ≡ b)
unfolding source_of
source_of-In [] b a h = cc
source_of-In (e ∷ es) b a h = elim (Option-cases (source_of es b)) [
  | inl x ↦ elim (Bool-cases (e.dst_block_id == b)) [
    | inl y ↦ (e, inl refl, ground (arith, h, x, y), ground (arith, y))
    | inr y ↦ absurd (ground (arith, h, x, y))
  ]
  | inr (a', x) ↦
      let (e', at, src, dst) = source_of-In es b a' x in
      (e', inr at, src ∙ ground (arith, h, x), dst)
]

source_of-none :
    (es : List Entry) (b : ℕ) (e : Entry) → source_of es b ≡ none → In e es → e.dst_block_id ≢ b
unfolding source_of
source_of-none [] b e h at = absurd at
source_of-none (x ∷ es) b e h at = elim (Option-cases (source_of es b)) [
  | inl later ↦ elim at [
    | inl same ↦ λ eq.
        let hit : x.dst_block_id ≡ b = ap (λ (t : Entry). t.dst_block_id) (sym same) ∙ eq in
        ground (arith, h, later, hit)
    | inr there ↦ source_of-none es b e later there
  ]
  | inr (a, later) ↦ absurd (ground (arith, h, later))
]

-- Two lists with the same pairs, of which none have one destination and two sources.
pub source_of_eq :
    (es fs : List Entry) (b : ℕ)
    → ((e : Entry) → In e es → In e fs)
    → ((e : Entry) → In e fs → In e es)
    → ((e e' : Entry)
        → In e fs
        → In e' fs
        → e.dst_block_id ≡ e'.dst_block_id
        → e.src_block_id ≡ e'.src_block_id)
    → source_of es b ≡ source_of fs b
source_of_eq es fs b forth back single = elim (Option-cases (source_of es b)) [
  | inl x ↦ elim (Option-cases (source_of fs b)) [
    | inl y ↦ x ∙ sym y
    | inr (a, y) ↦
        let (e, at, src, dst) = source_of-In fs b a y in
        absurd (source_of-none es b e x (back e at) dst)
  ]
  | inr (a, x) ↦
      let (e, at, src, dst) = source_of-In es b a x in
      elim (Option-cases (source_of fs b)) [
        | inl y ↦ absurd (source_of-none fs b e y (forth e at) dst)
        | inr (a', y) ↦
            let (e', at', src', dst') = source_of-In fs b a' y in
            x ∙ ap some (sym src ∙ single e e' (forth e at) at' (dst ∙ sym dst') ∙ src') ∙ sym y
      ]
]

pub in_layer_here :
    (maps : ℕ → ℕ) (l layer block : ℕ) (programs : List (ℕ × ℕ))
    → (l == layer) ≡ true
    → in_layer maps l ((layer, block) ∷ programs) ≡ entry_of maps block ∷ in_layer maps l programs
unfolding in_layer
in_layer_here maps l layer block programs h = rw (in_layer, h) refl

pub in_layer_other :
    (maps : ℕ → ℕ) (l layer block : ℕ) (programs : List (ℕ × ℕ))
    → (l == layer) ≡ false
    → in_layer maps l ((layer, block) ∷ programs) ≡ in_layer maps l programs
unfolding in_layer
in_layer_other maps l layer block programs h = rw (in_layer, h) refl

source_of_later :
    (e : Entry) (es : List Entry) (b a : ℕ)
    → source_of es b ≡ some a
    → source_of (e ∷ es) b ≡ some a
unfolding source_of
source_of_later e es b a h = rw (source_of, h) refl

source_of_last :
    (e : Entry) (es : List Entry) (b : ℕ)
    → source_of es b ≡ none
    → source_of (e ∷ es) b ≡ (if e.dst_block_id == b then some e.src_block_id else none)
unfolding source_of
source_of_last e es b h = rw (source_of, h) refl

pub in_layer-In :
    (maps : ℕ → ℕ) (es : List Entry) (l : ℕ) (programs : List (ℕ × ℕ)) (e : Entry)
    → All (λ p. In (entry_of maps p.1) es) programs
    → In e (in_layer maps l programs)
    → In e es
unfolding in_layer
in_layer-In maps es l [] e loads at = absurd at
in_layer-In maps es l ((layer, block) ∷ programs) e loads at = elim (Bool-cases (l == layer)) [
  | inl x ↦ elim (subst (In e) (in_layer_here maps l layer block programs x) at) [
    | inl here ↦ subst (λ (t : Entry). In t es) (sym here) loads.0
    | inr there ↦ in_layer-In maps es l programs e loads.1 there
  ]
  | inr x ↦
      in_layer-In maps es l programs e loads.1
        (subst (In e) (in_layer_other maps l layer block programs x) at)
]

-- The pairs are in range, and no block is both read and written.
pub record IsSafe (num_blocks : ℕ) (es : List Entry) : Type 0 where
  pub range : (e : Entry) → In e es → (e.src_block_id < num_blocks) × (e.dst_block_id < num_blocks)
  pub apart : (e e' : Entry) → In e es → In e' es → e.src_block_id ≢ e'.dst_block_id

module _ {A : Type 0} (num_blocks numel block_size : ℕ) (positive : 0 < block_size) (maps : ℕ → ℕ)
    (es : List Entry) (safe : IsSafe num_blocks es) (l b o : ℕ) (hb : b < num_blocks)
    (ho : o < numel) where
  abbrev at_cell : (ℕ → A) → ℕ → A
  at_cell m block = m (cell num_blocks numel l block o)

  pub run_programs_lem :
      (programs : List (ℕ × ℕ)) (m : ℕ → A)
      → All (λ p. In (entry_of maps p.1) es) programs
      → run_programs maps
          (num_blocks * numel)
          numel
          block_size
          programs
          m
          (cell num_blocks numel l b o)
        ≡ pick (source_of (in_layer maps l programs) b) (at_cell m b) (at_cell m)
  unfolding run_programs in_layer source_of
  run_programs_lem [] m loads = refl
  run_programs_lem ((layer, block) ∷ programs) m loads =
      let e = entry_of maps block in
      let m' = copy_blocks_kernel maps (num_blocks * numel) numel block_size layer block m in
      let own = safe.range e loads.0 in
      let step = λ (b' : ℕ) (h : b' < num_blocks).
        copy_blocks_kernel-cell num_blocks numel maps block_size positive layer block m l b' o own.0
          own.1 (safe.apart e e loads.0 loads.0) h ho in
      run_programs_lem programs m' loads.1
      ∙ elim (Option-cases (source_of (in_layer maps l programs) b)) [
        | inl x ↦ elim (Bool-cases (l == layer)) [
          | inl y ↦
              rw
                (
                  x,
                  in_layer_here maps l layer block programs y,
                  source_of_last e (in_layer maps l programs) b x,
                )
                (step b hb ∙ ground (arith, y))
          | inr y ↦ rw (x, in_layer_other maps l layer block programs y, x) (step b hb ∙ rw y refl)
        ]
        | inr (a, x) ↦
            let (e', at, src, dst) = source_of-In (in_layer maps l programs) b a x in
            let known = in_layer-In maps es l programs e' loads.1 at in
            let small : a < num_blocks =
              subst (λ (t : ℕ). t < num_blocks) src (safe.range e' known).0 in
            let other : a ≢ e.dst_block_id = λ eq. safe.apart e' e known loads.0 (src ∙ eq) in
            let kept : at_cell m' a ≡ at_cell m a = step a small ∙ ground (arith, other) in
            elim (Bool-cases (l == layer)) [
              | inl y ↦
                  rw
                    (
                      x,
                      in_layer_here maps l layer block programs y,
                      source_of_later e (in_layer maps l programs) b a x,
                    )
                    kept
              | inr y ↦ rw (x, in_layer_other maps l layer block programs y, x) kept
            ]
      ]
