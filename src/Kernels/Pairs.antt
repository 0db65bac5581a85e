-- ===== src/Kernels/Pairs.antt =====
-- The pairs of blocks that the programs load: those of `src_to_dst`.
use lmserve.Prelude.{
  ℕ, zero, suc, ◌+◌, ◌*◌, ◌/◌, ◌<◌, ◌≡◌, refl, ap, ap₂, sym, ◌∙◌, ◌⊎◌, inl, inr, List, [], ◌∷◌,
  ◌++◌, Option, none, some, arith, length, get_elem?, get_elem?-total, get_elem?-lt,
}
use native.Mathlib.Nat.{mul-div_cancel}
use lmserve.KvWorker.Store.{Entry}
use lmserve.Kernels.{tensor, add_dsts, block_maps, num_copy_blocks}

abbrev pub In : {A : Type 0} → A → List A → Type 0
In a [] = ⊥
In a (x ∷ xs) = (a ≡ x) ⊎ In a xs

some_inj : {A : Type 0} {a b : A} → some a ≡ some b → a ≡ b
some_inj h = cc

get_elem?-In : {A : Type 0} (xs : List A) (i : ℕ) (a : A) → get_elem? xs i ≡ some a → In a xs
get_elem?-In [] i a h = cc
get_elem?-In (x ∷ xs) zero a h = inl (sym (some_inj h))
get_elem?-In (x ∷ xs) (suc i) a h = inr (get_elem?-In xs i a h)

In-get_elem? : {A : Type 0} (xs : List A) (a : A) → In a xs → (i : ℕ) × (get_elem? xs i ≡ some a)
In-get_elem? [] a h = absurd h
In-get_elem? (x ∷ xs) a (inl h) = (0, ap some (sym h))
In-get_elem? (x ∷ xs) a (inr h) = let (i, e) = In-get_elem? xs a h in (suc i, e)

-- The pairs of a source and a destination that `src_to_dst` has.
unfoldable pub entries_to : ℕ → List ℕ → List Entry
entries_to src [] = []
entries_to src (dst ∷ dsts) =
    record { src_block_id = src; dst_block_id = dst } ∷ entries_to src dsts

unfoldable pub copies : List (ℕ × List ℕ) → List Entry
unfolding entries_to
copies [] = []
copies ((src, dsts) ∷ items) = entries_to src dsts ++ copies items

abbrev flat : List Entry → List ℕ
flat [] = []
flat (e ∷ es) = e.src_block_id ∷ e.dst_block_id ∷ flat es

flat-append : (xs ys : List Entry) → flat (xs ++ ys) ≡ flat xs ++ flat ys
flat-append [] ys = refl
flat-append (x ∷ xs) ys =
    ap (λ (t : List ℕ). x.src_block_id ∷ x.dst_block_id ∷ t) (flat-append xs ys)

add_dsts-flat : (src : ℕ) (dsts : List ℕ) → add_dsts src dsts ≡ flat (entries_to src dsts)
unfolding add_dsts entries_to
add_dsts-flat src [] = refl
add_dsts-flat src (d ∷ ds) = ap (λ (t : List ℕ). src ∷ d ∷ t) (add_dsts-flat src ds)

block_maps-flat : (items : List (ℕ × List ℕ)) → block_maps items ≡ flat (copies items)
unfolding block_maps copies
block_maps-flat [] = refl
block_maps-flat ((src, dsts) ∷ items) =
    ap₂ ◌++◌ (add_dsts-flat src dsts) (block_maps-flat items)
    ∙ sym (flat-append (entries_to src dsts) (copies items))

length-flat : (es : List Entry) → length (flat es) ≡ length es * 2
length-flat [] = omega arith
length-flat (e ∷ es) = omega (arith, length-flat es)

num_copy_blocks-copies : (items : List (ℕ × List ℕ)) → num_copy_blocks items ≡ length (copies items)
unfolding num_copy_blocks
num_copy_blocks-copies items =
    ap (λ (t : List ℕ). length t / 2) (block_maps-flat items)
    ∙ ap (λ (t : ℕ). t / 2) (length-flat (copies items))
    ∙ mul-div_cancel (length (copies items)) (omega arith)

-- The pair that a program loads.
abbrev pub entry_of : (ℕ → ℕ) → ℕ → Entry
entry_of maps i = record { src_block_id = maps (i * 2); dst_block_id = maps (i * 2 + 1) }

get_elem?-flat :
    (es : List Entry) (i : ℕ) (e : Entry)
    → get_elem? es i ≡ some e
    → (get_elem? (flat es) (i * 2) ≡ some e.src_block_id)
      × (get_elem? (flat es) (i * 2 + 1) ≡ some e.dst_block_id)
get_elem?-flat [] i e h = cc
get_elem?-flat (x ∷ es) zero e h =
    let same : x ≡ e = some_inj h in
    (ap (λ (t : Entry). some t.src_block_id) same, ap (λ (t : Entry). some t.dst_block_id) same)
get_elem?-flat (x ∷ es) (suc i) e h =
    let even : suc i * 2 ≡ suc (suc (i * 2)) = omega arith in
    let odd : suc i * 2 + 1 ≡ suc (suc (i * 2 + 1)) = omega arith in
    let rest = get_elem?-flat es i e h in (rw even rest.0, rw odd rest.1)

abbrev entry : ℕ → ℕ → Entry
entry s d = record { src_block_id = s; dst_block_id = d }

tensor_at : (l : List ℕ) (beyond : ℕ → ℕ) (i x : ℕ) → get_elem? l i ≡ some x → tensor l beyond i ≡ x
tensor_at l beyond i x h = ap (λ (o : Option ℕ). elim o [ none ↦ beyond i | some y ↦ y ]) h

module _ (items : List (ℕ × List ℕ)) (beyond : ℕ → ℕ) where
  abbrev pub maps_of : ℕ → ℕ
  maps_of = tensor (block_maps items) beyond

  entry_of-copies :
      (i : ℕ) (e : Entry) → get_elem? (copies items) i ≡ some e → entry_of maps_of i ≡ e
  entry_of-copies i e h =
      let at = get_elem?-flat (copies items) i e h in
      let maps = block_maps items in
      let same = ap (λ (l : List ℕ). get_elem? l (i * 2)) (block_maps-flat items) ∙ at.0 in
      let same' = ap (λ (l : List ℕ). get_elem? l (i * 2 + 1)) (block_maps-flat items) ∙ at.1 in
      ap₂ entry (tensor_at maps beyond (i * 2) e.src_block_id same)
        (tensor_at maps beyond (i * 2 + 1) e.dst_block_id same')

  -- Each program below the number of copies loads a pair, and each pair has a program.
  pub loads_pair : (i : ℕ) → i < num_copy_blocks items → In (entry_of maps_of i) (copies items)
  loads_pair i h =
      let (e, at) = get_elem?-total (copies items) i (rw (← num_copy_blocks-copies items) h) in
      rw (entry_of-copies i e at) (get_elem?-In (copies items) i e at)

  pub has_program :
      (e : Entry)
      → In e (copies items)
      → (i : ℕ) × (i < num_copy_blocks items) × (entry_of maps_of i ≡ e)
  has_program e h =
      let (i, at) = In-get_elem? (copies items) e h in
      (
        i,
        rw (num_copy_blocks-copies items) (get_elem?-lt (copies items) i e at),
        entry_of-copies i e at,
      )
