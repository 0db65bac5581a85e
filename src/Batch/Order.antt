-- ===== src/Batch/Order.antt =====
-- The sort of `_make_inputs`: a stable permutation that puts the prefills first, then the decodes,
-- then the inputs of length 0.
use mathlib.Core.List.Perm
use mathlib.Core.List.{Perm}
use lmserve.Prelude.{
  ℕ, suc, length, ◌≤◌, ◌<◌, ◌≡◌, refl, inl, inr, List, [], ◌∷◌, ◌++◌, arith, ltb, leb, ◌==◌,
  if◌then◌else◌, Bool-cases, leb→le, leb→lt, ltb→le, All,
}
use lmserve.Batch.Inputs.{InferInput, insert_input, sort_inputs}

-- The inputs of each phase, in order.
unfoldable pub prefills : List InferInput → List InferInput
prefills [] = []
prefills (d ∷ ds) = let rest = prefills ds in if ltb 1 d.input_len then d ∷ rest else rest

unfoldable pub decodes : List InferInput → List InferInput
decodes [] = []
decodes (d ∷ ds) = let rest = decodes ds in if d.input_len == 1 then d ∷ rest else rest

unfoldable pub idles : List InferInput → List InferInput
idles [] = []
idles (d ∷ ds) = let rest = idles ds in if d.input_len == 0 then d ∷ rest else rest

abbrev pub IsDescending : List InferInput → Type 0
IsDescending [] = Unit
IsDescending (d ∷ ds) = All (λ e. e.input_len ≤ d.input_len) ds × IsDescending ds

module _ (P : InferInput → Type 0) where
  pub insert_input-All :
      (x : InferInput) (ds : List InferInput) → P x → All P ds → All P (insert_input x ds)
  unfolding insert_input
  insert_input-All x [] px pds = (px, tt)
  insert_input-All x (d ∷ ds) px pds = elim (Bool-cases (leb d.input_len x.input_len)) [
    | inl e ↦ rw e (px, pds)
    | inr e ↦ rw e (pds.0, insert_input-All x ds px pds.1)
  ]

  pub sort_inputs-All : (ds : List InferInput) → All P ds → All P (sort_inputs ds)
  unfolding sort_inputs
  sort_inputs-All [] h = tt
  sort_inputs-All (d ∷ ds) h = insert_input-All d (sort_inputs ds) h.0 (sort_inputs-All ds h.1)

length-insert_input :
    (x : InferInput) (ds : List InferInput) → length (insert_input x ds) ≡ suc (length ds)
unfolding insert_input
length-insert_input x [] = refl
length-insert_input x (d ∷ ds) = ground (arith, length-insert_input x ds)

pub length-sort_inputs : (ds : List InferInput) → length (sort_inputs ds) ≡ length ds
unfolding sort_inputs
length-sort_inputs [] = refl
length-sort_inputs (d ∷ ds) =
    omega (arith, length-insert_input d (sort_inputs ds), length-sort_inputs ds)

All-le_trans :
    {m n : ℕ} (ds : List InferInput)
    → m ≤ n
    → All (λ e. e.input_len ≤ m) ds
    → All (λ e. e.input_len ≤ n) ds
All-le_trans [] h a = tt
All-le_trans (d ∷ ds) h a = (omega arith, All-le_trans ds h a.1)

insert_input-IsDescending :
    (x : InferInput) (ds : List InferInput) → IsDescending ds → IsDescending (insert_input x ds)
unfolding insert_input
insert_input-IsDescending x [] h = (tt, tt)
insert_input-IsDescending x (d ∷ ds) h = elim (Bool-cases (leb d.input_len x.input_len)) [
  | inl e ↦
      let le : d.input_len ≤ x.input_len = leb→le _ _ e in rw e ((le, All-le_trans ds le h.0), h)
  | inr e ↦
      let lt : x.input_len < d.input_len = leb→lt _ _ e in
      rw e (
        insert_input-All (λ e. e.input_len ≤ d.input_len) x ds (omega arith) h.0,
        insert_input-IsDescending x ds h.1,
      )
]

pub sort_inputs-IsDescending : (ds : List InferInput) → IsDescending (sort_inputs ds)
unfolding sort_inputs
sort_inputs-IsDescending [] = tt
sort_inputs-IsDescending (d ∷ ds) =
    insert_input-IsDescending d (sort_inputs ds) (sort_inputs-IsDescending ds)

insert_input-perm : (x : InferInput) (ds : List InferInput) → Perm (insert_input x ds) (x ∷ ds)
unfolding insert_input
insert_input-perm x [] = Perm.refl _
insert_input-perm x (d ∷ ds) = elim (Bool-cases (leb d.input_len x.input_len)) [
  | inl e ↦ rw e (Perm.refl _)
  | inr e ↦ rw e (Perm.trans (Perm.cons d (insert_input-perm x ds)) (Perm.swap x d ds))
]

pub sort_inputs-perm : (ds : List InferInput) → Perm (sort_inputs ds) ds
unfolding sort_inputs
sort_inputs-perm [] = Perm.refl []
sort_inputs-perm (d ∷ ds) =
    Perm.trans (insert_input-perm d (sort_inputs ds)) (Perm.cons d (sort_inputs-perm ds))

-- The inputs with one key.
unfoldable pub of_len : ℕ → List InferInput → List InferInput
of_len n [] = []
of_len n (d ∷ ds) = let rest = of_len n ds in if d.input_len == n then d ∷ rest else rest

of_len-insert_input :
    (n : ℕ) (x : InferInput) (ds : List InferInput)
    → of_len n (insert_input x ds) ≡ of_len n (x ∷ ds)
unfolding insert_input of_len
of_len-insert_input n x [] = refl
of_len-insert_input n x (d ∷ ds) = ground (arith, of_len-insert_input n x ds)

pub of_len-sort_inputs : (n : ℕ) (ds : List InferInput) → of_len n (sort_inputs ds) ≡ of_len n ds
unfolding sort_inputs of_len
of_len-sort_inputs n [] = refl
of_len-sort_inputs n (d ∷ ds) =
    ground (arith, of_len-insert_input n d (sort_inputs ds), of_len-sort_inputs n ds)

-- No input of a higher phase behind one of a lower phase.
prefills_none : (ds : List InferInput) → All (λ e. e.input_len ≤ 1) ds → prefills ds ≡ []
unfolding prefills
prefills_none [] h = refl
prefills_none (d ∷ ds) h = ground (arith, prefills_none ds)

decodes_none : (ds : List InferInput) → All (λ e. e.input_len ≤ 0) ds → decodes ds ≡ []
unfolding decodes
decodes_none [] h = refl
decodes_none (d ∷ ds) h = ground (arith, decodes_none ds)

-- A descending list is its prefills, its decodes and its idle inputs, in this order.
pub phases_of_IsDescending :
    (ds : List InferInput) → IsDescending ds → ds ≡ prefills ds ++ (decodes ds ++ idles ds)
unfolding prefills decodes idles
phases_of_IsDescending [] h = refl
phases_of_IsDescending (d ∷ ds) h = elim (Bool-cases (ltb 1 d.input_len)) [
  | inl long ↦ ground (arith, phases_of_IsDescending ds h.1)
  | inr short ↦
      let le : d.input_len ≤ 1 = ltb→le 1 d.input_len short in
      elim (Bool-cases (d.input_len == 1)) [
        | inl one ↦
            ground (arith, phases_of_IsDescending ds h.1, prefills_none ds (All-le_trans ds le h.0))
        | inr zero ↦ ground (
          arith,
          phases_of_IsDescending ds h.1,
          prefills_none ds (All-le_trans ds le h.0),
          decodes_none ds (All-le_trans ds (ground arith) h.0),
        )
      ]
]
