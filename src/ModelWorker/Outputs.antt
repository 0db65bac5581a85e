-- ===== src/ModelWorker/Outputs.antt =====
-- What one call of `execute` returns and keeps.
use lmserve.Prelude.{
  ℕ, zero, suc, ◌+◌, ◌<◌, ◌≡◌, ◌≢◌, refl, sym, ap, ap₂, ◌∙◌, inl, inr, false, List, [], ◌∷◌, map,
  Option, some, ◌==◌, if◌then◌else◌, All, length, get_elem?, ok, arith, Bool-cases, Option-cases,
  leb,
}
use lmserve.Batch.Inputs.{InferInput, insert_input, sort_inputs}
use lmserve.Batch.Order.{insert_input-All, sort_inputs-All}
use lmserve.ModelWorker.Execute.{
  InferOutput, find, put, is_in, next_words, output_at, assign_outputs,
}

find-put :
    {V : Type 0} (k key : ℕ) (v : V) (d : List (ℕ × V))
    → find k (put key v d) ≡ (if key == k then some v else find k d)
unfolding find put
find-put k key v [] = refl
find-put k key v ((k', u) ∷ d) = elim (Bool-cases (k' == key)) [
  | inl x ↦
      let same : k' ≡ key = ground arith in
      rw (x, same) (elim (Bool-cases (key == k)) [ inl y ↦ rw y refl | inr y ↦ rw y refl ])
  | inr x ↦ elim (Bool-cases (k' == k)) [
    | inl y ↦ let apart : (key == k) ≡ false = ground arith in rw (x, y, apart) refl
    | inr y ↦ rw (x, y) (find-put k key v d)
  ]
]

-- No two inputs of one sequence.
abbrev pub Absent : ℕ → List InferInput → Type 0
Absent key = All (λ d. d.seq_id ≢ key)

abbrev pub DistinctSeqs : List InferInput → Type 0
DistinctSeqs [] = Unit
DistinctSeqs (d ∷ ds) = Absent d.seq_id ds × DistinctSeqs ds

insert_input-DistinctSeqs :
    (x : InferInput) (ds : List InferInput)
    → Absent x.seq_id ds
    → DistinctSeqs ds
    → DistinctSeqs (insert_input x ds)
unfolding insert_input
insert_input-DistinctSeqs x [] a h = (tt, tt)
insert_input-DistinctSeqs x (d ∷ ds) a h = elim (Bool-cases (leb d.input_len x.input_len)) [
  | inl e ↦ rw e (a, h)
  | inr e ↦ rw e (
    insert_input-All (λ y. y.seq_id ≢ d.seq_id) x ds (λ p. a.0 (sym p)) h.0,
    insert_input-DistinctSeqs x ds a.1 h.1,
  )
]

pub sort_inputs-DistinctSeqs :
    (ds : List InferInput) → DistinctSeqs ds → DistinctSeqs (sort_inputs ds)
unfolding sort_inputs
sort_inputs-DistinctSeqs [] h = tt
sort_inputs-DistinctSeqs (d ∷ ds) h =
    insert_input-DistinctSeqs d (sort_inputs ds) (sort_inputs-All (λ e. e.seq_id ≢ d.seq_id) ds h.0)
      (sort_inputs-DistinctSeqs ds h.1)

module _ {Prob Word : Type 0} (at : ℕ → Option (InferOutput Prob Word)) where
  found_cons :
      (d : InferInput) (ds : List InferInput) (i : ℕ) (out : List (ℕ × InferOutput Prob Word))
      → find d.seq_id out ≡ at i
      → ((j : ℕ) (e : InferInput) → get_elem? ds j ≡ some e → find e.seq_id out ≡ at (suc i + j))
      → (j : ℕ) (e : InferInput) → get_elem? (d ∷ ds) j ≡ some e
      → find e.seq_id out ≡ at (i + j)
  found_cons d ds i out first rest zero e p =
      let same : d ≡ e = cc in rw (← same) (first ∙ ap at (omega arith))
  found_cons d ds i out first rest (suc j) e p = rest j e p ∙ ap at (omega arith)

  pub assign_outputs_lem :
      (ds : List InferInput) (i : ℕ) (outputs : List (ℕ × InferOutput Prob Word))
      → DistinctSeqs ds
      → ((j : ℕ) → j < length ds → (o : InferOutput Prob Word) × (at (i + j) ≡ some o))
      → (out : List (ℕ × InferOutput Prob Word)) × (assign_outputs at ds i outputs ≡ ok out)
        × ((key : ℕ) → Absent key ds → find key out ≡ find key outputs)
        × ((j : ℕ) (d : InferInput) → get_elem? ds j ≡ some d → find d.seq_id out ≡ at (i + j))
  unfolding assign_outputs
  assign_outputs_lem [] i outputs h each = (outputs, refl, λ key a. refl, λ j d e. cc)
  assign_outputs_lem (d ∷ ds) i outputs h each =
      let (o, first) = each 0 (omega arith) in
      let here : at i ≡ some o = ap at (omega arith) ∙ first in
      let rest = assign_outputs_lem ds (suc i) (put d.seq_id o outputs) h.1 (λ j hj.
        ((each (suc j) (omega arith)).0, ap at (omega arith) ∙ (each (suc j) (omega arith)).1)) in
      let out = rest.0 in
      let mine : find d.seq_id out ≡ at i =
        rest.2 d.seq_id h.0 ∙ find-put d.seq_id d.seq_id o outputs ∙ ground (arith, here) in
      (
        out,
        rw (assign_outputs, here) (rest.1),
        (λ key a. rest.2 key a.1 ∙ find-put key d.seq_id o outputs ∙ ground (arith, a.0)),
        found_cons d ds i out mine rest.3,
      )

module _ {Word : Type 0} (decode : ℕ → Word) where
  -- The vocabulary cache holds what the tokenizer says.
  abbrev pub IsDecoded : List (ℕ × Word) → Type 0
  IsDecoded cache = (id : ℕ) (w : Word) → find id cache ≡ some w → w ≡ decode id

  put-IsDecoded :
      (id : ℕ) (cache : List (ℕ × Word)) → IsDecoded cache → IsDecoded (put id (decode id) cache)
  put-IsDecoded id cache h k w e =
      let read = sym (find-put k id (decode id) cache) ∙ e in
      elim (Bool-cases (id == k)) [
        | inl x ↦
            let same : id ≡ k = ground arith in
            let got : w ≡ decode id = ground (arith, read, x) in got ∙ ap decode same
        | inr x ↦ h k w (ground (arith, read, x))
      ]

  pub next_words_lem :
      (ids : List ℕ) (cache : List (ℕ × Word))
      → IsDecoded cache
      → ((next_words decode ids cache).0 ≡ map decode ids)
        × IsDecoded (next_words decode ids cache).1
  unfolding next_words
  next_words_lem [] cache h = (refl, h)
  next_words_lem (id ∷ ids) cache h = elim (Option-cases (find id cache)) [
    | inl x ↦
        let rest = next_words_lem ids (put id (decode id) cache) (put-IsDecoded id cache h) in
        (rw (next_words, x) (ap (◌∷◌ (decode id)) rest.0), rw (next_words, x) (rest.1))
    | inr (w, x) ↦
        let rest = next_words_lem ids cache h in
        (rw (next_words, x) (ap₂ ◌∷◌ (h id w x) rest.0), rw (next_words, x) (rest.1))
  ]

module _ {Prob Word : Type 0} (decode : ℕ → Word) (eos : List ℕ) where
  -- The output for a token.
  abbrev pub output_of : ℕ → Prob → InferOutput Prob Word
  output_of id p = record {
    output_id = id;
    prob = p;
    output_word = decode id;
    is_eos = is_in id eos;
  }

  pub output_at_lem :
      (ids : List ℕ) (probs : List Prob) (i : ℕ)
      → length probs ≡ length ids
      → i < length ids
      → (id : ℕ) × (p : Prob) × (get_elem? ids i ≡ some id)
        × (get_elem? probs i ≡ some p)
        × (output_at ids probs (map decode ids) (map (λ t. is_in t eos) ids) i
            ≡ some (output_of id p))
  unfolding output_at
  output_at_lem [] probs i h hi = absurd (omega arith)
  output_at_lem (id ∷ ids) [] i h hi = absurd (omega arith)
  output_at_lem (id ∷ ids) (p ∷ probs) zero h hi = (id, p, refl, refl, refl)
  output_at_lem (id ∷ ids) (p ∷ probs) (suc i) h hi =
      output_at_lem ids probs i (omega arith) (omega arith)
