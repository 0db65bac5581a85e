-- ===== src/Batch/Layout.antt =====
-- Where the tokens of the sorted inputs stand in the flat batch: `Attention.forward` cuts its rows
-- at `prefill_input_len`.
use mathlib.Core.List.{Perm}
use lmserve.Prelude.{
  ◌+◌, nil_of_length, ◌≡◌, refl, ap, sym, ◌∙◌, inl, inr, Bool, List, [], ◌∷◌, ◌++◌, append-nil,
  append_assoc, arith, ltb, ◌==◌, All, length, length-append, take, drop, take-append, drop-append,
  sum, ok, Bool-cases,
}
use lmserve.Batch.Inputs.{InferInput, sort_inputs}
use lmserve.Batch.Order.{
  prefills, decodes, idles, sort_inputs-All, length-sort_inputs, sort_inputs-IsDescending,
  sort_inputs-perm, phases_of_IsDescending,
}
use lmserve.Batch.Pages.{input_lens, cumsum}
use lmserve.Batch.Make.{FlashInfer, BatchConfig, MadeInputs, make_inputs}
use lmserve.Batch.Collect.{IsWellFormed, token_ids, spans, collect_closed}

pub length-token_ids :
    (ds : List InferInput) → All IsWellFormed ds → length (token_ids ds) ≡ sum (input_lens ds)
unfolding token_ids input_lens
length-token_ids [] h = refl
length-token_ids (d ∷ ds) h =
    omega (arith, length-append d.input_ids (token_ids ds), length-token_ids ds h.1, h.0.ids)

token_ids-append : (xs ys : List InferInput) → token_ids (xs ++ ys) ≡ token_ids xs ++ token_ids ys
unfolding token_ids
token_ids-append [] ys = refl
token_ids-append (x ∷ xs) ys = simp (token_ids-append xs ys, append_assoc)

prefills-All : (P : InferInput → Type 0) (ds : List InferInput) → All P ds → All P (prefills ds)
unfolding prefills
prefills-All P [] h = tt
prefills-All P (d ∷ ds) h = elim (Bool-cases (ltb 1 d.input_len)) [
  | inl e ↦ rw e (h.0, prefills-All P ds h.1)
  | inr e ↦ rw e (prefills-All P ds h.1)
]

token_ids-idles : (ds : List InferInput) → All IsWellFormed ds → token_ids (idles ds) ≡ []
unfolding token_ids idles
token_ids-idles [] h = refl
token_ids-idles (d ∷ ds) h = elim (Bool-cases (d.input_len == 0)) [
  | inl e ↦
      let none_here : d.input_ids ≡ [] = nil_of_length d.input_ids (ground (arith, h.0.ids)) in
      ground (arith, token_ids-idles ds h.1)
  | inr e ↦ rw e (token_ids-idles ds h.1)
]

-- The two slices of a flat batch of sorted inputs.
phases-token_ids :
    (ds : List InferInput)
    → ds ≡ prefills ds ++ (decodes ds ++ idles ds)
    → All IsWellFormed ds
    → token_ids ds ≡ token_ids (prefills ds) ++ token_ids (decodes ds)
phases-token_ids ds e h = ap token_ids e ∙ simp (token_ids-append, token_ids-idles ds h, append-nil)

module _ (fi : FlashInfer) (w : BatchConfig) (inputs : List InferInput) (use_cache : Bool)
    {m : MadeInputs} (run : make_inputs fi w inputs use_cache ≡ ok m) where
  pub sorted-make_inputs : m.inputs ≡ sort_inputs inputs
  unfolding make_inputs
  sorted-make_inputs = ground arith

  pub length-make_inputs : length m.inputs ≡ length inputs
  length-make_inputs = rw sorted-make_inputs (length-sort_inputs inputs)

  pub inputs-All : (P : InferInput → Type 0) → All P inputs → All P m.inputs
  inputs-All P h = rw sorted-make_inputs (sort_inputs-All P inputs h)

  pub flat-make_inputs : m.input_ids ≡ token_ids m.inputs
  unfolding make_inputs
  flat-make_inputs = ground (arith, (collect_closed (sort_inputs inputs)).0)

  pub position_ids-make_inputs : m.params.position_ids ≡ spans m.inputs
  unfolding make_inputs
  position_ids-make_inputs = ground (arith, (collect_closed (sort_inputs inputs)).1)

  pub cu_seqlens_q-make_inputs : m.params.cu_seqlens_q ≡ cumsum (input_lens m.inputs)
  unfolding make_inputs
  cu_seqlens_q-make_inputs = ground (arith, (collect_closed (sort_inputs inputs)).2)

  pub prefill_len-make_inputs : m.params.prefill_input_len ≡ sum (input_lens (prefills m.inputs))
  unfolding make_inputs
  prefill_len-make_inputs = ground (arith, (collect_closed (sort_inputs inputs)).3)

  module _ (wf : All IsWellFormed inputs) where
    inputs-IsWellFormed : All IsWellFormed m.inputs
    inputs-IsWellFormed = inputs-All IsWellFormed wf

    pub prefill_count : m.params.prefill_input_len ≡ length (token_ids (prefills m.inputs))
    prefill_count =
        prefill_len-make_inputs
        ∙ sym (length-token_ids _ (prefills-All IsWellFormed m.inputs inputs-IsWellFormed))

    flat_phases : m.input_ids ≡ token_ids (prefills m.inputs) ++ token_ids (decodes m.inputs)
    flat_phases =
        flat-make_inputs
        ∙ phases-token_ids m.inputs
            (rw sorted-make_inputs (phases_of_IsDescending _ (sort_inputs-IsDescending inputs)))
            inputs-IsWellFormed

    pub length-input_ids :
        length m.input_ids ≡ m.params.prefill_input_len + length (token_ids (decodes m.inputs))
    length-input_ids =
        ap length flat_phases
        ∙ omega (
          arith,
          prefill_count,
          length-append (token_ids (prefills m.inputs)) (token_ids (decodes m.inputs)),
        )

    -- For inputs that hold as many ids as they say, a batch that is made lists the same inputs in
    -- another order, its first `prefill_input_len` ids are those of the inputs longer than 1, in
    -- the order of the batch, and the rest are those of the inputs of length 1.
    pub make_inputs-layout :
        Perm m.inputs inputs
        × (take m.params.prefill_input_len m.input_ids ≡ token_ids (prefills m.inputs))
        × (drop m.params.prefill_input_len m.input_ids ≡ token_ids (decodes m.inputs))
    make_inputs-layout = (
      rw sorted-make_inputs (sort_inputs-perm inputs),
      rw (prefill_count, flat_phases) (take-append (token_ids (prefills m.inputs)) _),
      rw (prefill_count, flat_phases) (drop-append (token_ids (prefills m.inputs)) _),
    )
