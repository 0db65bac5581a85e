-- ===== src/Forward/Attention.antt =====
-- `Attention.forward` on a made batch: every row of the output is written by one of the two kernels.
use lmserve.Prelude.{
  ℕ, ◌-◌, ◌≤◌, ◌<◌, nil_of_length, length-append, Option-cases, inl, inr, length-replicate, ◌≡◌,
  refl, ap, sym, ◌∙◌, true, List, [], ◌∷◌, ◌++◌, Option, none, some, arith, All, length, take, drop,
  replicate, length-take, length-drop, take-append, drop-append, ok,
}
use lmserve.Batch.Inputs.{InferInput}
use lmserve.Batch.Order.{prefills, decodes}
use lmserve.Batch.Pages.{PrefillWrapper, DecodeWrapper}
use lmserve.Batch.Make.{FlashInfer, BatchConfig, MadeInputs, PagedParams, make_inputs}
use lmserve.Batch.Collect.{IsWellFormed, token_ids}
use lmserve.Batch.Layout.{prefill_count, length-input_ids}
use lmserve.Batch.Paging.{tables-make_inputs, prefill_plan-eq-none, decode_plan-eq-none}
use lmserve.Forward.Attend.{
  Kernels, KeepsRows, rows_for, set_prefix, set_suffix, prefill_step, decode_step, appended, attend,
}

module _ {Row : Type 0} where
  rows_for-ok : (n : ℕ) (rows : List Row) → length rows ≡ n → rows_for n rows ≡ ok rows
  unfolding rows_for
  rows_for-ok n [] h = ground arith
  rows_for-ok n (x ∷ []) h = rw (← h) refl
  rows_for-ok n (x ∷ y ∷ r) h = ground arith

module _ {Row Cache : Type 0} (k : Kernels Row Cache) where
  -- The rows of one phase: none without a wrapper.
  abbrev pub prefill_rows : Option PrefillWrapper → List Row → Cache → List Row
  prefill_rows none q c = []
  prefill_rows (some w) q c = k.prefill_run w q c

  abbrev pub decode_rows : Option DecodeWrapper → List Row → Cache → List Row
  decode_rows none q c = []
  decode_rows (some w) q c = k.decode_run w q c

  module _ (keeps : KeepsRows k) (n : ℕ) (query : List Row) (c : Cache)
      (fits : n ≤ length query) where
    length-prefix : length (take n query) ≡ n
    length-prefix = omega (arith, length-take n query)

    prefill_step-rows :
        (w : Option PrefillWrapper) (output : List Row)
        → (w ≡ none → n ≡ 0)
        → length output ≡ length query
        → (garbage : List Row) × (prefill_step k w n query c output
            ≡ ok (prefill_rows w (take n query) c ++ garbage))
          × (length (prefill_rows w (take n query) c) ≡ n)
          × (length garbage ≡ length query - n)
    unfolding prefill_step set_prefix
    prefill_step-rows none output absent len =
        (output, refl, omega (arith, absent refl), omega (arith, absent refl))
    prefill_step-rows (some w) output absent len =
        let rows = keeps.prefill w (take n query) c in
        (
          drop n output,
          rw (
              rows_for-ok (length (take n output)) (k.prefill_run w (take n query) c)
                (omega (arith, rows, length-prefix, length-take n output))),
          omega (arith, rows, length-prefix),
          omega (arith, length-drop n output),
        )

    decode_step-rows :
        (w : Option DecodeWrapper) (front garbage : List Row)
        → (w ≡ none → n ≡ length query)
        → length front ≡ n
        → length garbage ≡ length query - n
        → decode_step k w n query c (front ++ garbage)
          ≡ ok (front ++ decode_rows w (drop n query) c)
    unfolding decode_step set_suffix
    decode_step-rows none front garbage absent hf hg =
        let e : garbage ≡ [] = nil_of_length garbage (omega (arith, absent refl)) in rw e
    decode_step-rows (some w) front garbage absent hf hg =
        let rows = keeps.decode w (drop n query) c in
        let cut : take n (front ++ garbage) ≡ front = rw (← hf) (take-append front garbage) in
        let rest : drop n (front ++ garbage) ≡ garbage = rw (← hf) (drop-append front garbage) in
        rw (
          cut,
          rest,
          rows_for-ok (length garbage) (k.decode_run w (drop n query) c)
              (omega (arith, rows, length-drop n query)),
        )

module _ {Row Cache : Type 0} (k : Kernels Row Cache) (keeps : KeepsRows k) (fi : FlashInfer)
    (w : BatchConfig) (positive : 0 < w.block_size) (inputs : List InferInput)
    (wf : All IsWellFormed inputs) {m : MadeInputs} (run : make_inputs fi w inputs true ≡ ok m)
    {p : PagedParams} (cached : m.params.paged ≡ some p) where
  no_prefills : p.prefill_wrapper ≡ none → m.params.prefill_input_len ≡ 0
  unfolding token_ids
  no_prefills h =
      let e : prefills m.inputs ≡ [] =
        prefill_plan-eq-none (prefills m.inputs) w.heads w.block_size (
          sym (
            ap (λ (t : PagedParams). t.prefill_wrapper)
              (tables-make_inputs fi w positive inputs run cached))
          ∙ h) in
      prefill_count fi w inputs true run wf ∙ ap (λ (t : List InferInput). length (token_ids t)) e

  no_decodes : p.decode_wrapper ≡ none → m.params.prefill_input_len ≡ length m.input_ids
  unfolding token_ids
  no_decodes h =
      let e : decodes m.inputs ≡ [] = decode_plan-eq-none (decodes m.inputs) w.heads w.block_size (
        sym (
          ap (λ (t : PagedParams). t.decode_wrapper)
            (tables-make_inputs fi w positive inputs run cached))
        ∙ h) in
      let none_left : length (token_ids (decodes m.inputs)) ≡ 0 =
        ap (λ (t : List InferInput). length (token_ids t)) e in
      omega (arith, length-input_ids fi w inputs true run wf)

  -- For a batch made of well-formed inputs, with one query row for each id, the layer writes every
  -- row of its output: the first `prefill_input_len` rows are those that the prefill wrapper
  -- computes for the first query rows, and the others are those of the decode wrapper for the
  -- other query rows. Both read the cache into which the new keys and values have been appended.
  pub attend-made :
      (query key value : List Row) (cache : Cache)
      → length query ≡ length m.input_ids
      → attend k query key value m.params (some cache)
        ≡ ok (
          prefill_rows k p.prefill_wrapper
                (take m.params.prefill_input_len query)
                (appended k p key value cache)
              ++ decode_rows k p.decode_wrapper
                  (drop m.params.prefill_input_len query)
                  (appended k p key value cache),
          some (appended k p key value cache),
        )
  unfolding attend
  attend-made query key value cache len =
      let n = m.params.prefill_input_len in
      let c = appended k p key value cache in
      let fits : n ≤ length query = omega (arith, length-input_ids fi w inputs true run wf) in
      let (garbage, front, hf, hg) =
        prefill_step-rows k keeps n query c fits p.prefill_wrapper
          (replicate (length query) k.blank) no_prefills
          (length-replicate (length query) k.blank) in
      let back =
        decode_step-rows k keeps n query c fits p.decode_wrapper
          (prefill_rows k p.prefill_wrapper (take n query) c) garbage
          (λ h. omega (arith, no_decodes h)) hf hg in
      rw cached (rw (front, back))

  decode_count :
      (query : List Row) (c : Cache)
      → length query ≡ length m.input_ids
      → length (decode_rows k p.decode_wrapper (drop m.params.prefill_input_len query) c)
        ≡ length query - m.params.prefill_input_len
  decode_count query c len = elim (Option-cases p.decode_wrapper) [
    | inl e ↦ rw e (omega (arith, no_decodes e))
    | inr (wrapper, e) ↦ rw e (
        omega (
          arith,
          keeps.decode wrapper (drop m.params.prefill_input_len query) c,
          length-drop m.params.prefill_input_len query,
        ))
  ]

  -- The layer returns one output row for each query row.
  pub attend_total :
      (query key value : List Row) (cache : Cache)
      → length query ≡ length m.input_ids
      → (out : List Row) × (cache' : Cache) × (attend k query key value m.params (some cache)
          ≡ ok (out, some cache'))
        × (length out ≡ length query)
  attend_total query key value cache len =
      let n = m.params.prefill_input_len in
      let c = appended k p key value cache in
      let fits : n ≤ length query = omega (arith, length-input_ids fi w inputs true run wf) in
      let front = prefill_rows k p.prefill_wrapper (take n query) c in
      let back = decode_rows k p.decode_wrapper (drop n query) c in
      let front_len =
        (prefill_step-rows k keeps n query c fits p.prefill_wrapper
          (replicate (length query) k.blank) no_prefills
          (length-replicate (length query) k.blank)).2 in
      (
        front ++ back,
        c,
        attend-made query key value cache len,
        omega (arith, front_len, decode_count query c len, length-append front back),
      )
