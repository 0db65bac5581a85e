-- ===== src/Forward/Segments.antt =====
-- The rows of a forward pass over a made batch, cut into one segment for each input.
use lmserve.Prelude.{
  ℕ, suc, ◌<◌, ◌≡◌, refl, ap, sym, ◌∙◌, true, List, [], ◌∷◌, arith, length, sum, All, drop, ok,
}
use lmserve.Batch.Inputs.{InferInput}
use lmserve.Batch.Pages.{input_lens, cumsum}
use lmserve.Batch.Make.{FlashInfer, BatchConfig, MadeInputs, make_inputs}
use lmserve.Batch.Collect.{IsWellFormed}
use lmserve.Batch.Layout.{length-token_ids, flat-make_inputs, inputs-All, cu_seqlens_q-make_inputs}
use lmserve.Forward.Rows.{join, segment_lens, finals, segment, select_rows, select_rows-finals}
use lmserve.Forward.Decoder.{pointwise}

pub length-finals :
    {Row : Type 0} (segs : List (List Row × Row))
    → length (finals segs) ≡ length (segment_lens segs)
length-finals [] = refl
length-finals ((before, final) ∷ segs) = ap suc (length-finals segs)

pub length-input_lens : (ds : List InferInput) → length (input_lens ds) ≡ length ds
unfolding input_lens
length-input_lens [] = refl
length-input_lens (d ∷ ds) = ap suc (length-input_lens ds)

pub pointwise_total :
    {Row : Type 0} (op : Row → Row → Row) (xs ys : List Row)
    → length xs ≡ length ys
    → (r : List Row) × (pointwise op xs ys ≡ ok r) × (length r ≡ length xs)
unfolding pointwise
pointwise_total op [] [] h = ([], refl, refl)
pointwise_total op (x ∷ xs) (y ∷ ys) h =
    let (r, e, l) = pointwise_total op xs ys (omega arith) in (op x y ∷ r, rw e, omega (arith, l))
pointwise_total op [] (y ∷ ys) h = absurd (omega arith)
pointwise_total op (x ∷ xs) [] h = absurd (omega arith)

lens_positive :
    (ds : List InferInput) → All (λ d. 0 < d.input_len) ds → All (λ n. 0 < n) (input_lens ds)
unfolding input_lens
lens_positive [] h = tt
lens_positive (d ∷ ds) h = (h.0, lens_positive ds h.1)

module _ (fi : FlashInfer) (w : BatchConfig) (inputs : List InferInput)
    (wf : All IsWellFormed inputs) {m : MadeInputs} (run : make_inputs fi w inputs true ≡ ok m)
    (nonempty : All (λ d. 0 < d.input_len) inputs) where
  -- A matrix with a row for each id of the batch is one segment for each input, and the language
  -- model reads the last row of each.
  pub made_segments :
      {Row : Type 0} (hidden : List Row)
      → length hidden ≡ length m.input_ids
      → (segs : List (List Row × Row)) × (hidden ≡ join segs)
        × (segment_lens segs ≡ input_lens m.inputs)
        × (select_rows (join segs) (drop 1 m.params.cu_seqlens_q) ≡ ok (finals segs))
  made_segments {Row} hidden len =
      let total : length hidden ≡ sum (input_lens m.inputs) =
        len
        ∙ ap length (flat-make_inputs fi w inputs true run)
        ∙ length-token_ids m.inputs (inputs-All fi w inputs true run IsWellFormed wf) in
      let (segs, joined, lens) =
        segment (input_lens m.inputs) hidden
          (lens_positive m.inputs (inputs-All fi w inputs true run (λ d. 0 < d.input_len) nonempty))
          total in
      let ends : cumsum (segment_lens segs) ≡ m.params.cu_seqlens_q =
        ap cumsum lens ∙ sym (cu_seqlens_q-make_inputs fi w inputs true run) in
      let chosen : select_rows (join segs) (drop 1 m.params.cu_seqlens_q) ≡ ok (finals segs) =
        ap (λ (t : List ℕ). select_rows (join segs) (drop 1 t)) (sym ends)
        ∙ select_rows-finals segs in
      (segs, joined, lens, chosen)
