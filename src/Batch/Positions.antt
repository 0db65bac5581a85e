-- ===== src/Batch/Positions.antt =====
-- With the documented behaviour of flashinfer's index functions, each key and value is appended to
-- the cache at the position that its token has in its sequence.
use lmserve.Prelude.{
  ℕ, ◌+◌, ◌-◌, ◌*◌, ◌/◌, ◌%◌, ◌<◌, ◌≡◌, refl, ap, ap₂, sym, ◌∙◌, inl, inr, true, List, [], ◌∷◌,
  ◌++◌, some, arith, All, ◌==◌, length, sum, range_from, replicate, ok, Bool-cases,
}
use lmserve.Batch.Inputs.{InferInput}
use lmserve.Batch.Pages.{cumsum_from, cumsum, input_lens}
use lmserve.Batch.Make.{FlashInfer, BatchConfig, MadeInputs, PagedParams, make_inputs}
use lmserve.Batch.Collect.{IsWellFormed, spans}
use lmserve.Batch.Layout.{position_ids-make_inputs, inputs-All}
use lmserve.Batch.Paging.{block_counts, last_lens, tables-make_inputs}

-- `indptr[1:] - indptr[:-1]`
unfoldable pub differences_from : ℕ → List ℕ → List ℕ
differences_from a [] = []
differences_from a (b ∷ r) = (b - a) ∷ differences_from b r

unfoldable pub differences : List ℕ → List ℕ
unfolding differences_from
differences [] = []
differences (a ∷ r) = differences_from a r

-- `max(pages - 1, 0) * page_size + last_page_len`, for each sequence.
unfoldable pub paged_lens : List ℕ → List ℕ → ℕ → List ℕ
paged_lens (n ∷ ns) (l ∷ ls) p = ((n - 1) * p + l) ∷ paged_lens ns ls p
paged_lens _ _ p = []

-- The last `n` positions of each sequence.
unfoldable pub append_positions : List ℕ → List ℕ → List ℕ
append_positions (n ∷ ns) (k ∷ ks) = range_from (k - n) n ++ append_positions ns ks
append_positions _ _ = []

-- `i`, `n` times for the sequence number `i` with `n` new tokens.
unfoldable pub batch_indices_from : ℕ → List ℕ → List ℕ
batch_indices_from i [] = []
batch_indices_from i (n ∷ ns) = replicate n i ++ batch_indices_from (i + 1) ns

-- What the documentation of flashinfer says of the two functions.
pub record IsDocumented (fi : FlashInfer) : Type 0 where
  pub seq_lens :
      (indptr lasts : List ℕ) (p : ℕ)
      → fi.get_seq_lens indptr lasts p ≡ paged_lens (differences indptr) lasts p
  pub indices :
      (indptr lens : List ℕ) (nnz : ℕ)
      → nnz ≡ sum (differences indptr)
      → (fi.get_batch_indices_positions indptr lens nnz).0
        ≡ batch_indices_from 0 (differences indptr)
  pub positions :
      (indptr lens : List ℕ) (nnz : ℕ)
      → nnz ≡ sum (differences indptr)
      → (fi.get_batch_indices_positions indptr lens nnz).1
        ≡ append_positions (differences indptr) lens

-- An input has as many blocks as its context needs.
abbrev pub IsPaged : ℕ → InferInput → Type 0
IsPaged p d = length d.block_ids ≡ (d.context_len + p - 1) / p

differences-cumsum_from : (a : ℕ) (xs : List ℕ) → differences_from a (cumsum_from a xs) ≡ xs
unfolding differences_from cumsum_from
differences-cumsum_from a [] = refl
differences-cumsum_from a (x ∷ xs) = ap₂ ◌∷◌ (omega arith) (differences-cumsum_from (a + x) xs)

differences-cumsum : (xs : List ℕ) → differences (cumsum xs) ≡ xs
unfolding differences cumsum
differences-cumsum xs = differences-cumsum_from 0 xs

-- The pages of a context that is not empty hold just the context.
pages_hold : (c p : ℕ) → 0 < p → 0 < c → ((c + p - 1) / p - 1) * p + ((c + p - 1) % p + 1) ≡ c
pages_hold c p hp hc = grind arith

-- The positions of one input.
one_span :
    (p : ℕ) (d : InferInput)
    → 0 < p
    → IsWellFormed d
    → IsPaged p d
    → range_from
        ((length d.block_ids - 1) * p + ((d.context_len + p - 1) % p + 1) - d.input_len)
        d.input_len
      ≡ range_from d.filled_token_len (d.context_len - d.filled_token_len)
one_span p d hp wf pages = elim (Bool-cases (d.input_len == 0)) [
  | inl e ↦
      let none_new : d.input_len ≡ 0 = ground arith in
      let none_span : d.context_len - d.filled_token_len ≡ 0 = omega (arith, wf.context) in
      rw (none_span, none_new)
  | inr e ↦
      let some_new : 0 < d.input_len = ground arith in
      let held : ((d.context_len + p - 1) / p - 1) * p + ((d.context_len + p - 1) % p + 1)
          ≡ d.context_len =
        pages_hold d.context_len p hp (omega (arith, wf.context)) in
      let len : d.context_len - d.filled_token_len ≡ d.input_len = omega (arith, wf.context) in
      let start : d.context_len - d.input_len ≡ d.filled_token_len = omega (arith, wf.context) in
      rw (pages, held, start, len)
]

spans-append_positions :
    (p : ℕ) (ds : List InferInput)
    → 0 < p
    → All IsWellFormed ds
    → All (IsPaged p) ds
    → append_positions (input_lens ds) (paged_lens (block_counts ds) (last_lens p ds) p) ≡ spans ds
unfolding append_positions paged_lens input_lens block_counts last_lens spans
spans-append_positions p [] hp wf pages = refl
spans-append_positions p (d ∷ ds) hp wf pages =
    ap₂ ◌++◌ (one_span p d hp wf.0 pages.0) (spans-append_positions p ds hp wf.1 pages.1)

module _ (fi : FlashInfer) (doc : IsDocumented fi) (w : BatchConfig) (positive : 0 < w.block_size)
    (inputs : List InferInput) (wf : All IsWellFormed inputs)
    (pages : All (IsPaged w.block_size) inputs) {m : MadeInputs}
    (run : make_inputs fi w inputs true ≡ ok m) {p : PagedParams}
    (cached : m.params.paged ≡ some p) where
  -- For inputs that are well formed and paged for their context, the positions at which the keys
  -- and values of the batch are appended are the position ids that the rotary embedding gets, and
  -- each token is appended for the input that it comes from.
  pub positions-make_inputs :
      (p.positions ≡ m.params.position_ids)
      × (p.batch_indices ≡ batch_indices_from 0 (input_lens m.inputs))
  positions-make_inputs =
      let tables_lem = tables-make_inputs fi w positive inputs run cached in
      let q = input_lens m.inputs in
      let counts = block_counts m.inputs in
      let lasts = last_lens w.block_size m.inputs in
      let total : sum q ≡ sum (differences (cumsum q)) = rw differences-cumsum in
      let at = fi.get_seq_lens (cumsum counts) lasts w.block_size in
      let at_lem : at ≡ paged_lens counts lasts w.block_size =
        doc.seq_lens (cumsum counts) lasts w.block_size
        ∙ ap (λ (t : List ℕ). paged_lens t lasts w.block_size) (differences-cumsum counts) in
      (
        ap (λ (t : PagedParams). t.positions) tables_lem
            ∙ doc.positions (cumsum q) at (sum q) total
            ∙ ap₂ append_positions (differences-cumsum q) at_lem
            ∙ spans-append_positions w.block_size m.inputs positive
                (inputs-All fi w inputs true run IsWellFormed wf)
                (inputs-All fi w inputs true run (IsPaged w.block_size) pages)
            ∙ sym (position_ids-make_inputs fi w inputs true run),
        ap (λ (t : PagedParams). t.batch_indices) tables_lem
            ∙ doc.indices (cumsum q) at (sum q) total
            ∙ ap (batch_indices_from 0) (differences-cumsum q),
      )
