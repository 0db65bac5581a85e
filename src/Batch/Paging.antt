-- ===== src/Batch/Paging.antt =====
-- The page tables of a batch: the assertion of `build_decode_wrapper` never fires, and flashinfer
-- appends each key and value at the position that the token has in its sequence.
use lmserve.Prelude.{
  ℕ, ◌+◌, ◌-◌, ◌%◌, ◌<◌, ◌≡◌, refl, ap, ◌∙◌, inl, inr, Bool, true, List, [], ◌∷◌, ◌++◌, ◌&&◌,
  append-nil, append_assoc, Option, none, some, arith, ◌==◌, if◌then◌else◌, All, length, sum, ok,
  Bool-cases,
}
use lmserve.Batch.Inputs.{InferInput, sort_inputs, collect, empty_batch}
use lmserve.Batch.Order.{prefills, decodes}
use lmserve.Batch.Pages.{
  last_block_len, cumsum, PageLists, empty_pages, add_pages, page_loop, decode_loop, input_lens,
  Heads, PrefillWrapper, DecodeWrapper,
}
use lmserve.Batch.Make.{
  FlashInfer, BatchConfig, MadeInputs, PagedParams, prefill_wrapper_of, decode_wrapper_of,
  paged_params, made, make_inputs,
}
use lmserve.Batch.Collect.{collect_closed}

unfoldable pub block_ids_of : List InferInput → List ℕ
block_ids_of [] = []
block_ids_of (d ∷ ds) = d.block_ids ++ block_ids_of ds

unfoldable pub block_counts : List InferInput → List ℕ
block_counts [] = []
block_counts (d ∷ ds) = length d.block_ids ∷ block_counts ds

unfoldable pub last_lens : ℕ → List InferInput → List ℕ
last_lens p [] = []
last_lens p (d ∷ ds) = ((d.context_len + p - 1) % p + 1) ∷ last_lens p ds

last_block_len-ok : (k p : ℕ) → 0 < p → last_block_len k p ≡ ok ((k + p - 1) % p + 1)
unfolding last_block_len
last_block_len-ok k p h = ground arith

abbrev after_pages : ℕ → List InferInput → PageLists → PageLists
after_pages p ds acc = record {
  kv_block_indices = acc.kv_block_indices ++ block_ids_of ds;
  num_blocks_per_seqs = acc.num_blocks_per_seqs ++ block_counts ds;
  kv_last_block_lens = acc.kv_last_block_lens ++ last_lens p ds;
}

abbrev after_one : ℕ → InferInput → PageLists → PageLists
after_one p d acc = record {
  kv_block_indices = acc.kv_block_indices ++ d.block_ids;
  num_blocks_per_seqs = acc.num_blocks_per_seqs ++ length d.block_ids ∷ [];
  kv_last_block_lens = acc.kv_last_block_lens ++ ((d.context_len + p - 1) % p + 1) ∷ [];
}

module _ {p : ℕ} (positive : 0 < p) where
  add_pages-ok : (acc : PageLists) (d : InferInput) → add_pages p acc d ≡ ok (after_one p d acc)
  unfolding add_pages
  add_pages-ok acc d = rw (last_block_len-ok d.context_len p positive)

  after_pages-cons :
      (d : InferInput) (ds : List InferInput) (acc : PageLists)
      → after_pages p ds (after_one p d acc) ≡ after_pages p (d ∷ ds) acc
  unfolding block_ids_of block_counts last_lens
  after_pages-cons d ds acc = simp append_assoc

  pub page_loop_closed :
      (ds : List InferInput) (acc : PageLists) → page_loop p ds acc ≡ ok (after_pages p ds acc)
  unfolding page_loop block_ids_of block_counts last_lens
  page_loop_closed [] acc = simp append-nil
  page_loop_closed (d ∷ ds) acc =
      rw (add_pages-ok acc d)
        (page_loop_closed ds (after_one p d acc) ∙ ap ok (after_pages-cons d ds acc))

  decode_loop_closed :
      (ds : List InferInput) (acc : PageLists)
      → All (λ d. d.input_len ≡ 1) ds
      → decode_loop p ds acc ≡ ok (after_pages p ds acc)
  unfolding decode_loop block_ids_of block_counts last_lens
  decode_loop_closed [] acc h = simp append-nil
  decode_loop_closed (d ∷ ds) acc h =
      rw (h.0, add_pages-ok acc d)
        (decode_loop_closed ds (after_one p d acc) h.1 ∙ ap ok (after_pages-cons d ds acc))

decodes_of_len : (ds : List InferInput) → All (λ d. d.input_len ≡ 1) (decodes ds)
unfolding decodes
decodes_of_len [] = tt
decodes_of_len (d ∷ ds) = elim (Bool-cases (d.input_len == 1)) [
  | inl e ↦ rw e (ground arith, decodes_of_len ds)
  | inr e ↦ rw e (decodes_of_len ds)
]

abbrev pages_of : ℕ → List InferInput → PageLists
pages_of p ds = record {
  kv_block_indices = block_ids_of ds;
  num_blocks_per_seqs = block_counts ds;
  kv_last_block_lens = last_lens p ds;
}

-- The wrappers over a list of inputs, as the attention layer finds them.
unfoldable pub prefill_plan : List InferInput → Heads → ℕ → Option PrefillWrapper
unfolding cumsum input_lens block_counts block_ids_of last_lens
prefill_plan [] heads p = none
prefill_plan (d ∷ ds) heads p = some (record {
  qo_indptr = cumsum (input_lens (d ∷ ds));
  paged_kv_indptr = cumsum (block_counts (d ∷ ds));
  paged_kv_indices = block_ids_of (d ∷ ds);
  paged_kv_last_page_len = last_lens p (d ∷ ds);
  heads = heads;
  page_size = p;
  causal = true;
})

unfoldable pub decode_plan : List InferInput → Heads → ℕ → Option DecodeWrapper
unfolding cumsum block_counts block_ids_of last_lens
decode_plan [] heads p = none
decode_plan (d ∷ ds) heads p = some (record {
  indptr = cumsum (block_counts (d ∷ ds));
  indices = block_ids_of (d ∷ ds);
  last_page_len = last_lens p (d ∷ ds);
  heads = heads;
  page_size = p;
})

module _ {p : ℕ} (positive : 0 < p) where
  prefill_wrapper_of-ok :
      (ds : List InferInput) (heads : Heads)
      → prefill_wrapper_of ds heads p ≡ ok (prefill_plan ds heads p)
  unfolding prefill_wrapper_of prefill_plan
  prefill_wrapper_of-ok [] heads = refl
  prefill_wrapper_of-ok (d ∷ ds) heads =
      ground (arith, page_loop_closed positive (d ∷ ds) empty_pages)

  decode_wrapper_of-ok :
      (ds : List InferInput) (heads : Heads)
      → All (λ d. d.input_len ≡ 1) ds
      → decode_wrapper_of ds heads p ≡ ok (decode_plan ds heads p)
  unfolding decode_wrapper_of decode_plan
  decode_wrapper_of-ok [] heads h = refl
  decode_wrapper_of-ok (d ∷ ds) heads h =
      ground (arith, decode_loop_closed positive (d ∷ ds) empty_pages h)

-- What the branch with a cache computes for the sorted inputs `ds`.
abbrev pub paged_spec : FlashInfer → BatchConfig → List InferInput → PagedParams
paged_spec fi w ds =
    let found =
      fi.get_batch_indices_positions (cumsum (input_lens ds))
        (fi.get_seq_lens (cumsum (block_counts ds)) (last_lens w.block_size ds) w.block_size)
        (sum (input_lens ds)) in
    record {
      prefill_wrapper = prefill_plan (prefills ds) w.heads w.block_size;
      decode_wrapper = decode_plan (decodes ds) w.heads w.block_size;
      batch_indices = found.0;
      positions = found.1;
      kv_block_indices = block_ids_of ds;
      kv_block_indptrs = cumsum (block_counts ds);
      kv_last_block_lens = last_lens w.block_size ds;
    }

module _ (fi : FlashInfer) (w : BatchConfig) (positive : 0 < w.block_size) where
  paged_params-ok :
      (ds : List InferInput)
      → paged_params fi w ds (collect ds empty_batch) ≡ ok (paged_spec fi w ds)
  unfolding paged_params
  paged_params-ok ds =
      let (_, _, q, _, pre, dec) = collect_closed ds in
      rw (
        pre,
        dec,
        q,
        prefill_wrapper_of-ok positive (prefills ds) w.heads,
        decode_wrapper_of-ok positive (decodes ds) w.heads (decodes_of_len ds),
        page_loop_closed positive ds empty_pages,
      )

  -- With a positive page size no exception leaves `_make_inputs`, whatever the inputs: neither
  -- the division by the page size nor the assertion on the decodes fails. The page tables are
  -- there exactly with a cache that is used, and then the prefill wrapper is planned for the
  -- inputs longer than 1, the decode wrapper for those of length 1, both in the batch's order.
  pub make_inputs-total :
      (inputs : List InferInput) (use_cache : Bool)
      → (m : MadeInputs) × (make_inputs fi w inputs use_cache ≡ ok m)
        × (m.params.paged
            ≡ (if w.has_kv_caches && use_cache then some (paged_spec fi w m.inputs) else none))
  unfolding make_inputs
  make_inputs-total inputs use_cache =
      let sorted = sort_inputs inputs in
      let b = collect sorted empty_batch in
      elim (Bool-cases (w.has_kv_caches && use_cache)) [
        | inl e ↦
            (made sorted b (some (paged_spec fi w sorted)), rw (e, paged_params-ok sorted), rw e)
        | inr e ↦ (made sorted b none, rw e, rw e)
      ]

-- The page tables of a run with a cache are those of the specification.
pub tables-make_inputs :
    (fi : FlashInfer) (w : BatchConfig)
    → 0 < w.block_size
    → (inputs : List InferInput) {m : MadeInputs} → make_inputs fi w inputs true ≡ ok m
    → {p : PagedParams} → m.params.paged ≡ some p
    → p ≡ paged_spec fi w m.inputs
tables-make_inputs fi w positive inputs run cached =
    let (m', run', table) = make_inputs-total fi w positive inputs true in
    ground (arith, run, run', table, cached)

pub prefill_plan-eq-none :
    (ds : List InferInput) (heads : Heads) (p : ℕ) → prefill_plan ds heads p ≡ none → ds ≡ []
unfolding prefill_plan
prefill_plan-eq-none [] heads p h = refl
prefill_plan-eq-none (d ∷ ds) heads p h = cc

pub decode_plan-eq-none :
    (ds : List InferInput) (heads : Heads) (p : ℕ) → decode_plan ds heads p ≡ none → ds ≡ []
unfolding decode_plan
decode_plan-eq-none [] heads p h = refl
decode_plan-eq-none (d ∷ ds) heads p h = cc
