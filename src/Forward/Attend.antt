-- ===== src/Forward/Attend.antt =====
-- `Attention.forward`: the rows of the prefills and those of the decodes go to two kernels.
use lmserve.Prelude.{
  ℕ, ◌≡◌, List, [], ◌∷◌, ◌++◌, Option, none, some, ◌==◌, if◌then◌else◌, length, take, drop,
  replicate, Result, ok, raise, ◌>>=◌, runtime_error, type_error,
}
use lmserve.Batch.Pages.{PrefillWrapper, DecodeWrapper}
use lmserve.Batch.Make.{InputParams, PagedParams}

-- The kernels that the layer calls. `blank` is what a fresh row of `torch.empty_like` holds.
pub record Kernels (Row Cache : Type 0) : Type 0 where
  pub blank : Row
  pub append_paged_kv_cache :
      List Row → List Row → List ℕ → List ℕ → Cache → List ℕ → List ℕ → List ℕ → Cache
  pub prefill_run : PrefillWrapper → List Row → Cache → List Row
  pub decode_run : DecodeWrapper → List Row → Cache → List Row
  pub single_prefill : List Row → List Row → List Row → List Row

module _ {Row : Type 0} where
  -- The right side of a slice assignment to `n` rows: as many rows, or one that is repeated.
  unfoldable pub rows_for : ℕ → List Row → Result (List Row)
  rows_for n (x ∷ []) = ok (replicate n x)
  rows_for n xs = if length xs == n then ok xs else raise runtime_error

  -- `output[:n] = rows`
  unfoldable pub set_prefix : ℕ → List Row → List Row → Result (List Row)
  unfolding rows_for
  set_prefix n output rows = do
    rows' ← rows_for (length (take n output)) rows
    ok (rows' ++ drop n output)

  -- `output[n:] = rows`
  unfoldable pub set_suffix : ℕ → List Row → List Row → Result (List Row)
  unfolding rows_for
  set_suffix n output rows = do
    rows' ← rows_for (length (drop n output)) rows
    ok (take n output ++ rows')

module _ {Row Cache : Type 0} (k : Kernels Row Cache) where
  -- `if prefill_wrapper is not None: output[:prefill_input_len] = ...`
  unfoldable pub prefill_step :
      Option PrefillWrapper → ℕ → List Row → Cache → List Row → Result (List Row)
  unfolding set_prefix
  prefill_step none n query cache output = ok output
  prefill_step (some w) n query cache output =
      set_prefix n output (k.prefill_run w (take n query) cache)

  unfoldable pub decode_step :
      Option DecodeWrapper → ℕ → List Row → Cache → List Row → Result (List Row)
  unfolding set_suffix
  decode_step none n query cache output = ok output
  decode_step (some w) n query cache output =
      set_suffix n output (k.decode_run w (drop n query) cache)

  abbrev pub appended : PagedParams → List Row → List Row → Cache → Cache
  appended p key value cache =
      k.append_paged_kv_cache key value p.batch_indices p.positions cache p.kv_block_indices
        p.kv_block_indptrs p.kv_last_block_lens

  -- The output rows, and the cache after the new keys and values are written.
  unfoldable pub attend :
      List Row → List Row → List Row → InputParams → Option Cache → Result (List Row × Option Cache)
  unfolding prefill_step decode_step
  attend query key value params none = do
    output ← rows_for (length query) (k.single_prefill query key value)
    ok (output, none)
  attend query key value params (some cache) = elim params.paged [
    | none ↦ raise type_error
    | some p ↦ do
      let n = params.prefill_input_len
      let cache' = appended p key value cache
      output ← prefill_step p.prefill_wrapper n query cache' (replicate (length query) k.blank)
      output' ← decode_step p.decode_wrapper n query cache' output
      ok (output', some cache')
  ]

  -- What flashinfer documents of `run`: one output row for each query row.
  pub record KeepsRows : Type 0 where
    pub prefill :
        (w : PrefillWrapper) (q : List Row) (c : Cache) → length (k.prefill_run w q c) ≡ length q
    pub decode :
        (w : DecodeWrapper) (q : List Row) (c : Cache) → length (k.decode_run w q c) ≡ length q
    pub single : (q key value : List Row) → length (k.single_prefill q key value) ≡ length q
