-- ===== src/Forward/Passes.antt =====
-- Successive passes over one layer's cache: the batches that a prefill and the decodes after it
-- make.
use lmserve.Prelude.{
  ℕ, ◌≤◌, ◌<◌, ◌/◌, ◌≡◌, ◌∙◌, sym, subst, ◌⊎◌, inl, inr, true, List, [], ◌++◌, some, arith, All,
  All-map, All-Any, All-append, Any, length, get_elem?, ok,
}
use lmserve.Batch.Inputs.{InferInput}
use lmserve.Batch.Make.{FlashInfer, BatchConfig, MadeInputs, PagedParams, make_inputs}
use lmserve.Batch.Collect.{IsWellFormed}
use lmserve.Batch.Positions.{IsDocumented, IsPaged}
use lmserve.Forward.Attend.{Kernels, KeepsRows, attend}
use lmserve.Forward.Appends.{Cache, IsAppend}
use lmserve.Forward.Appended.{new_rows}
use lmserve.Forward.Held.{IsInCache, Holds, Shares, attend-Holds}

-- The filled positions of `d` are positions of `d0`, in the same blocks: `d` goes on where `d0`
-- stopped, or it has a prefix in common with it.
pub record Continues {Row : Type 0} (p : ℕ) (kv : ℕ → ℕ → Row × Row) (d d0 : InferInput)
    : Type 0 where
  pub filled : d.filled_token_len ≤ d0.context_len
  pub blocks :
      (q : ℕ)
      → q < d.filled_token_len
      → get_elem? d.block_ids (q / p) ≡ get_elem? d0.block_ids (q / p)
  pub entries : (q : ℕ) → q < d.filled_token_len → kv d.seq_id q ≡ kv d0.seq_id q

module _ {Row : Type 0} (k : Kernels Row (Cache Row)) (fi : FlashInfer) (w : BatchConfig)
    (num_blocks : ℕ) (kv : ℕ → ℕ → Row × Row) where
  -- One call of `_make_inputs` and the layer's `forward` on its batch, when the sequences `live`
  -- have been run before: each input is new or continues one of them, the sequences `others` of
  -- `live` are kept, and new positions share no slot with a position of another entry.
  pub record Pass (live : List InferInput) (cache : Cache Row) (inputs others : List InferInput)
      (m : MadeInputs) (cache' : Cache Row) : Type 0 where
    pub well_formed : All IsWellFormed inputs
    pub paged : All (IsPaged w.block_size) inputs
    pub in_cache : All (IsInCache num_blocks) inputs
    pub run : make_inputs fi w inputs true ≡ ok m
    pub tables : (p : PagedParams) × (m.params.paged ≡ some p)
    pub query : List Row
    pub rows : length query ≡ length m.input_ids
    pub out : List Row
    pub attended :
        attend k query
          (new_rows (λ i q. (kv i q).0) m.inputs)
          (new_rows (λ i q. (kv i q).1) m.inputs)
          m.params
          (some cache)
        ≡ ok (out, some cache')
    pub known :
        All
          (λ d. (d.filled_token_len ≡ 0) ⊎ Any (λ d0. Continues w.block_size kv d d0) live)
          m.inputs
    pub kept : All (λ d. Any (λ d0. d0 ≡ d) live) others
    pub apart : All (λ d. All (Shares w.block_size kv d) m.inputs) m.inputs
    pub apart_kept : All (λ d. All (Shares w.block_size kv d) m.inputs) others

  -- The caches that passes lead to, with the sequences that are live then.
  pub data Passes : Cache Row → List InferInput → Type 0 where
    start : (cache : Cache Row) → Passes cache []
    pass :
        {cache cache' : Cache Row} {live : List InferInput} (inputs others : List InferInput)
        {m : MadeInputs}
        → Passes cache live
        → Pass live cache inputs others m cache'
        → Passes cache' (m.inputs ++ others)

  -- What a sequence that goes on needs is there.
  pub Continues-Holds :
      (cache : Cache Row) (d d0 : InferInput)
      → Continues w.block_size kv d d0
      → Holds w.block_size kv cache d0.context_len d0
      → Holds w.block_size kv cache d.filled_token_len d
  Continues-Holds cache d d0 goes_on held q below =
      let (b, at, old) = held q (omega (arith, goes_on.filled)) in
      (
        b,
        record { block = goes_on.blocks q below ∙ at.block; slot = at.slot },
        old ∙ sym (goes_on.entries q below),
      )

  known-Holds :
      (cache : Cache Row) (live : List InferInput)
      → All (λ d. Holds w.block_size kv cache d.context_len d) live
      → (d : InferInput)
      → (d.filled_token_len ≡ 0) ⊎ Any (λ d0. Continues w.block_size kv d d0) live
      → Holds w.block_size kv cache d.filled_token_len d
  known-Holds cache live held d (inl fresh) = λ q below. absurd (omega arith)
  known-Holds cache live held d (inr old) =
      let (d0, held0, goes_on) =
        All-Any (λ d0. Holds w.block_size kv cache d0.context_len d0) live held old in
      Continues-Holds cache d d0 goes_on held0

  kept-Holds :
      (cache : Cache Row) (live : List InferInput)
      → All (λ d. Holds w.block_size kv cache d.context_len d) live
      → (d : InferInput) → Any (λ d0. d0 ≡ d) live
      → Holds w.block_size kv cache d.context_len d
  kept-Holds cache live held d there =
      let (d0, held0, same) =
        All-Any (λ d0. Holds w.block_size kv cache d0.context_len d0) live held there in
      subst (λ d. Holds w.block_size kv cache d.context_len d) same held0

  module _ (keeps : KeepsRows k) (doc : IsDocumented fi)
      (append : IsAppend k w.block_size num_blocks) (positive : 0 < w.block_size) where
    -- With the documented behaviour of flashinfer and a positive page size, from any cache, after
    -- any number of passes over batches of well-formed inputs with the blocks of the cache that their
    -- contexts need, each input new or with its filled positions in the blocks of a sequence that was run
    -- before, and no new position in a slot that needs another entry: the cache of the layer holds
    -- for every live sequence the key and the value of each position of its context, in the slot
    -- that its block list gives to the position.
    pub Passes-Holds :
        (cache : Cache Row) (live : List InferInput)
        → Passes cache live
        → All (λ d. Holds w.block_size kv cache d.context_len d) live
    Passes-Holds _ _ (start cache) = tt
    Passes-Holds _ _ (pass {cache} {cache'} {live} inputs others {m} before now) =
        let live_held = Passes-Holds cache live before in
        let held = All-map (known-Holds cache live live_held) m.inputs now.known in
        let held_kept = All-map (kept-Holds cache live live_held) others now.kept in
        let (out, after, attended, all_held, kept_held) =
          attend-Holds k keeps fi doc w num_blocks append positive inputs now.well_formed now.paged
            now.in_cache now.run now.tables.1 kv now.query now.rows cache others held held_kept
            now.apart now.apart_kept in
        let same : after ≡ cache' = cc (attended, now.attended) in
        subst (λ c. All (λ d. Holds w.block_size kv c d.context_len d) (m.inputs ++ others)) same
          (All-append (λ d. Holds w.block_size kv after d.context_len d) m.inputs others all_held
            kept_held)
