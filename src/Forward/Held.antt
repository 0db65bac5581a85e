-- ===== src/Forward/Held.antt =====
-- What the cache of a layer holds after `Attention.forward` on a made batch: an entry for each
-- position of each sequence.
use lmserve.Prelude.{
  ℕ, ◌%◌, ◌≤◌, ◌<◌, ◌≡◌, refl, ap, sym, ◌∙◌, ◌⊎◌, inl, inr, Bool-cases, ltb, true, List, [], ◌∷◌,
  some, arith, All, All-get_elem?, ◌/◌, length, get_elem?, ok,
}
use lmserve.Batch.Inputs.{InferInput}
use lmserve.Batch.Pages.{cumsum}
use lmserve.Batch.Make.{FlashInfer, BatchConfig, MadeInputs, PagedParams, make_inputs}
use lmserve.Batch.Collect.{IsWellFormed, spans}
use lmserve.Batch.Layout.{position_ids-make_inputs, inputs-All}
use lmserve.Batch.Paging.{tables-make_inputs, block_ids_of, block_counts}
use lmserve.Batch.Positions.{IsDocumented, IsPaged, positions-make_inputs}
use lmserve.Forward.Attend.{Kernels, KeepsRows, attend, appended}
use lmserve.Forward.Attention.{attend-made}
use lmserve.Forward.Appends.{Cache, Write, Written, Writes, IsAppend, blocks_of_Written}
use lmserve.Forward.Appended.{IsSlot, position-IsSlot, New, new_rows, batch-Writes}

-- The blocks of an input are blocks of the cache.
abbrev pub IsInCache : ℕ → InferInput → Type 0
IsInCache num_blocks d = All (λ b. b < num_blocks) d.block_ids

module _ {Row : Type 0} (p : ℕ) (kv : ℕ → ℕ → Row × Row) where
  -- The slots of the first `n` positions of an input hold its entries.
  abbrev pub Holds : Cache Row → ℕ → InferInput → Type 0
  Holds cache n d =
      (q : ℕ) → q < n → (b : ℕ) × IsSlot p d q b (q % p) × (cache b (q % p) ≡ kv d.seq_id q)

  -- A new position of `d` that shares its slot with a position of `d'` has the same entry.
  abbrev pub Shares : InferInput → InferInput → Type 0
  Shares d' d =
      (q q' b o : ℕ)
      → d.filled_token_len ≤ q
      → q < d.context_len
      → q' < d'.context_len
      → IsSlot p d q b o
      → IsSlot p d' q' b o
      → kv d.seq_id q ≡ kv d'.seq_id q'

  module _ (positive : 0 < p) (before after : Cache Row) (ds : List InferInput)
      (ws : List (Write Row))
      (stored : (b o : ℕ)
        → ((e : Row × Row) × Written b o e ws × (after b o ≡ e))
          ⊎ (((e : Row × Row) → ¬ Written b o e ws) × (after b o ≡ before b o)))
      (sound : (P : InferInput → Type 0)
        → All P ds
        → (b o : ℕ) (e : Row × Row) → Written b o e ws
        → (d : InferInput) × P d × New p kv b o e d) where
    -- A position that had its entry, or one that is written, has it afterwards.
    position-after :
        (d' : InferInput)
        → All (Shares d') ds
        → (q' b : ℕ) → q' < d'.context_len
        → IsSlot p d' q' b (q' % p)
        → (before b (q' % p) ≡ kv d'.seq_id q') ⊎ Written b (q' % p) (kv d'.seq_id q') ws
        → after b (q' % p) ≡ kv d'.seq_id q'
    position-after d' shares q' b below at old_or_new = elim (stored b (q' % p)) [
      | inl (e, written, is_e) ↦
          let (d, shared, new) = sound (Shares d') shares b (q' % p) e written in
          is_e
          ∙ sym new.entry
          ∙ shared new.position q' b (q' % p) new.from (omega (arith, new.from, new.below)) below
              new.at at
      | inr (none_written, same) ↦ elim old_or_new [
        | inl old ↦ same ∙ old
        | inr new ↦ absurd (none_written (kv d'.seq_id q') new)
      ]
    ]

    pub still-Holds :
        (d' : InferInput)
        → All (Shares d') ds
        → Holds before d'.context_len d'
        → Holds after d'.context_len d'
    still-Holds d' shares held q' below =
        let (b, at, old) = held q' below in
        (b, at, position-after d' shares q' b below at (inl old))

    pub filled-Holds :
        (d' : InferInput)
        → IsWellFormed d'
        → IsPaged p d'
        → All (Shares d') ds
        → Holds before d'.filled_token_len d'
        → ((b o : ℕ) (e : Row × Row) → New p kv b o e d' → Written b o e ws)
        → Holds after d'.context_len d'
    filled-Holds d' wf paged shares held complete q' below =
        elim (Bool-cases (ltb q' d'.filled_token_len)) [
          | inl old ↦
              let (b, at, was) = held q' (ground (arith, old)) in
              (b, at, position-after d' shares q' b below at (inl was))
          | inr new ↦
              let (b, at) = position-IsSlot p d' q' positive paged below in
              let from : d'.filled_token_len ≤ q' = ground (arith, new) in
              let now = complete b (q' % p) (kv d'.seq_id q') (record {
                position = q';
                from = from;
                below = omega (arith, wf.context);
                at = at;
                entry = refl;
              }) in
              (b, at, position-after d' shares q' b below at (inr now))
        ]

    pub all-Holds :
        (batch : List InferInput)
        → All IsWellFormed batch
        → All (IsPaged p) batch
        → All (λ d. All (Shares d) ds) batch
        → All (λ d. Holds before d.filled_token_len d) batch
        → All (λ d. (b o : ℕ) (e : Row × Row) → New p kv b o e d → Written b o e ws) batch
        → All (λ d. Holds after d.context_len d) batch
    all-Holds [] wf paged shares held complete = tt
    all-Holds (d ∷ rest) wf paged shares held complete = (
      filled-Holds d wf.0 paged.0 shares.0 held.0 complete.0,
      all-Holds rest wf.1 paged.1 shares.1 held.1 complete.1,
    )

    pub others-Holds :
        (others : List InferInput)
        → All (λ d. All (Shares d) ds) others
        → All (λ d. Holds before d.context_len d) others
        → All (λ d. Holds after d.context_len d) others
    others-Holds [] shares held = tt
    others-Holds (d ∷ rest) shares held =
        (still-Holds d shares.0 held.0, others-Holds rest shares.1 held.1)

module _ {Row : Type 0} (k : Kernels Row (Cache Row)) (keeps : KeepsRows k) (fi : FlashInfer)
    (doc : IsDocumented fi) (w : BatchConfig) (num_blocks : ℕ)
    (append : IsAppend k w.block_size num_blocks) (positive : 0 < w.block_size)
    (inputs : List InferInput) (wf : All IsWellFormed inputs)
    (pages : All (IsPaged w.block_size) inputs) (in_cache : All (IsInCache num_blocks) inputs)
    {m : MadeInputs} (run : make_inputs fi w inputs true ≡ ok m) {p : PagedParams}
    (cached : m.params.paged ≡ some p) (kv : ℕ → ℕ → Row × Row) where
  abbrev keys : List Row
  keys = new_rows (λ i q. (kv i q).0) m.inputs

  abbrev values : List Row
  values = new_rows (λ i q. (kv i q).1) m.inputs

  -- The tokens of the batch are written where the page tables say.
  made-Writes :
      (ws : List (Write Row)) × Writes w.block_size p.kv_block_indices p.kv_block_indptrs
        p.batch_indices p.positions keys values ws
      × ((P : InferInput → Type 0)
          → All P m.inputs
          → (b o : ℕ) (e : Row × Row) → Written b o e ws
          → (d : InferInput) × P d × New w.block_size kv b o e d)
      × All
          (λ d. (b o : ℕ) (e : Row × Row) → New w.block_size kv b o e d → Written b o e ws)
          m.inputs
  unfolding cumsum
  made-Writes =
      let tables = tables-make_inputs fi w positive inputs run cached in
      let (at, indices) = positions-make_inputs fi doc w positive inputs wf pages run cached in
      let spans_of : p.positions ≡ spans m.inputs =
        at ∙ position_ids-make_inputs fi w inputs true run in
      let blocks : p.kv_block_indices ≡ block_ids_of m.inputs =
        ap (λ (t : PagedParams). t.kv_block_indices) tables in
      let starts : p.kv_block_indptrs ≡ cumsum (block_counts m.inputs) =
        ap (λ (t : PagedParams). t.kv_block_indptrs) tables in
      rw (spans_of, indices, blocks, starts)
        (batch-Writes w.block_size kv positive 0 0 m.inputs
          (inputs-All fi w inputs true run IsWellFormed wf)
          (inputs-All fi w inputs true run (IsPaged w.block_size) pages)
          (λ j. ap (get_elem? (cumsum (block_counts m.inputs))) (omega arith))
          (λ j. ap (get_elem? (block_ids_of m.inputs)) (omega arith)))

  -- With the documented behaviour of flashinfer, for a batch made of well-formed inputs with the
  -- blocks of the cache that their contexts need, whose filled positions are in the cache, and with
  -- one query row for each id, where new positions share a slot only with positions of the same
  -- entry: the attention layer succeeds, and then the cache holds the entry of each position of the
  -- context of each input, and those of the other sequences that it held.
  pub attend-Holds :
      (query : List Row)
      → length query ≡ length m.input_ids
      → (cache : Cache Row) (others : List InferInput)
      → All (λ d. Holds w.block_size kv cache d.filled_token_len d) m.inputs
      → All (λ d. Holds w.block_size kv cache d.context_len d) others
      → All (λ d. All (Shares w.block_size kv d) m.inputs) m.inputs
      → All (λ d. All (Shares w.block_size kv d) m.inputs) others
      → (out : List Row) × (cache' : Cache Row) × (attend k query keys values m.params (some cache)
          ≡ ok (out, some cache'))
        × All (λ d. Holds w.block_size kv cache' d.context_len d) m.inputs
        × All (λ d. Holds w.block_size kv cache' d.context_len d) others
  attend-Holds query len cache others held held_others shares shares_others =
      let (ws, writes, sound, complete) = made-Writes in
      let after = appended k p keys values cache in
      let small : (b o : ℕ) (e : Row × Row) → Written b o e ws → b < num_blocks = λ b o e written.
        let (d, inside, new) =
          sound (IsInCache num_blocks)
            (inputs-All fi w inputs true run (IsInCache num_blocks) in_cache) b o e written in
        All-get_elem? (λ b. b < num_blocks) d.block_ids (new.position / w.block_size) inside
          new.at.block in
      let stored =
        append.stored writes (blocks_of_Written (λ b. b < num_blocks) ws small) cache
          p.kv_last_block_lens in
      let wf' = inputs-All fi w inputs true run IsWellFormed wf in
      let pages' = inputs-All fi w inputs true run (IsPaged w.block_size) pages in
      (
        _,
        after,
        attend-made k keeps fi w positive inputs wf run cached query keys values cache len,
        all-Holds w.block_size kv positive cache after m.inputs ws stored sound m.inputs wf' pages'
            shares held complete,
        others-Holds w.block_size kv positive cache after m.inputs ws stored sound others
            shares_others held_others,
      )
