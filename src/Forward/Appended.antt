-- ===== src/Forward/Appended.antt =====
-- The writes of a made batch: those of the new positions of each of its inputs.
use lmserve.Prelude.{
  ℕ, zero, suc, ◌+◌, ◌-◌, ◌/◌, ◌%◌, ◌≤◌, ◌<◌, ◌≡◌, refl, ap, ◌∙◌, ◌⊎◌, inl, inr, List, [], ◌∷◌,
  ◌++◌, map, some, arith, All, length, All-map, get_elem?, get_elem?-append_left,
  get_elem?-append_right, get_elem?-total, get_elem?-lt, replicate, range_from, Bool-cases, ◌==◌,
  subst,
}
use lmserve.Batch.Inputs.{InferInput}
use lmserve.Batch.Pages.{cumsum_from, input_lens}
use lmserve.Batch.Collect.{IsWellFormed, spans}
use lmserve.Batch.Paging.{block_ids_of, block_counts}
use lmserve.Batch.Positions.{batch_indices_from, IsPaged}
use lmserve.Forward.Appends.{Write, Written, Writes, no_token, token}

-- Slot `o` of block `b` is the one of position `q` of the input.
pub record IsSlot (page_size : ℕ) (d : InferInput) (q b o : ℕ) : Type 0 where
  pub block : get_elem? d.block_ids (q / page_size) ≡ some b
  pub slot : q % page_size ≡ o

-- A position within the context has a slot.
pub position-IsSlot :
    (p : ℕ) (d : InferInput) (q : ℕ)
    → 0 < p
    → IsPaged p d
    → q < d.context_len
    → (b : ℕ) × IsSlot p d q b (q % p)
position-IsSlot p d q positive paged below =
    let inside : q / p < length d.block_ids = grind arith in
    let (b, at) = get_elem?-total d.block_ids (q / p) inside in
    (b, record { block = at; slot = refl })

module _ {Row : Type 0} where
  -- The rows of the new positions of each input, in the order of the batch, when `row i q` is the
  -- row of position `q` of the sequence with id `i`.
  unfoldable pub new_rows : (ℕ → ℕ → Row) → List InferInput → List Row
  new_rows row [] = []
  new_rows row (d ∷ ds) =
      map (row d.seq_id) (range_from d.filled_token_len (d.context_len - d.filled_token_len))
      ++ new_rows row ds

module _ {Row : Type 0} (p : ℕ) (d : InferInput) (kv : ℕ → Row × Row) where
  -- `e` is the entry of one of the `n` positions from `first`, whose slot this is.
  pub record IsNew (first n b o : ℕ) (e : Row × Row) : Type 0 where
    pub position : ℕ
    pub from : first ≤ position
    pub below : position < first + n
    pub at : IsSlot p d position b o
    pub entry : kv position ≡ e

  widen : (first n b o : ℕ) (e : Row × Row) → IsNew (first + 1) n b o e → IsNew first (suc n) b o e
  widen first n b o e new = record {
    position = new.position;
    from = omega (arith, new.from);
    below = omega (arith, new.below);
    at = new.at;
    entry = new.entry;
  }

  first_or_later :
      (first n b o : ℕ) (e : Row × Row)
      → IsNew first (suc n) b o e
      → (IsSlot p d first b o × (kv first ≡ e)) ⊎ IsNew (first + 1) n b o e
  first_or_later first n b o e new = elim (Bool-cases (new.position == first)) [
    | inl same ↦
        let here : new.position ≡ first = ground arith in
        inl (subst (λ q. IsSlot p d q b o × (kv q ≡ e)) here (new.at, new.entry))
    | inr other ↦ inr (record {
      position = new.position;
      from = ground (arith, new.from);
      below = omega (arith, new.below);
      at = new.at;
      entry = new.entry;
    })
  ]

  first_written :
      (first n block b o : ℕ) (e : Row × Row)
      → get_elem? d.block_ids (first / p) ≡ some block
      → (block ≡ b) × (first % p ≡ o) × (kv first ≡ e)
      → IsNew first (suc n) b o e
  first_written first n block b o e at (is_b, is_o, is_e) = record {
    position = first;
    from = omega arith;
    below = omega arith;
    at = record { block = at ∙ ap some is_b; slot = is_o };
    entry = is_e;
  }

  module _ {indices indptr : List ℕ} (i start : ℕ) (more : List ℕ)
      (starts : get_elem? indptr i ≡ some start)
      (blocks : (j : ℕ) → get_elem? indices (start + j) ≡ get_elem? (d.block_ids ++ more) j)
      (positive : 0 < p) (paged : IsPaged p d) {is qs : List ℕ} {keys values : List Row}
      {rest : List (Write Row)} (others : Writes p indices indptr is qs keys values rest) where
    -- The writes for `n` positions of one input, before those for the rest of the batch.
    pub span-Writes :
        (n first : ℕ)
        → first + n ≤ d.context_len
        → (ws : List (Write Row)) × Writes p indices indptr
            (replicate n i ++ is)
            (range_from first n ++ qs)
            (map (λ q. (kv q).0) (range_from first n) ++ keys)
            (map (λ q. (kv q).1) (range_from first n) ++ values)
            ws
          × ((b o : ℕ) (e : Row × Row)
              → Written b o e ws
              → IsNew first n b o e ⊎ Written b o e rest)
          × ((b o : ℕ) (e : Row × Row) → Written b o e rest → Written b o e ws)
          × ((b o : ℕ) (e : Row × Row) → IsNew first n b o e → Written b o e ws)
    span-Writes zero first h = (
      rest,
      others,
      λ b o e w. inr w,
      λ b o e w. w,
      λ b o e new. absurd (omega (arith, new.from, new.below)),
    )
    span-Writes (suc n) first h =
        let (ws, tail, sound, kept, complete) = span-Writes n (first + 1) (omega arith) in
        let (block, at) = position-IsSlot p d first positive paged (omega arith) in
        let page : get_elem? indices (start + first / p) ≡ some block =
          blocks (first / p)
          ∙ get_elem?-append_left d.block_ids more (first / p)
              (get_elem?-lt d.block_ids (first / p) block at.block)
          ∙ at.block in
        (
          record { block = block; slot = first % p; entry = kv first } ∷ ws,
          token starts page tail,
          λ b o e w. elim w [
            | inl now ↦ inl (first_written first n block b o e at.block now)
            | inr later ↦ elim (sound b o e later) [
              | inl new ↦ inl (widen first n b o e new)
              | inr old ↦ inr old
            ]
          ],
          λ b o e w. inr (kept b o e w),
          λ b o e new. elim (first_or_later first n b o e new) [
            | inl (now, is_e) ↦ inl (grind (arith, at.block, now.block), now.slot, is_e)
            | inr later ↦ inr (complete b o e later)
          ],
        )

module _ {Row : Type 0} (p : ℕ) (kv : ℕ → ℕ → Row × Row) where
  -- `e` is the entry of a new position of the input, whose slot this is.
  abbrev pub New : ℕ → ℕ → Row × Row → InferInput → Type 0
  New b o e d =
      IsNew p d (kv d.seq_id) d.filled_token_len (d.context_len - d.filled_token_len) b o e

module _ {Row : Type 0} (p : ℕ) (kv : ℕ → ℕ → Row × Row) (positive : 0 < p)
    {indices indptr : List ℕ} where
  -- The writes of a batch are just those of the new positions of its inputs.
  pub batch-Writes :
      (i start : ℕ) (ds : List InferInput)
      → All IsWellFormed ds
      → All (IsPaged p) ds
      → ((j : ℕ)
          → get_elem? indptr (i + j) ≡ get_elem? (start ∷ cumsum_from start (block_counts ds)) j)
      → ((j : ℕ) → get_elem? indices (start + j) ≡ get_elem? (block_ids_of ds) j)
      → (ws : List (Write Row)) × Writes p indices indptr
          (batch_indices_from i (input_lens ds))
          (spans ds)
          (new_rows (λ i q. (kv i q).0) ds)
          (new_rows (λ i q. (kv i q).1) ds)
          ws
        × ((P : InferInput → Type 0)
            → All P ds
            → (b o : ℕ) (e : Row × Row) → Written b o e ws
            → (d : InferInput) × P d × New p kv b o e d)
        × All (λ d. (b o : ℕ) (e : Row × Row) → New p kv b o e d → Written b o e ws) ds
  unfolding batch_indices_from input_lens spans new_rows cumsum_from block_counts block_ids_of
  batch-Writes i start [] wf pages starts blocks = ([], no_token, λ P h b o e w. elim w [ ], tt)
  batch-Writes i start (d ∷ ds) wf pages starts blocks =
      let (rest, others, sound, complete) =
        batch-Writes (i + 1) (start + length d.block_ids) ds wf.1 pages.1
          (λ j. ap (get_elem? indptr) (omega arith) ∙ starts (suc j))
          (λ j.
            ap (get_elem? indices) (omega arith)
            ∙ blocks (length d.block_ids + j)
            ∙ get_elem?-append_right d.block_ids (block_ids_of ds) (length d.block_ids + j) j
                refl) in
      let new : d.context_len - d.filled_token_len ≡ d.input_len = omega (arith, wf.0.context) in
      let (ws, all, sound_here, kept, complete_here) =
        span-Writes p d (kv d.seq_id) i start (block_ids_of ds)
          (ap (get_elem? indptr) (omega arith) ∙ starts 0) blocks positive pages.0 others
          (d.context_len - d.filled_token_len) d.filled_token_len (omega (arith, wf.0.context)) in
      (
        ws,
        subst
            (λ n.
              Writes p indices indptr (replicate n i ++ batch_indices_from (i + 1) (input_lens ds))
                (spans (d ∷ ds)) (new_rows (λ i' q. (kv i' q).0) (d ∷ ds))
                (new_rows (λ i' q. (kv i' q).1) (d ∷ ds)) ws)
            new all,
        λ P h b o e w. elim (sound_here b o e w) [
          | inl new_here ↦ (d, h.0, new_here)
          | inr later ↦ sound P h.1 b o e later
        ],
        (complete_here, All-map (λ d' made b o e new'. kept b o e (made b o e new')) ds complete),
      )
