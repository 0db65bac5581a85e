-- ===== src/Forward/Appends.antt =====
-- The cache that `Attention.forward` appends to, and what flashinfer documents of the call.
use lmserve.Prelude.{
  ℕ, ◌+◌, ◌/◌, ◌%◌, ◌<◌, ◌≡◌, ◌⊎◌, refl, inl, inr, List, [], ◌∷◌, some, get_elem?, All,
}
use lmserve.Forward.Attend.{Kernels}

-- One layer's cache: for each block and each slot of the block a key and a value.
abbrev pub Cache : Type 0 → Type 0
Cache Row = ℕ → ℕ → Row × Row

pub record Write (Row : Type 0) : Type 0 where
  pub block : ℕ
  pub slot : ℕ
  pub entry : Row × Row

module _ {Row : Type 0} where
  -- Whether one of the writes stores `e` in slot `o` of block `b`.
  abbrev pub Written : ℕ → ℕ → Row × Row → List (Write Row) → Type 0
  Written b o e [] = ⊥
  Written b o e (w ∷ ws) = ((w.block ≡ b) × (w.slot ≡ o) × (w.entry ≡ e)) ⊎ Written b o e ws

  -- The writes for the tokens of a batch: the token at position `q` of sequence `i` is stored in
  -- slot `q % page_size` of the block number `q / page_size` of the sequence.
  pub data Writes (page_size : ℕ) (indices indptr : List ℕ)
      : List ℕ → List ℕ → List Row → List Row → List (Write Row) → Type 0 where
    no_token : Writes page_size indices indptr [] [] [] [] []
    token :
        {i q start block : ℕ} {key value : Row} {is qs : List ℕ} {keys values : List Row}
        {ws : List (Write Row)}
        → get_elem? indptr i ≡ some start
        → get_elem? indices (start + q / page_size) ≡ some block
        → Writes page_size indices indptr is qs keys values ws
        → Writes page_size indices indptr
            (i ∷ is)
            (q ∷ qs)
            (key ∷ keys)
            (value ∷ values)
            (record { block = block; slot = q % page_size; entry = (key, value) } ∷ ws)

  -- What flashinfer documents of `append_paged_kv_cache`: when each token has a page that is a block
  -- of the cache, a slot that is written holds one of the entries written to it, and the other slots
  -- are as before.
  pub record IsAppend (k : Kernels Row (Cache Row)) (page_size num_blocks : ℕ) : Type 0 where
    pub stored :
        {indices indptr is qs : List ℕ} {keys values : List Row} {ws : List (Write Row)}
        → Writes page_size indices indptr is qs keys values ws
        → All (λ w. w.block < num_blocks) ws
        → (cache : Cache Row) (lasts : List ℕ) (b o : ℕ)
        → let after = k.append_paged_kv_cache keys values is qs cache indices indptr lasts in
          ((e : Row × Row) × Written b o e ws × (after b o ≡ e))
          ⊎ (((e : Row × Row) → ¬ Written b o e ws) × (after b o ≡ cache b o))

  pub blocks_of_Written :
      (P : ℕ → Type 0) (ws : List (Write Row))
      → ((b o : ℕ) (e : Row × Row) → Written b o e ws → P b)
      → All (λ w. P w.block) ws
  blocks_of_Written P [] h = tt
  blocks_of_Written P (w ∷ ws) h = (
    h w.block w.slot w.entry (inl (refl, refl, refl)),
    blocks_of_Written P ws (λ b o e later. h b o e (inr later)),
  )
