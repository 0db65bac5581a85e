-- ===== src/KvWorker/RoundTrip.antt =====
-- Blocks that leave a level of the cache and come back.
use lmserve.Prelude.{
  ℕ, ◌≤◌, ◌<◌, ◌≡◌, refl, ap, ◌∙◌, inl, inr, true, [], ◌∷◌, some, none, arith, ◌==◌, All, ok,
  lt→ltb, Option-cases, Bool-cases, append-nil,
}
use lmserve.KvWorker.Store.{Entry, BlockMapping, Dims, Store}
use lmserve.KvWorker.Copy.{Device, gpu, host, disk, copy_kv}
use lmserve.KvWorker.Contents.{source_of}
use lmserve.KvWorker.Directions.{view, size, InRange}
use lmserve.KvWorker.CopyKv.{supported, queued, copy_kv-contents}

-- The mapping that takes the blocks back.
abbrev pub back : BlockMapping → BlockMapping
back [] = []
back (e ∷ es) = record { src_block_id = e.dst_block_id; dst_block_id = e.src_block_id } ∷ back es

-- No block is written twice.
abbrev pub Distinct : BlockMapping → Type 0
Distinct [] = Unit
Distinct (e ∷ es) = (source_of es e.dst_block_id ≡ none) × Distinct es

back_All :
    (P Q : Entry → Type 0) (es : BlockMapping)
    → ((e : Entry)
        → P e
        → Q (record { src_block_id = e.dst_block_id; dst_block_id = e.src_block_id }))
    → All P es
    → All Q (back es)
back_All P Q [] f h = tt
back_All P Q (e ∷ es) f h = (f e h.0, back_All P Q es f h.1)

-- A block that comes back comes from where the way out has put it.
source_of-back :
    (es : BlockMapping) (b h : ℕ)
    → Distinct es
    → source_of (back es) b ≡ some h
    → source_of es h ≡ some b
unfolding source_of
source_of-back [] b h d e = cc
source_of-back (x ∷ es) b h d e = elim (Option-cases (source_of (back es) b)) [
  | inl y ↦ ground (arith, y, d.0)
  | inr (k, y) ↦ ground (arith, y, source_of-back es b k d.1 y)
]

-- Every block that the way out names comes back.
source_of-named :
    (es : BlockMapping) (b h : ℕ)
    → source_of es h ≡ some b
    → (k : ℕ) × (source_of (back es) b ≡ some k)
unfolding source_of
source_of-named [] b h e = cc
source_of-named (x ∷ es) b h e = elim (Option-cases (source_of (back es) b)) [
  | inl y ↦ elim (Bool-cases (x.src_block_id == b)) [
    | inl z ↦ (x.dst_block_id, ground (arith, y, z))
    | inr z ↦ elim (Option-cases (source_of es h)) [
      | inl w ↦ ground (arith, w, z)
      | inr (c, w) ↦
          let k = source_of-named es b h (ground (arith, w)) in absurd (ground (arith, y, k.1))
    ]
  ]
  | inr (k, y) ↦ (k, rw y refl)
]

source_of-bounds :
    (d : Dims) (src dst : Device) (es : BlockMapping) (h b : ℕ)
    → All (InRange d src dst) es
    → source_of es h ≡ some b
    → (b < size d src) × (h < size d dst)
unfolding source_of
source_of-bounds d src dst [] h b r e = cc
source_of-bounds d src dst (x ∷ es) h b r e = elim (Option-cases (source_of es h)) [
  | inl w ↦ elim (Bool-cases (x.dst_block_id == h)) [
    | inl z ↦
        let p : x.src_block_id ≡ b = ground (arith, w, z) in
        let q : x.dst_block_id ≡ h = ground (arith, z) in (rw (← p) r.0.0, rw (← q) r.0.1)
    | inr z ↦ ground (arith, w, z)
  ]
  | inr (c, w) ↦ source_of-bounds d src dst es h b r.1 (ground (arith, w))
]

supported_sym : (src dst : Device) → supported src dst ≡ true → supported dst src ≡ true
supported_sym gpu host h = refl
supported_sym host gpu h = refl
supported_sym host disk h = refl
supported_sym disk host h = refl
supported_sym gpu gpu h = cc
supported_sym gpu disk h = cc
supported_sym host host h = cc
supported_sym disk gpu h = cc
supported_sym disk disk h = cc

module _ {A : Type 0} (d : Dims) where
  -- While no forward pass runs, when blocks are copied from one level of the cache to the next, no two to the same place, and the
  -- mapping is taken backwards after changes that keep the level they went to, and whichever of the
  -- two copies is from the GPU finds a value from the model worker in the queue for each layer: both
  -- copies succeed and each block that the mapping names is in every layer as it was.
  pub copy_kv-back :
      (es : BlockMapping) (src dst : Device) (s s' : Store A)
      → supported src dst ≡ true
      → All (InRange d src dst) es
      → Distinct es
      → queued d (es ∷ []) src dst ≤ s.kv_queue
      → queued d (back es ∷ []) dst src ≤ s'.kv_queue
      → view d dst s' ≡ view d dst (copy_kv d (es ∷ []) src dst s).1
      → (b h l : ℕ) → source_of es h ≡ some b
      → l < d.num_layers
      → ((copy_kv d (es ∷ []) src dst s).0 ≡ ok tt)
        × ((copy_kv d (back es ∷ []) dst src s').0 ≡ ok tt)
        × (view d src (copy_kv d (back es ∷ []) dst src s').1 b l ≡ view d src s b l)
  copy_kv-back es src dst s s' supp range distinct enough enough' keeps b h l names hl =
      let out = copy_kv-contents d (es ∷ []) src dst s supp (range, tt) enough in
      let range' : All (InRange d dst src) (back es) =
        back_All (InRange d src dst) (InRange d dst src) es (λ e h. (h.1, h.0)) range in
      let home =
        copy_kv-contents d (back es ∷ []) dst src s' (supported_sym src dst supp) (range', tt)
          enough' in
      let found = source_of-named es b h names in
      let k = found.0 in
      let from_k = source_of-back es b k distinct found.1 in
      let bounds = source_of-bounds d src dst es k b range from_k in
      let left = home.contents b l bounds.0 in
      let right = out.contents k l bounds.1 in
      let there = ap (λ (f : ℕ → ℕ → A). f k l) keeps in
      let left' : view d src (copy_kv d (back es ∷ []) dst src s').1 b l ≡ view d dst s' k l =
        left ∙ rw (append-nil (back es), found.1, lt→ltb l d.num_layers hl) refl in
      let right' : view d dst (copy_kv d (es ∷ []) src dst s).1 k l ≡ view d src s b l =
        right ∙ rw (append-nil es, from_k, lt→ltb l d.num_layers hl) refl in
      (out.returns, home.returns, left' ∙ there ∙ right')
