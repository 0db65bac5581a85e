-- ===== src/KvWorker/Refinement.antt =====
-- One `copy_kv` against a plain table of blocks.
use lmserve.Prelude.{
  ℕ, ◌+◌, ◌≤◌, ◌<◌, ◌≡◌, ◌≢◌, ap, sym, ◌∙◌, subst, inl, inr, true, false, List, [], ◌∷◌, some,
  arith, All, concat, ok, Bool-cases, Option-cases,
}
use lmserve.KvWorker.Store.{Entry, Dims, Store}
use lmserve.KvWorker.Copy.{Device, copy_kv}
use lmserve.KvWorker.Contents.{source_of}
use lmserve.KvWorker.Directions.{view, size, InRange}
use lmserve.KvWorker.CopyKv.{supported, queued, copy_kv-contents}
use lmserve.KvWorker.AnyOrder.{concat-All}
use lmserve.KvWorker.Table.{
  CopyKvRequest, Blocks, same_device, move_all, supported_apart, same_device_eq, same_device_self,
  move_all-others, move_all-target,
}

-- The blocks of all devices hold what the table says.
abbrev pub Refines : {A : Type 0} → Dims → Store A → Blocks A → Type 0
Refines d s c =
    (dev : Device) (b l : ℕ) → b < size d dev → l < d.num_layers → view d dev s b l ≡ c dev b l

pub record IsServable (d : Dims) (r : CopyKvRequest) : Type 0 where
  pub direction : supported r.src_device r.dst_device ≡ true
  pub range : All (All (InRange d r.src_device r.dst_device)) r.block_mappings

pub source_of-lt :
    (src dst : Device) (d : Dims) (es : List Entry) (b a : ℕ)
    → All (InRange d src dst) es
    → source_of es b ≡ some a
    → a < size d src
unfolding source_of
source_of-lt src dst d [] b a h e = cc
source_of-lt src dst d (x ∷ es) b a h e = elim (Option-cases (source_of es b)) [
  | inl none_later ↦ ground (arith, h.0.0, none_later, e)
  | inr (a', later) ↦ source_of-lt src dst d es b a h.1 (later ∙ ground (arith, later, e))
]

no_bit : false ≡ true → ⊥
no_bit h = cc

module _ {A : Type 0} (d : Dims) where
  copy_target :
      (r : CopyKvRequest) (s : Store A) (c : Blocks A)
      → IsServable d r
      → Refines d s c
      → queued d r.block_mappings r.src_device r.dst_device ≤ s.kv_queue
      → (b l : ℕ) → b < size d r.dst_device
      → l < d.num_layers
      → view d r.dst_device (copy_kv d r.block_mappings r.src_device r.dst_device s).1 b l
        ≡ move_all r.src_device r.dst_device (concat r.block_mappings) c r.dst_device b l
  copy_target r s c servable before enough b l hb hl =
      let ms = r.block_mappings in
      let src = r.src_device in
      let dst = r.dst_device in
      let apart = supported_apart src dst servable.direction in
      let contents =
        (copy_kv-contents d ms src dst s servable.direction servable.range enough).contents b l
          hb in
      let in_range = concat-All (InRange d src dst) ms servable.range in
      let table = ap (λ (v : ℕ → A). v l) (sym (move_all-target src dst apart (concat ms) c b)) in
      contents
      ∙ elim (Option-cases (source_of (concat ms) b)) [
        | inl x ↦ rw x (ground (arith, before dst b l hb hl))
        | inr (a, x) ↦
            rw x (
              ground (arith, before src a l (source_of-lt src dst d (concat ms) b a in_range x) hl))
      ]
      ∙ table

  pub copy_kv-Refines :
      (r : CopyKvRequest) (s : Store A) (c : Blocks A)
      → IsServable d r
      → Refines d s c
      → queued d r.block_mappings r.src_device r.dst_device ≤ s.kv_queue
      → ((copy_kv d r.block_mappings r.src_device r.dst_device s).0 ≡ ok tt)
        × Refines d
            (copy_kv d r.block_mappings r.src_device r.dst_device s).1
            (move_all r.src_device r.dst_device (concat r.block_mappings) c)
        × (s.kv_queue
            ≡ queued d r.block_mappings r.src_device r.dst_device
              + (copy_kv d r.block_mappings r.src_device r.dst_device s).1.kv_queue)
  copy_kv-Refines r s c servable before enough =
      let ms = r.block_mappings in
      let src = r.src_device in
      let dst = r.dst_device in
      let es = concat ms in
      let apart = supported_apart src dst servable.direction in
      let copied = copy_kv-contents d ms src dst s servable.direction servable.range enough in
      (
        copied.returns,
        λ dev b l hb hl. elim (Bool-cases (same_device dev dst)) [
          | inl same ↦
              let eq : dev ≡ dst = same_device_eq dev dst same in
              subst
                (λ v.
                  b < size d v
                  → view d v (copy_kv d ms src dst s).1 b l ≡ move_all src dst es c v b l)
                (sym eq) (λ hb'. copy_target r s c servable before enough b l hb' hl) hb
          | inr other ↦
              let ne : dev ≢ dst = λ e. no_bit (sym other ∙ rw e (same_device_self dst)) in
              ap (λ (v : ℕ → ℕ → A). v b l) (copied.others dev ne)
              ∙ before dev b l hb hl
              ∙ ap (λ (v : ℕ → A). v l) (sym (move_all-others src dst apart es c dev b other))
        ],
        copied.queue,
      )
