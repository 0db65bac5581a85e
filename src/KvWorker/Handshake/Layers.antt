-- ===== src/KvWorker/Handshake/Layers.antt =====
-- What each layer holds while a request is served: before it is loaded, loaded, computed and saved.
-- No other request writes the blocks meanwhile.
use lmserve.Prelude.{
  ℕ, zero, suc, ◌+◌, ◌-◌, ◌*◌, ◌≤◌, ◌<◌, ◌≡◌, ap, ◌∙◌, inl, inr, List, Option, none, some, fun_ext,
  arith, ◌==◌, ltb, if◌then◌else◌, All, concat, Bool-cases, Option-cases,
}
use lmserve.KvWorker.Store.{BlockMapping, Dims, gpu_slot, for_mappings}
use lmserve.KvWorker.Host.{load_layer_from_host, save_layer_to_host}
use lmserve.KvWorker.Copy.{gpu, host}
use lmserve.KvWorker.Contents.{source_of, pick, for_mappings-Copies}
use lmserve.KvWorker.Directions.{
  view, InRange, slots_apart, load_host, save_host, load_host-IsDirection, save_host-IsDirection,
}
use lmserve.KvWorker.AnyOrder.{concat-All}
use lmserve.KvWorker.Refinement.{source_of-lt}
use lmserve.KvWorker.Handshake.Effects.{Running, layer_cache, write_layer, compute_layer}

-- A write of one layer in the flat memory is seen in that layer only.
pub view-write_layer :
    {A : Type 0} (d : Dims) (layer l b : ℕ) (new memory : ℕ → A)
    → b < d.num_gpu_blocks
    → write_layer d layer new memory (gpu_slot d l b)
      ≡ (if layer == l then new b else memory (gpu_slot d l b))
unfolding write_layer gpu_slot
view-write_layer d layer l b new memory h =
    let n = d.num_gpu_blocks in
    elim (Bool-cases (layer == l)) [
      | inl same ↦
          let e : layer ≡ l = ground arith in
          let p : layer * n ≡ l * n = ap (λ (t : ℕ). t * n) e in
          let q : l * n + b - (layer * n + 0) ≡ b = omega arith in ground (arith, p, q, ap new q)
      | inr other ↦
          let apart : (layer * n ≤ l * n + b) → (l * n + b < layer * n + n) → ⊥ = λ lo hi.
            let same =
              slots_apart n l layer b (l * n + b - layer * n) h (omega arith) (omega arith) in
            absurd (ground (arith, same.0)) in
          ground (arith, apart)
    ]

-- What the blocks below `n` hold.
unfoldable pub clip : {A : Type 0} → ℕ → (ℕ → A) → ℕ → Option A
clip n f b = if ltb b n then some (f b) else none

pub layer_cache-clip :
    {A : Type 0} (d : Dims) (layer : ℕ) (memory f : ℕ → A)
    → ((b : ℕ) → b < d.num_gpu_blocks → memory (gpu_slot d layer b) ≡ f b)
    → layer_cache d layer memory ≡ clip d.num_gpu_blocks f
unfolding layer_cache clip
layer_cache-clip d layer memory f h = fun_ext (λ b. ground (arith, h b))

module _ {X A : Type 0} (d : Dims) (run_layer : ℕ → X → (ℕ → Option A) → X × (ℕ → A))
    (loads saves : List BlockMapping) (m0 : Running X A) where
  abbrev pub loaded : ℕ → ℕ → A
  loaded b l = pick (source_of (concat loads) b) (view d gpu m0.store b l) (λ a. m0.store.host a l)

  unfoldable pub hidden_after : ℕ → X
  hidden_after zero = m0.hidden
  hidden_after (suc l) = (run_layer l (hidden_after l) (clip d.num_gpu_blocks (λ b. loaded b l))).0

  abbrev pub computed : ℕ → ℕ → A
  computed b l = (run_layer l (hidden_after l) (clip d.num_gpu_blocks (λ b. loaded b l))).1 b

  abbrev pub saved : ℕ → ℕ → A
  saved b l = pick (source_of (concat saves) b) (m0.store.host b l) (λ a. computed a l)

  -- So many layers have been loaded, computed and saved.
  pub record Progress (p c o : ℕ) (m : Running X A) : Type 0 where
    pub hidden : m.hidden ≡ hidden_after c
    pub on_gpu :
        (b l : ℕ)
        → b < d.num_gpu_blocks
        → l < d.num_layers
        → m.store.gpu (gpu_slot d l b) ≡ (
            if ltb l c
            then computed b l
            else if ltb l p
            then loaded b l
            else m0.store.gpu (gpu_slot d l b))
    pub on_host :
        (b l : ℕ)
        → b < d.num_host_blocks
        → l < d.num_layers
        → m.store.host b l ≡ (if ltb l o then saved b l else m0.store.host b l)
    pub on_disk : m.store.disk ≡ m0.store.disk

  module _ (in_loads : All (All (InRange d host gpu)) loads)
      (in_saves : All (All (InRange d gpu host)) saves) where
    pub Progress-load :
        (p c o : ℕ) (m : Running X A)
        → p < d.num_layers
        → c ≤ p
        → o ≤ p
        → Progress p c o m
        → Progress
            (suc p)
            c
            o
            (record m { store = (for_mappings (load_layer_from_host d p) loads m.store).1 })
    unfolding load_layer_from_host
    Progress-load p c o m room behind kept q =
        let copied =
          for_mappings-Copies (load_host d) (InRange d host gpu) (λ b. b < d.num_gpu_blocks)
            (load_host-IsDirection d) p loads m.store in_loads in
        let in_range = concat-All (InRange d host gpu) loads in_loads in
        record {
          hidden = q.hidden;
          on_gpu = λ b l hb hl.
              let old = q.on_gpu b l hb hl in
              let now = copied.target b l hb in
              elim (Option-cases (source_of (concat loads) b)) [
                | inl x ↦ ground (arith, old, now, x)
                | inr (a, x) ↦
                    let ha = source_of-lt host gpu d (concat loads) b a in_range x in
                    ground (arith, old, now, x, q.on_host a l ha hl)
              ];
          on_host = λ b l hb hl. ap (λ (f : ℕ → ℕ → A). f b l) copied.origin ∙ q.on_host b l hb hl;
          on_disk = copied.third ∙ q.on_disk;
        }

    pub Progress-compute :
        (p c o : ℕ) (m : Running X A)
        → ((b : ℕ) → (if ltb c p then loaded b c else m0.store.gpu (gpu_slot d c b)) ≡ loaded b c)
        → c < d.num_layers
        → Progress p c o m
        → Progress p (suc c) o (compute_layer d run_layer c m)
    unfolding compute_layer hidden_after
    Progress-compute p c o m ready room q =
        let reads : layer_cache d c m.store.gpu ≡ clip d.num_gpu_blocks (λ b. loaded b c) =
          layer_cache-clip d c m.store.gpu (λ b. loaded b c)
            (λ b hb. ground (arith, q.on_gpu b c hb room, ready b)) in
        let runs : run_layer c m.hidden (layer_cache d c m.store.gpu)
            ≡ run_layer c (hidden_after c) (clip d.num_gpu_blocks (λ b. loaded b c)) =
          rw (reads, q.hidden) in
        record {
          hidden = ap (λ (r : X × (ℕ → A)). r.0) runs;
          on_gpu = λ b l hb hl.
              let new = (run_layer c m.hidden (layer_cache d c m.store.gpu)).1 in
              let seen = view-write_layer d c l b new m.store.gpu hb in
              let value : new b ≡ computed b c = ap (λ (r : X × (ℕ → A)). r.1 b) runs in
              elim (Bool-cases (c == l)) [
                | inl same ↦
                    let e : c ≡ l = ground arith in
                    let there : new b ≡ computed b l = value ∙ ap (computed b) e in
                    ground (arith, seen, there)
                | inr other ↦ ground (arith, seen, q.on_gpu b l hb hl)
              ];
          on_host = q.on_host;
          on_disk = q.on_disk;
        }

    pub Progress-save :
        (p c o : ℕ) (m : Running X A)
        → o < c
        → Progress p c o m
        → Progress p c
            (suc o)
            (record m { store = (for_mappings (save_layer_to_host d o) saves m.store).1 })
    unfolding save_layer_to_host
    Progress-save p c o m ahead q =
        let copied =
          for_mappings-Copies (save_host d) (InRange d gpu host) (λ b. b < d.num_host_blocks)
            (save_host-IsDirection d) o saves m.store in_saves in
        let in_range = concat-All (InRange d gpu host) saves in_saves in
        record {
          hidden = q.hidden;
          on_gpu = λ b l hb hl. ap (λ (f : ℕ → ℕ → A). f b l) copied.origin ∙ q.on_gpu b l hb hl;
          on_host = λ b l hb hl.
              let old = q.on_host b l hb hl in
              let now = copied.target b l hb in
              elim (Option-cases (source_of (concat saves) b)) [
                | inl x ↦ ground (arith, old, now, x)
                | inr (a, x) ↦
                    let ha = source_of-lt gpu host d (concat saves) b a in_range x in
                    ground (arith, old, now, x, q.on_gpu a l ha hl)
              ];
          on_disk = copied.third ∙ q.on_disk;
        }
