-- ===== src/KvWorker/Handshake/Overlap.antt =====
-- Loading, computing and saving of layers that overlap, against the three of them one after the other.
use lmserve.Prelude.{
  ℕ, zero, suc, ◌+◌, ◌<◌, ◌≤◌, ◌≡◌, refl, sym, ap, ◌∙◌, inl, inr, List, Option, arith, ltb,
  if◌then◌else◌, All, concat, Option-cases, List-cases,
}
use lmserve.KvWorker.Store.{BlockMapping, Dims, gpu_slot}
use lmserve.KvWorker.Copy.{gpu, host, disk, copy_kv}
use lmserve.KvWorker.Contents.{source_of}
use lmserve.KvWorker.Directions.{InRange}
use lmserve.KvWorker.CopyKv.{queued, copy_kv-contents}
use lmserve.KvWorker.AnyOrder.{concat-All}
use lmserve.KvWorker.Refinement.{source_of-lt}
use lmserve.KvWorker.Handshake.{
  Handshake, Hooked, Step, copy_in, record_pre, put_model, get_model, wait_pre, compute,
  record_post, put_kv, get_kv, wait_post, copy_out, Reach, here, next, Finished,
}
use lmserve.KvWorker.Handshake.Order.{Ordered, Reach-Ordered}
use lmserve.KvWorker.Handshake.Effects.{
  nonempty, asked, Running, compute_layer, compute_layers, one_by_one, effect, overlapped,
}
use lmserve.KvWorker.Handshake.Layers.{
  loaded, hidden_after, saved, Progress, Progress-load, Progress-compute, Progress-save,
}

-- The same hidden states, and the same blocks on every device.
pub record Agrees {X A : Type 0} (d : Dims) (m m' : Running X A) : Type 0 where
  pub hidden : m.hidden ≡ m'.hidden
  pub on_gpu :
      (b l : ℕ)
      → b < d.num_gpu_blocks
      → l < d.num_layers
      → m.store.gpu (gpu_slot d l b) ≡ m'.store.gpu (gpu_slot d l b)
  pub on_host :
      (b l : ℕ) → b < d.num_host_blocks → l < d.num_layers → m.store.host b l ≡ m'.store.host b l
  pub on_disk : m.store.disk ≡ m'.store.disk

module _ {X A : Type 0} (d : Dims) (run_layer : ℕ → X → (ℕ → Option A) → X × (ℕ → A))
    (loads saves : List BlockMapping) (in_loads : All (All (InRange d host gpu)) loads)
    (in_saves : All (All (InRange d gpu host)) saves) (m0 : Running X A) where
  abbrev Made : ℕ → ℕ → ℕ → Running X A → Type 0
  Made = Progress d run_layer loads saves m0

  -- A layer that the model may compute is loaded, or there is nothing to load.
  ready :
      (s : Handshake)
      → Hooked (nonempty loads) (s.computed < s.waited_pre)
      → Ordered (asked d loads saves) s
      → (b : ℕ)
      → (if ltb s.computed s.copied_in
          then loaded d run_layer loads saves m0 b s.computed
          else m0.store.gpu (gpu_slot d s.computed b))
        ≡ loaded d run_layer loads saves m0 b s.computed
  unfolding source_of
  ready s hook o b = elim (List-cases loads) [
    | inl none_asked ↦ rw none_asked (ground arith)
    | inr (x, rest, some_asked) ↦
        let waits : s.computed < s.waited_pre = rw some_asked at hook in
        ground (arith, waits, o.loading, o.pre)
  ]

  Step-Made :
      {s t : Handshake} (step : Step (asked d loads saves) s t) (m : Running X A)
      → Ordered (asked d loads saves) s
      → Made s.copied_in s.computed s.copied_out m
      → Made t.copied_in t.computed t.copied_out (effect d run_layer loads saves step m)
  unfolding effect
  Step-Made (copy_in s a b c) m o q =
      Progress-load d run_layer loads saves m0 in_loads in_saves s.copied_in s.computed s.copied_out
        m c (ground (arith, a)) (ground (arith, a)) q
  Step-Made (record_pre s a) m o q = q
  Step-Made (put_model s a) m o q = q
  Step-Made (get_model s a b c e f) m o q = q
  Step-Made (wait_pre s a) m o q = q
  Step-Made (compute s a b c) m o q =
      Progress-compute d run_layer loads saves m0 in_loads in_saves s.copied_in s.computed
        s.copied_out m (ready s b o) a q
  Step-Made (record_post s a b) m o q = q
  Step-Made (put_kv s a) m o q = q
  Step-Made (get_kv s a b c e) m o q = q
  Step-Made (wait_post s a) m o q = q
  Step-Made (copy_out s a) m o q =
      Progress-save d run_layer loads saves m0 in_loads in_saves s.copied_in s.computed s.copied_out
        m (ground arith) q

  overlapped-Made :
      (k : ℕ) (s : Handshake) (h : Reach (asked d loads saves) k s)
      → Made s.copied_in s.computed s.copied_out (overlapped d run_layer loads saves h m0)
  unfolding overlapped hidden_after
  overlapped-Made _ _ here = record {
    hidden = refl;
    on_gpu = λ b l hb hl. ground arith;
    on_host = λ b l hb hl. ground arith;
    on_disk = refl;
  }
  overlapped-Made _ _ (next {k} {s} h step) =
      Step-Made step (overlapped d run_layer loads saves h m0) (Reach-Ordered h)
        (overlapped-Made k s h)

  -- One after the other.
  all_loaded : Made d.num_layers 0 0 (record m0 { store = (copy_kv d loads host gpu m0.store).1 })
  unfolding hidden_after
  all_loaded =
      let copied = copy_kv-contents d loads host gpu m0.store refl in_loads (omega arith) in
      record {
        hidden = refl;
        on_gpu = λ b l hb hl. ground (arith, copied.contents b l hb);
        on_host = λ b l hb hl.
            ap (λ (f : ℕ → ℕ → A). f b l) (copied.others host (λ e. cc)) ∙ ground arith;
        on_disk = copied.others disk (λ e. cc);
      }

  all_computed :
      (n layer : ℕ) (m : Running X A)
      → layer + n ≡ d.num_layers
      → Made d.num_layers layer 0 m
      → Made d.num_layers d.num_layers 0 (compute_layers d run_layer n layer m)
  unfolding compute_layers
  all_computed zero layer m e q = let l : layer ≡ d.num_layers = omega arith in rw l at q
  all_computed (suc n) layer m e q =
      all_computed n (suc layer) (compute_layer d run_layer layer m) (omega arith) (
        Progress-compute d run_layer loads saves m0 in_loads in_saves d.num_layers layer 0 m
          (λ b. ground arith) (omega arith) q)

  enough : (more : ℕ) → queued d saves gpu host ≤ more + d.num_layers
  enough more = elim (List-cases saves) [
    | inl none_asked ↦ rw none_asked (omega arith)
    | inr (x, rest, some_asked) ↦ rw some_asked (omega arith)
  ]

  one_by_one-Made :
      Made d.num_layers d.num_layers d.num_layers (one_by_one d run_layer loads saves m0)
  unfolding one_by_one
  one_by_one-Made =
      let start = record m0 { store = (copy_kv d loads host gpu m0.store).1 } in
      let ran = compute_layers d run_layer d.num_layers 0 start in
      let q = all_computed d.num_layers 0 start (omega arith) all_loaded in
      let put = record ran.store { kv_queue = ran.store.kv_queue + d.num_layers } in
      let copied =
        copy_kv-contents d saves gpu host put refl in_saves (enough ran.store.kv_queue) in
      let in_range = concat-All (InRange d gpu host) saves in_saves in
      record {
        hidden = q.hidden;
        on_gpu = λ b l hb hl.
            ap (λ (f : ℕ → ℕ → A). f b l) (copied.others gpu (λ e. cc)) ∙ q.on_gpu b l hb hl;
        on_host = λ b l hb hl.
            let old = q.on_host b l hb hl in
            let now = copied.contents b l hb in
            elim (Option-cases (source_of (concat saves) b)) [
              | inl x ↦ ground (arith, old, now, x)
              | inr (a, x) ↦
                  let ha = source_of-lt gpu host d (concat saves) b a in_range x in
                  ground (arith, old, now, x, q.on_gpu a l ha hl)
            ];
        on_disk = copied.others disk (λ e. cc) ∙ q.on_disk;
      }

  -- Without mappings to save a saved layer is as it was.
  saved_or_kept :
      (s : Handshake) (b l : ℕ)
      → Finished (asked d loads saves) s
      → l < d.num_layers
      → (if ltb l s.copied_out then saved d run_layer loads saves m0 b l else m0.store.host b l)
        ≡ saved d run_layer loads saves m0 b l
  unfolding source_of
  saved_or_kept s b l done hl = elim (List-cases saves) [
    | inl none_asked ↦ rw none_asked (ground arith)
    | inr (x, rest, some_asked) ↦
        let all : s.copied_out ≡ d.num_layers = done.saved (ap nonempty some_asked) in
        ground (arith, all)
  ]

  -- For a request whose flags say which mappings there are, when all blocks are in range: in every
  -- interleaving that finishes, the hidden states of the model and every block of the GPU, the host and the disk are what they are
  -- after all copies to the GPU, then the whole model, then all copies to the host.
  pub overlapped-one_by_one :
      (k : ℕ) (s : Handshake) (h : Reach (asked d loads saves) k s)
      → Finished (asked d loads saves) s
      → Agrees d (overlapped d run_layer loads saves h m0) (one_by_one d run_layer loads saves m0)
  overlapped-one_by_one k s h done =
      let q = overlapped-Made k s h in
      let r = one_by_one-Made in
      record {
        hidden = q.hidden ∙ ap (hidden_after d run_layer loads saves m0) done.ran ∙ sym r.hidden;
        on_gpu = λ b l hb hl. ground (arith, q.on_gpu b l hb hl, r.on_gpu b l hb hl, done.ran);
        on_host = λ b l hb hl.
            ground (arith, q.on_host b l hb hl, saved_or_kept s b l done hl, r.on_host b l hb hl);
        on_disk = q.on_disk ∙ sym r.on_disk;
      }
