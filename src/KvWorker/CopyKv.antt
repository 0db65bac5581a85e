-- ===== src/KvWorker/CopyKv.antt =====
-- What `copy_kv` does to the three levels of the cache.
use lmserve.Prelude.{
  ℕ, ◌+◌, ◌*◌, ◌≤◌, ◌∙◌, ◌<◌, ◌≡◌, ◌≢◌, refl, Bool, true, false, List, arith, ltb, if◌then◌else◌,
  All, concat, Result, ok,
}
use lmserve.KvWorker.Store.{BlockMapping, Dims, Store}
use lmserve.KvWorker.Host.{load_round, save_round, load_kv_blocks_from_host, save_kv_blocks_to_host}
use lmserve.KvWorker.DiskCopies.{load_disk-Copies, save_disk-Copies}
use lmserve.KvWorker.Copy.{Device, gpu, host, disk, copy_kv_op, copy_kv}
use lmserve.KvWorker.Contents.{source_of, pick, for_layers-Copies}
use lmserve.KvWorker.Directions.{
  view, size, InRange, load_host, save_host, load_host-IsDirection, save_host-IsDirection,
  load_round-Copies, save_round-Copies, taken,
}

-- The pairs of neighbouring levels.
abbrev pub supported : Device → Device → Bool
supported gpu host = true
supported host gpu = true
supported host disk = true
supported disk host = true
supported _ _ = false

-- The values that a copy takes from the queue of the model worker: a save from the GPU takes one for
-- each layer.
abbrev pub queued : Dims → List BlockMapping → Device → Device → ℕ
queued d ms gpu host = d.num_layers * taken ms
queued d ms _ _ = 0

module _ {A : Type 0} (d : Dims) where
  -- The outcome of a copy that succeeds.
  pub record Copied (ms : List BlockMapping) (src dst : Device) (s : Store A)
      (out : Result (Unit {0}) × Store A) : Type 0 where
    pub returns : out.0 ≡ ok tt
    pub queue : s.kv_queue ≡ queued d ms src dst + out.1.kv_queue
    pub contents :
        (b l : ℕ)
        → b < size d dst
        → view d dst out.1 b l ≡ (
            if ltb l d.num_layers
            then pick (source_of (concat ms) b) (view d dst s b l) (λ a. view d src s a l)
            else view d dst s b l)
    pub others : (dev : Device) → dev ≢ dst → view d dev out.1 ≡ view d dev s

  -- While no forward pass runs, in a supported direction with all blocks in range, and, from the GPU, with
  -- a value from the model worker in the queue for each layer, a copy succeeds: in every layer each block of the target that some
  -- entry names as its destination holds what the source had in the block that the last such entry
  -- names, every other block of the target keeps its content, and so do the other two levels of the
  -- cache; a copy from the GPU has taken one value from the queue for each layer, and the others none.
  pub copy_kv-contents :
      (ms : List BlockMapping) (src dst : Device) (s : Store A)
      → supported src dst ≡ true
      → All (All (InRange d src dst)) ms
      → queued d ms src dst ≤ s.kv_queue
      → Copied ms src dst s (copy_kv d ms src dst s)
  unfolding copy_kv copy_kv_op load_kv_blocks_from_host save_kv_blocks_to_host
  copy_kv-contents ms gpu host s supp h enough =
      let c =
        for_layers-Copies (save_host d) (InRange d gpu host) (λ b. b < size d host)
          (save_host-IsDirection d) (taken ms) (concat ms) (save_round d ms)
          (λ layer t some_left. save_round-Copies d ms layer t some_left h) d.num_layers 0 s
          enough in
      record {
        returns = c.returns;
        queue = c.queue;
        contents = λ b l hb. ground (arith, c.target b l hb);
        others = λ dev.
            elim dev as (λ v. v ≢ host → view d v (copy_kv d ms gpu host s).1 ≡ view d v s) [
              | gpu ↦ λ ne. c.origin
              | host ↦ λ ne. absurd (ne refl)
              | disk ↦ λ ne. c.third
            ];
      }
  copy_kv-contents ms host gpu s supp h enough =
      let c =
        for_layers-Copies (load_host d) (InRange d host gpu) (λ b. b < size d gpu)
          (load_host-IsDirection d) 0 (concat ms) (load_round d ms)
          (λ layer t some_left. load_round-Copies d ms layer t h) d.num_layers 0 s (omega arith) in
      record {
        returns = c.returns;
        queue = c.queue ∙ omega arith;
        contents = λ b l hb. ground (arith, c.target b l hb);
        others = λ dev.
            elim dev as (λ v. v ≢ gpu → view d v (copy_kv d ms host gpu s).1 ≡ view d v s) [
              | gpu ↦ λ ne. absurd (ne refl)
              | host ↦ λ ne. c.origin
              | disk ↦ λ ne. c.third
            ];
      }
  copy_kv-contents ms host disk s supp h enough =
      let c = save_disk-Copies d ms s h in
      record {
        returns = c.returns;
        queue = c.queue ∙ omega arith;
        contents = λ b l hb. ground (arith, c.target b l hb);
        others = λ dev.
            elim dev as (λ v. v ≢ disk → view d v (copy_kv d ms host disk s).1 ≡ view d v s) [
              | gpu ↦ λ ne. c.third
              | host ↦ λ ne. c.origin
              | disk ↦ λ ne. absurd (ne refl)
            ];
      }
  copy_kv-contents ms disk host s supp h enough =
      let c = load_disk-Copies d ms s h in
      record {
        returns = c.returns;
        queue = c.queue ∙ omega arith;
        contents = λ b l hb. ground (arith, c.target b l hb);
        others = λ dev.
            elim dev as (λ v. v ≢ host → view d v (copy_kv d ms disk host s).1 ≡ view d v s) [
              | gpu ↦ λ ne. c.third
              | host ↦ λ ne. absurd (ne refl)
              | disk ↦ λ ne. c.origin
            ];
      }
  copy_kv-contents ms gpu gpu s supp h enough = cc
  copy_kv-contents ms gpu disk s supp h enough = cc
  copy_kv-contents ms host host s supp h enough = cc
  copy_kv-contents ms disk gpu s supp h enough = cc
  copy_kv-contents ms disk disk s supp h enough = cc
