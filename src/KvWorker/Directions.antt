-- ===== src/KvWorker/Directions.antt =====
-- The four directions of `copy_kv`: each is a copy of rows between two levels of the cache.
use lmserve.Prelude.{
  ℕ, ◌+◌, ◌*◌, ◌/◌, ◌%◌, ◌<◌, ◌≤◌, ◌-◌, false, ◌≡◌, refl, ap, sym, ◌∙◌, inl, inr, ◌&&◌, List, [],
  ◌∷◌, ◌++◌, arith, ◌==◌, All, concat, Bool-cases, div_mod_unique,
}
use lmserve.KvWorker.Store.{
  get_kv_queue, wait_post_event, Entry, BlockMapping, Dims, Store, gpu_slot, host_check, disk_check,
  both, take_kv_queue,
}
use lmserve.KvWorker.Host.{load_entry_from_host, save_entry_to_host, load_round, save_round}
use lmserve.KvWorker.Disk.{read_disk_entry, write_disk_entry}
use lmserve.KvWorker.Copy.{Device, gpu, host, disk}
use lmserve.KvWorker.Contents.{source_of, Direction, IsDirection, Copies, for_mappings-Copies}

-- What block `b` holds in layer `l`, and how many blocks there are, on each device.
abbrev pub view : {A : Type 0} → Dims → Device → Store A → ℕ → ℕ → A
view d gpu s b l = s.gpu (gpu_slot d l b)
view d host s b l = s.host b l
view d disk s b l = s.disk b l

abbrev pub size : Dims → Device → ℕ
size d gpu = d.num_gpu_blocks
size d host = d.num_host_blocks
size d disk = d.num_disk_blocks

abbrev pub InRange : Dims → Device → Device → Entry → Type 0
InRange d src dst e = (e.src_block_id < size d src) × (e.dst_block_id < size d dst)

-- Slots of blocks in range are apart.
pub slots_apart : (n l l' b b' : ℕ) → b < n → b' < n → l * n + b ≡ l' * n + b' → (l ≡ l') × (b ≡ b')
slots_apart n l l' b b' h h' e =
    let one = div_mod_unique l b n (l * n + b) h refl in
    let two = div_mod_unique l' b' n (l' * n + b') h' refl in
    (sym one.0 ∙ ap (λ (t : ℕ). t / n) e ∙ two.0, sym one.1 ∙ ap (λ (t : ℕ). t % n) e ∙ two.1)

slot_eq :
    (d : Dims) (l l' b b' : ℕ)
    → b < d.num_gpu_blocks
    → b' < d.num_gpu_blocks
    → (gpu_slot d l b == gpu_slot d l' b') ≡ ((b == b') && (l == l'))
unfolding gpu_slot
slot_eq d l l' b b' h h' =
    let n = d.num_gpu_blocks in
    elim (Bool-cases (gpu_slot d l b == gpu_slot d l' b')) [
      | inl x ↦
          let same = slots_apart n l l' b b' h h' (ground arith) in ground (arith, same.0, same.1)
      | inr x ↦ elim (Bool-cases ((b == b') && (l == l'))) [
        | inl y ↦
            let p : l ≡ l' = ground arith in
            let q : b ≡ b' = ground arith in
            let r : l * n + b ≡ l' * n + b' =
              ap (λ (t : ℕ). t * n + b) p ∙ ap (λ (t : ℕ). l' * n + t) q in
            ground (arith, r)
        | inr y ↦ rw (x, y)
      ]
    ]

-- The values that a save takes from the queue in each layer.
abbrev pub taken : List BlockMapping → ℕ
taken [] = 0
taken (m ∷ ms) = 1

module _ {A : Type 0} (d : Dims) where
  abbrev pub load_host : Direction A
  load_host = record {
    target = view d gpu;
    origin = view d host;
    third = view d disk;
    check = λ e. host_check d e.src_block_id;
    write = load_entry_from_host d;
  }

  abbrev pub save_host : Direction A
  save_host = record {
    target = view d host;
    origin = view d gpu;
    third = view d disk;
    check = λ e. host_check d e.dst_block_id;
    write = save_entry_to_host d;
  }

  abbrev pub load_disk : Direction A
  load_disk = record {
    target = view d host;
    origin = view d disk;
    third = view d gpu;
    check = λ e. both (disk_check d e.src_block_id) (host_check d e.dst_block_id);
    write = read_disk_entry d;
  }

  abbrev pub save_disk : Direction A
  save_disk = record {
    target = view d disk;
    origin = view d host;
    third = view d gpu;
    check = λ e. both (host_check d e.src_block_id) (disk_check d e.dst_block_id);
    write = write_disk_entry d;
  }

  pub load_host-IsDirection : IsDirection load_host (InRange d host gpu) (λ b. b < d.num_gpu_blocks)
  unfolding host_check load_entry_from_host
  load_host-IsDirection = record {
    allowed = λ e h. ground arith;
    writes = λ layer e s b l h hb. ground (arith, slot_eq d layer l e.dst_block_id b h.1 hb);
    keeps_origin = λ layer e s. refl;
    keeps_third = λ layer e s. refl;
    keeps_queue = λ layer e s. refl;
  }

  pub save_host-IsDirection :
      IsDirection save_host (InRange d gpu host) (λ b. b < d.num_host_blocks)
  unfolding host_check save_entry_to_host
  save_host-IsDirection = record {
    allowed = λ e h. ground arith;
    writes = λ layer e s b l h hb. ground arith;
    keeps_origin = λ layer e s. refl;
    keeps_third = λ layer e s. refl;
    keeps_queue = λ layer e s. refl;
  }

  pub load_disk-IsDirection :
      IsDirection load_disk (InRange d disk host) (λ b. b < d.num_host_blocks)
  unfolding host_check disk_check both read_disk_entry
  load_disk-IsDirection = record {
    allowed = λ e h. ground arith;
    writes = λ layer e s b l h hb. ground arith;
    keeps_origin = λ layer e s. refl;
    keeps_third = λ layer e s. refl;
    keeps_queue = λ layer e s. refl;
  }

  pub save_disk-IsDirection :
      IsDirection save_disk (InRange d host disk) (λ b. b < d.num_disk_blocks)
  unfolding host_check disk_check both write_disk_entry
  save_disk-IsDirection = record {
    allowed = λ e h. ground arith;
    writes = λ layer e s b l h hb. ground arith;
    keeps_origin = λ layer e s. refl;
    keeps_third = λ layer e s. refl;
    keeps_queue = λ layer e s. refl;
  }

  pub load_round-Copies :
      (ms : List BlockMapping) (layer : ℕ) (s : Store A)
      → All (All (InRange d host gpu)) ms
      → Copies load_host
          (λ b. b < d.num_gpu_blocks)
          0
          (concat ms)
          layer
          1
          s
          (load_round d ms layer s)
  unfolding load_round source_of
  load_round-Copies [] layer s h = record {
    returns = refl;
    origin = refl;
    third = refl;
    queue = omega arith;
    target = λ b l hb. ground arith;
  }
  load_round-Copies (m ∷ ms) layer s h =
      let one =
        for_mappings-Copies load_host (InRange d host gpu) (λ b. b < d.num_gpu_blocks)
          load_host-IsDirection layer (m ∷ ms) s h in
      rw one.returns (record {
        returns = refl;
        origin = one.origin;
        third = one.third;
        queue = one.queue;
        target = one.target;
      })

  pub save_round-Copies :
      (ms : List BlockMapping) (layer : ℕ) (s : Store A)
      → taken ms ≤ s.kv_queue
      → All (All (InRange d gpu host)) ms
      → Copies save_host
          (λ b. b < d.num_host_blocks)
          (taken ms)
          (concat ms)
          layer
          1
          s
          (save_round d ms layer s)
  unfolding save_round take_kv_queue source_of
  save_round-Copies [] layer s some_left h = record {
    returns = refl;
    origin = refl;
    third = refl;
    queue = omega arith;
    target = λ b l hb. ground arith;
  }
  save_round-Copies (m ∷ ms) layer s some_left h =
      let s' = record s {
        signals = s.signals ++ get_kv_queue ∷ wait_post_event layer ∷ [];
        kv_queue = s.kv_queue - 1;
      } in
      let one =
        for_mappings-Copies save_host (InRange d gpu host) (λ b. b < d.num_host_blocks)
          save_host-IsDirection layer (m ∷ ms) s' h in
      let filled : (s.kv_queue == 0) ≡ false = ground arith in
      rw filled (record {
        returns = one.returns;
        origin = one.origin;
        third = one.third;
        queue = omega (arith, one.queue);
        target = one.target;
      })
