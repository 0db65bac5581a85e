-- ===== src/KvWorker/DiskCopies.antt =====
-- What the two copies between host and disk leave, with their tasks one after another.
use lmserve.Prelude.{◌<◌, List, All, concat, arith}
use lmserve.KvWorker.Store.{BlockMapping, Dims, Store}
use lmserve.KvWorker.Disk.{
  load_layer_from_disk, save_layer_to_disk, load_kv_blocks_from_disk, save_kv_blocks_to_disk,
}
use lmserve.KvWorker.Copy.{host, disk}
use lmserve.KvWorker.Directions.{
  InRange, load_disk, save_disk, load_disk-IsDirection, save_disk-IsDirection,
}
use lmserve.KvWorker.Contents.{Copies, gather-Copies, for_mappings-Copies}

module _ {A : Type 0} (d : Dims) (ms : List BlockMapping) (s : Store A) where
  pub load_disk-Copies :
      All (All (InRange d disk host)) ms
      → Copies
          (load_disk d)
          (λ b. b < d.num_host_blocks)
          0
          (concat ms)
          0
          d.num_layers
          s
          (load_kv_blocks_from_disk d ms s)
  unfolding load_kv_blocks_from_disk load_layer_from_disk
  load_disk-Copies h =
      gather-Copies (load_disk d) (InRange d disk host) (λ b. b < d.num_host_blocks)
        (load_disk-IsDirection d) 0 (concat ms) (load_layer_from_disk d ms)
        (λ layer t some_left.
          for_mappings-Copies (load_disk d) (InRange d disk host) (λ b. b < d.num_host_blocks)
            (load_disk-IsDirection d) layer ms t h)
        d.num_layers 0 s (omega arith)

  pub save_disk-Copies :
      All (All (InRange d host disk)) ms
      → Copies
          (save_disk d)
          (λ b. b < d.num_disk_blocks)
          0
          (concat ms)
          0
          d.num_layers
          s
          (save_kv_blocks_to_disk d ms s)
  unfolding save_kv_blocks_to_disk save_layer_to_disk
  save_disk-Copies h =
      gather-Copies (save_disk d) (InRange d host disk) (λ b. b < d.num_disk_blocks)
        (save_disk-IsDirection d) 0 (concat ms) (save_layer_to_disk d ms)
        (λ layer t some_left.
          for_mappings-Copies (save_disk d) (InRange d host disk) (λ b. b < d.num_disk_blocks)
            (save_disk-IsDirection d) layer ms t h)
        d.num_layers 0 s (omega arith)
