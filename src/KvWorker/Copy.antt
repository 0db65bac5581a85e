-- ===== src/KvWorker/Copy.antt =====
-- `copy_kv`: the table `COPY_KV_OP_MAP` and its four entries.
use lmserve.Prelude.{List, Option, none, some, raise, value_error}
use lmserve.KvWorker.Store.{BlockMapping, Dims, Exec}
use lmserve.KvWorker.Host.{load_kv_blocks_from_host, save_kv_blocks_to_host}
use lmserve.KvWorker.Disk.{load_kv_blocks_from_disk, save_kv_blocks_to_disk}

pub data Device : Type 0 where
  gpu host disk : Device

module _ {A : Type 0} (d : Dims) where
  unfoldable pub copy_kv_op : Device → Device → Option (List BlockMapping → Exec A)
  copy_kv_op gpu host = some (save_kv_blocks_to_host d)
  copy_kv_op host gpu = some (load_kv_blocks_from_host d)
  copy_kv_op host disk = some (save_kv_blocks_to_disk d)
  copy_kv_op disk host = some (load_kv_blocks_from_disk d)
  copy_kv_op _ _ = none

  unfoldable pub copy_kv : List BlockMapping → Device → Device → Exec A
  unfolding copy_kv_op save_kv_blocks_to_host load_kv_blocks_from_host save_kv_blocks_to_disk
      load_kv_blocks_from_disk
  copy_kv ms src dst s = elim (copy_kv_op src dst) [
    | none ↦ (raise value_error, s)
    | some op ↦ op ms s
  ]
