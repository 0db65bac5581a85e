-- ===== src/KvWorker/DiskFile.antt =====
-- `memmap_disk_kv_cache`: the file that holds the disk cache. A file that numpy cannot load is broken;
-- a new one is filled with zeros.
use lmserve.Prelude.{ℕ, Bool, ◌&&◌, ◌==◌, if◌then◌else◌}

-- The shape, of blocks, layers and the elements of a row, and the type of the elements.
pub record CacheFormat : Type 0 where
  pub num_blocks : ℕ
  pub num_layers : ℕ
  pub block_size : ℕ
  pub dtype : ℕ

pub data CacheFile (Content : Type 0) : Type 0 where
  missing : CacheFile Content
  broken : CacheFile Content
  cache : CacheFormat → Content → CacheFile Content

-- `kv_cache.shape != shape or kv_cache.dtype != np.dtype(dtype)`, negated.
unfoldable pub same_format : CacheFormat → CacheFormat → Bool
same_format f g =
    (f.num_blocks == g.num_blocks)
    && (f.num_layers == g.num_layers)
    && (f.block_size == g.block_size)
    && (f.dtype == g.dtype)

module _ {Content : Type 0} (zeros : CacheFormat → Content) where
  -- The file afterwards, which is mapped into memory.
  unfoldable pub memmap_disk_kv_cache : CacheFile Content → CacheFormat → CacheFormat × Content
  unfolding same_format
  memmap_disk_kv_cache missing format = (format, zeros format)
  memmap_disk_kv_cache broken format = (format, zeros format)
  memmap_disk_kv_cache (cache found content) format =
      if same_format found format then (found, content) else (format, zeros format)
