-- ===== src/KvWorker.antt =====
-- The KV worker of runtime/worker/llm_worker/kv_worker.py: the three levels of the cache, the copies
-- between them, the handshake with the model worker, and the transfers between workers.
pub mod DiskFile
pub mod Store
pub mod Host
pub mod Disk
pub mod Copy
pub mod Contents
pub mod Directions
pub mod DiskCopies
pub mod CopyKv
pub mod Threads
pub mod ThreadSteps
pub mod AnyOrder
pub mod Table
pub mod Refinement
pub mod RoundTrip
pub mod Start
pub mod Addresses
pub mod SharedMemory
pub mod Handshake
pub mod Transfer
mod CopyTests
mod Tests
