-- ===== src/KvWorker/CopyTests.antt =====
-- Witnesses on the tasks of the disk copies: the threads in one order.
use lmserve.Prelude.{ℕ, zero, suc, ◌≤◌, ◌<◌, List, [], ◌∷◌, arith, All}
use lmserve.KvWorker.Copy.{host, disk}
use lmserve.KvWorker.Directions.{InRange, load_disk}
use lmserve.KvWorker.Disk.{load_kv_blocks_from_disk}
use lmserve.KvWorker.Threads.{run_tasks, start_tasks, steps_of}
use lmserve.KvWorker.AnyOrder.{Agrees, load_tasks-Agrees}
use lmserve.KvWorker.Tests.{dims, content, mapping}

-- The second layer starts and ends first.
abbrev schedule : List ℕ
schedule = 1 ∷ 0 ∷ 1 ∷ 0 ∷ []

enough : (l : ℕ) → l < 2 → 2 ≤ steps_of l schedule
enough zero h = omega arith
enough (suc zero) h = omega arith
enough (suc (suc l)) h = absurd (omega arith)

from_disk : All (InRange dims disk host) mapping
from_disk = ((omega arith, omega arith), ((omega arith, omega arith), tt))

load_tasks-Agrees_example :
    Agrees
      (load_disk dims)
      (λ b. b < 6)
      (run_tasks (load_disk dims) schedule (start_tasks 2 (mapping ∷ []) content))
      (load_kv_blocks_from_disk dims (mapping ∷ []) content)
load_tasks-Agrees_example =
    load_tasks-Agrees dims (mapping ∷ []) content schedule enough (from_disk, tt)
