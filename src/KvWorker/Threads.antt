-- ===== src/KvWorker/Threads.antt =====
-- The pool of threads of the copies between host and disk: the tasks of the layers take their steps in
-- any order.
use lmserve.Prelude.{ℕ, ◌+◌, List, [], ◌∷◌, ◌==◌, ltb, if◌then◌else◌, concat, Result, ok, raise}
use lmserve.KvWorker.Store.{Entry, BlockMapping, Store, both}
use lmserve.KvWorker.Contents.{Direction}

-- The entries that the task of each layer has not copied, the store that the tasks share, and what
-- `asyncio.gather` will raise.
pub record Tasks (A : Type 0) : Type 0 where
  pub pending : ℕ → List Entry
  pub store : Store A
  pub outcome : Result (Unit {0})

module _ {A : Type 0} (D : Direction A) where
  abbrev pub set_pending : (ℕ → List Entry) → ℕ → List Entry → ℕ → List Entry
  set_pending pending layer es l = if layer == l then es else pending l

  -- One entry of the task of a layer; an exception ends the task.
  unfoldable pub task_step : ℕ → Tasks A → Tasks A
  unfolding both
  task_step layer t = elim (t.pending layer) [
    | [] ↦ t
    | e ∷ es ↦ elim (D.check e) [
      | ok _ ↦ record t {
        pending = set_pending t.pending layer es;
        store = D.write layer e t.store;
      }
      | raise error ↦ record t {
        pending = set_pending t.pending layer [];
        outcome = both t.outcome (raise error);
      }
    ]
  ]

  -- The steps in the order in which the threads take them, each by the layer of its task.
  unfoldable pub run_tasks : List ℕ → Tasks A → Tasks A
  unfolding task_step
  run_tasks [] t = t
  run_tasks (layer ∷ schedule) t = run_tasks schedule (task_step layer t)

module _ {A : Type 0} where
  -- One task for each layer.
  unfoldable pub start_tasks : ℕ → List BlockMapping → Store A → Tasks A
  start_tasks num_layers ms s = record {
    pending = λ layer. if ltb layer num_layers then concat ms else [];
    store = s;
    outcome = ok tt;
  }

-- The number of steps of a schedule that a layer gets.
abbrev pub steps_of : ℕ → List ℕ → ℕ
steps_of layer [] = 0
steps_of layer (l ∷ schedule) = (if l == layer then 1 else 0) + steps_of layer schedule
