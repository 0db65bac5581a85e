-- ===== src/KvWorker/AnyOrder.antt =====
-- The tasks of a pool of threads leave what they leave one after another.
use lmserve.Prelude.{
  ℕ, ◌<◌, ◌≤◌, ◌≡◌, subst, sym, ◌∙◌, inl, inr, ◌++◌, List, [], ◌∷◌, length, nil_of_length, arith,
  ltb, All, concat, Result, Bool-cases,
}
use lmserve.KvWorker.Store.{Entry, BlockMapping, Dims, Store}
use lmserve.KvWorker.Disk.{load_kv_blocks_from_disk, save_kv_blocks_to_disk}
use lmserve.KvWorker.Copy.{host, disk}
use lmserve.KvWorker.Directions.{
  InRange, load_disk, save_disk, load_disk-IsDirection, save_disk-IsDirection,
}
use lmserve.KvWorker.Contents.{source_of, pick, Direction, IsDirection, Copies}
use lmserve.KvWorker.DiskCopies.{load_disk-Copies, save_disk-Copies}
use lmserve.KvWorker.Threads.{Tasks, run_tasks, start_tasks, steps_of}
use lmserve.KvWorker.ThreadSteps.{final, AllValid, run_tasks-Kept}

append-All {ℓ κ} :
    {A : Type ℓ} (P : A → Type κ) (xs ys : List A) → All P xs → All P ys → All P (xs ++ ys)
append-All P [] ys hx hy = hy
append-All P (x ∷ xs) ys hx hy = (hx.0, append-All P xs ys hx.1 hy)

pub concat-All {ℓ κ} :
    {A : Type ℓ} (P : A → Type κ) (ls : List (List A)) → All (All P) ls → All P (concat ls)
concat-All P [] h = tt
concat-All P (l ∷ ls) h = append-All P l (concat ls) h.0 (concat-All P ls h.1)

-- Two runs end with one outcome and with one content in the blocks within the bound.
pub record Agrees {A : Type 0} (D : Direction A) (Bound : ℕ → Type 0) (t : Tasks A)
    (out : Result (Unit {0}) × Store A) : Type 0 where
  pub outcome : t.outcome ≡ out.0
  pub origin : D.origin t.store ≡ D.origin out.1
  pub third : D.third t.store ≡ D.third out.1
  pub target : (b l : ℕ) → Bound b → D.target t.store b l ≡ D.target out.1 b l

module _ {A : Type 0} (D : Direction A) (Valid : Entry → Type 0) (Bound : ℕ → Type 0)
    (law : IsDirection D Valid Bound) (num_layers : ℕ) (ms : List BlockMapping) (s : Store A)
    (valid : All (All Valid) ms) (schedule : List ℕ)
    (enough : (l : ℕ) → l < num_layers → length (concat ms) ≤ steps_of l schedule) where
  start_valid : AllValid D Valid Bound law (start_tasks num_layers ms s)
  unfolding start_tasks
  start_valid layer = elim (Bool-cases (ltb layer num_layers)) [
    | inl x ↦ rw x (concat-All Valid ms valid)
    | inr x ↦ rw x tt
  ]

  -- No task has an entry left.
  all_done : (l : ℕ) → (run_tasks D schedule (start_tasks num_layers ms s)).pending l ≡ []
  unfolding start_tasks
  all_done l =
      let kept =
        run_tasks-Kept D Valid Bound law schedule (start_tasks num_layers ms s) start_valid in
      nil_of_length _ (elim (Bool-cases (ltb l num_layers)) [
        | inl x ↦ ground (arith, kept.left l, enough l, x)
        | inr x ↦ ground (arith, kept.left l, x)
      ])

  run_tasks-Agrees :
      (out : Result (Unit {0}) × Store A)
      → Copies D Bound 0 (concat ms) 0 num_layers s out
      → Agrees D Bound (run_tasks D schedule (start_tasks num_layers ms s)) out
  unfolding start_tasks source_of
  run_tasks-Agrees out c =
      let kept =
        run_tasks-Kept D Valid Bound law schedule (start_tasks num_layers ms s) start_valid in
      record {
        outcome = kept.outcome ∙ sym c.returns;
        origin = kept.origin ∙ sym c.origin;
        third = kept.third ∙ sym c.third;
        target = λ b l hb.
            let ended = kept.target b l hb in
            let left = all_done l in
            let copied = c.target b l hb in
            let whole : D.target (run_tasks D schedule (start_tasks num_layers ms s)).store b l
                ≡ final D Valid Bound law (start_tasks num_layers ms s) b l =
              subst
                (λ es.
                  pick (source_of es b)
                    (D.target (run_tasks D schedule (start_tasks num_layers ms s)).store b l)
                    (λ src.
                      D.origin (run_tasks D schedule (start_tasks num_layers ms s)).store src l)
                  ≡ final D Valid Bound law (start_tasks num_layers ms s) b l)
                left ended in
            whole ∙ elim (Bool-cases (ltb l num_layers)) [
              | inl x ↦ ground (arith, x, copied)
              | inr x ↦ ground (arith, x, copied)
            ];
      }

module _ {A : Type 0} (d : Dims) (ms : List BlockMapping) (s : Store A) (schedule : List ℕ)
    (enough : (l : ℕ) → l < d.num_layers → length (concat ms) ≤ steps_of l schedule) where
  -- In whatever order the threads of the pool take the steps of the layers' tasks, if all blocks are
  -- in range and the schedule has as many steps for each layer as there are entries, then a copy
  -- from the disk to the host ends with the outcome of the tasks one after another, which is that
  -- it returns, and with the same content of all blocks of the host, of the disk and of the GPU.
  pub load_tasks-Agrees :
      All (All (InRange d disk host)) ms
      → Agrees
          (load_disk d)
          (λ b. b < d.num_host_blocks)
          (run_tasks (load_disk d) schedule (start_tasks d.num_layers ms s))
          (load_kv_blocks_from_disk d ms s)
  load_tasks-Agrees h =
      run_tasks-Agrees (load_disk d) (InRange d disk host) (λ b. b < d.num_host_blocks)
        (load_disk-IsDirection d) d.num_layers ms s h schedule enough
        (load_kv_blocks_from_disk d ms s) (load_disk-Copies d ms s h)

  -- The same of a copy from the host to the disk.
  pub save_tasks-Agrees :
      All (All (InRange d host disk)) ms
      → Agrees
          (save_disk d)
          (λ b. b < d.num_disk_blocks)
          (run_tasks (save_disk d) schedule (start_tasks d.num_layers ms s))
          (save_kv_blocks_to_disk d ms s)
  save_tasks-Agrees h =
      run_tasks-Agrees (save_disk d) (InRange d host disk) (λ b. b < d.num_disk_blocks)
        (save_disk-IsDirection d) d.num_layers ms s h schedule enough
        (save_kv_blocks_to_disk d ms s) (save_disk-Copies d ms s h)
