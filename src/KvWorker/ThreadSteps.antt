-- ===== src/KvWorker/ThreadSteps.antt =====
-- What a step of a task keeps: what its layer will hold in the end.
use lmserve.Prelude.{
  ℕ, suc, ◌-◌, ◌≡◌, refl, ◌∙◌, subst, inl, inr, List, [], ◌∷◌, List-cases, length, arith, ◌==◌, All,
  Bool-cases, Option-cases,
}
use lmserve.KvWorker.Store.{Entry}
use lmserve.KvWorker.Contents.{source_of, pick, Direction, IsDirection}
use lmserve.KvWorker.Threads.{Tasks, set_pending, task_step, run_tasks, steps_of}

module _ {A : Type 0} (D : Direction A) (Valid : Entry → Type 0) (Bound : ℕ → Type 0)
    (law : IsDirection D Valid Bound) where
  -- What block `b` holds in layer `l` when the task of the layer ends.
  abbrev pub final : Tasks A → ℕ → ℕ → A
  final t b l =
      pick (source_of (t.pending l) b) (D.target t.store b l) (λ src. D.origin t.store src l)

  abbrev pub AllValid : Tasks A → Type 0
  AllValid t = (layer : ℕ) → All Valid (t.pending layer)

  -- What steps of the tasks keep, and how many entries they copy.
  pub record Kept (schedule : List ℕ) (t t' : Tasks A) : Type 0 where
    pub valid : AllValid t'
    pub left : (l : ℕ) → length (t'.pending l) ≡ length (t.pending l) - steps_of l schedule
    pub outcome : t'.outcome ≡ t.outcome
    pub origin : D.origin t'.store ≡ D.origin t.store
    pub third : D.third t'.store ≡ D.third t.store
    pub target : (b l : ℕ) → Bound b → final t' b l ≡ final t b l

  task_step_idle : (layer : ℕ) (t : Tasks A) → t.pending layer ≡ [] → task_step D layer t ≡ t
  unfolding task_step
  task_step_idle layer t idle = rw (task_step, idle) refl

  task_step_next :
      (layer : ℕ) (t : Tasks A) (e : Entry) (es : List Entry)
      → t.pending layer ≡ e ∷ es
      → Valid e
      → task_step D layer t
        ≡ record t { pending = set_pending D t.pending layer es; store = D.write layer e t.store }
  unfolding task_step
  task_step_next layer t e es next valid = rw (task_step, next, law.allowed e valid) refl

  final_next :
      (layer : ℕ) (t : Tasks A) (e : Entry) (es : List Entry)
      → t.pending layer ≡ e ∷ es
      → Valid e
      → (b l : ℕ) → Bound b
      → final
          (record t { pending = set_pending D t.pending layer es; store = D.write layer e t.store })
          b
          l
        ≡ final t b l
  unfolding source_of
  final_next layer t e es next valid b l hb =
      let written = law.writes layer e t.store b l valid hb in
      rw (law.keeps_origin layer e t.store) (elim (Bool-cases (layer == l)) [
        | inl same ↦
            let eq : layer ≡ l = ground arith in
            let here : t.pending l ≡ e ∷ es = rw (← eq) next in
            elim (Option-cases (source_of es b)) [
              | inl x ↦ rw (here, same) (ground (arith, written, same, x))
              | inr (src, x) ↦ rw (here, same) (ground (arith, written, same, x))
            ]
        | inr other ↦ ground (arith, written, other)
      ])

  task_step-Kept :
      (layer : ℕ) (t : Tasks A) → AllValid t → Kept (layer ∷ []) t (task_step D layer t)
  task_step-Kept layer t valid = elim (List-cases (t.pending layer)) [
    | inl idle ↦ rw (task_step_idle layer t idle) (record {
      valid = valid;
      left = λ l. elim (Bool-cases (layer == l)) [
        | inl same ↦
            let eq : layer ≡ l = ground arith in
            let gone : length (t.pending l) ≡ 0 = rw (← eq, idle) in ground (arith, gone)
        | inr other ↦ ground (arith, other)
      ];
      outcome = refl;
      origin = refl;
      third = refl;
      target = λ b l hb. refl;
    })
    | inr (e, es, next) ↦
        let here : All Valid (e ∷ es) = subst (All Valid) next (valid layer) in
        rw (task_step_next layer t e es next here.0) (record {
          valid = λ l. elim (Bool-cases (layer == l)) [
            | inl same ↦ rw same here.1
            | inr other ↦ rw other (valid l)
          ];
          left = λ l. elim (Bool-cases (layer == l)) [
            | inl same ↦
                let eq : layer ≡ l = ground arith in
                let one_more : length (t.pending l) ≡ suc (length es) = rw (← eq, next) in
                ground (arith, one_more, same)
            | inr other ↦ ground (arith, other)
          ];
          outcome = refl;
          origin = law.keeps_origin layer e t.store;
          third = law.keeps_third layer e t.store;
          target = λ b l hb. final_next layer t e es next here.0 b l hb;
        })
  ]

  pub run_tasks-Kept :
      (schedule : List ℕ) (t : Tasks A) → AllValid t → Kept schedule t (run_tasks D schedule t)
  unfolding run_tasks
  run_tasks-Kept [] t valid = record {
    valid = valid;
    left = λ l. omega arith;
    outcome = refl;
    origin = refl;
    third = refl;
    target = λ b l hb. refl;
  }
  run_tasks-Kept (layer ∷ schedule) t valid =
      let one = task_step-Kept layer t valid in
      let rest = run_tasks-Kept schedule (task_step D layer t) one.valid in
      record {
        valid = rest.valid;
        left = λ l. omega (arith, one.left l, rest.left l);
        outcome = rest.outcome ∙ one.outcome;
        origin = rest.origin ∙ one.origin;
        third = rest.third ∙ one.third;
        target = λ b l hb. rest.target b l hb ∙ one.target b l hb;
      }
