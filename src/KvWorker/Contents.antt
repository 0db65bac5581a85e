-- ===== src/KvWorker/Contents.antt =====
-- What a copy leaves in its target, for any direction: each block that some entry names as its
-- destination holds what the last such entry names as its source, in every layer; all else stays.
use lmserve.Prelude.{
  ℕ, zero, suc, ◌+◌, ◌*◌, ◌≤◌, ◌≡◌, refl, ◌∙◌, inl, inr, ◌&&◌, List, [], ◌∷◌, ◌++◌, Option, none,
  some, arith, ◌==◌, leb, ltb, if◌then◌else◌, All, concat, Result, ok, Option-cases,
}
use lmserve.KvWorker.Store.{
  Entry, BlockMapping, Store, Exec, done, after, seq, for_entries, for_mappings, for_layers,
}
use lmserve.KvWorker.Disk.{gather}

-- The source of the last entry with the destination `b`.
unfoldable pub source_of : BlockMapping → ℕ → Option ℕ
source_of [] b = none
source_of (e ∷ es) b =
    let rest = source_of es b in
    elim rest [
      | some src ↦ some src
      | none ↦ if e.dst_block_id == b then some e.src_block_id else none
    ]

pub source_of-append :
    (xs ys : BlockMapping) (b : ℕ)
    → source_of (xs ++ ys) b ≡ elim (source_of ys b) [ some src ↦ some src | none ↦ source_of xs b ]
unfolding source_of
source_of-append [] ys b = ground arith
source_of-append (e ∷ es) ys b = ground (arith, source_of-append es ys b)

abbrev pub pick : {A : Type 0} → Option ℕ → A → (ℕ → A) → A
pick none old new = old
pick (some src) old new = new src

-- One direction of copying: the views of the memory that is written, of the memory that is read and
-- of the third one; the check on an entry and the write.
pub record Direction (A : Type 0) : Type 0 where
  pub target : Store A → ℕ → ℕ → A
  pub origin : Store A → ℕ → ℕ → A
  pub third : Store A → ℕ → ℕ → A
  pub check : Entry → Result (Unit {0})
  pub write : ℕ → Entry → Store A → Store A

pub record IsDirection {A : Type 0} (D : Direction A) (Valid : Entry → Type 0) (Bound : ℕ → Type 0)
    : Type 0 where
  pub allowed : (e : Entry) → Valid e → D.check e ≡ ok tt
  pub writes :
      (layer : ℕ) (e : Entry) (s : Store A) (b l : ℕ)
      → Valid e
      → Bound b
      → D.target (D.write layer e s) b l ≡ (
          if (e.dst_block_id == b) && (layer == l)
          then D.origin s e.src_block_id l
          else D.target s b l)
  pub keeps_origin :
      (layer : ℕ) (e : Entry) (s : Store A) → D.origin (D.write layer e s) ≡ D.origin s
  pub keeps_third : (layer : ℕ) (e : Entry) (s : Store A) → D.third (D.write layer e s) ≡ D.third s
  pub keeps_queue :
      (layer : ℕ) (e : Entry) (s : Store A) → (D.write layer e s).kv_queue ≡ s.kv_queue

module _ {A : Type 0} (D : Direction A) (Bound : ℕ → Type 0) (cost : ℕ) where
  -- A run from `s` succeeds and copies `es` in the `n` layers from `first` on, and takes `cost` values
  -- from the queue in each.
  pub record Copies (es : List Entry) (first n : ℕ) (s : Store A)
      (out : Result (Unit {0}) × Store A) : Type 0 where
    pub returns : out.0 ≡ ok tt
    pub origin : D.origin out.1 ≡ D.origin s
    pub third : D.third out.1 ≡ D.third s
    pub queue : s.kv_queue ≡ n * cost + out.1.kv_queue
    pub target :
        (b l : ℕ)
        → Bound b
        → D.target out.1 b l ≡ (
            if leb first l && ltb l (first + n)
            then pick (source_of es b) (D.target s b l) (λ src. D.origin s src l)
            else D.target s b l)

module _ {A : Type 0} (D : Direction A) (Valid : Entry → Type 0) (Bound : ℕ → Type 0)
    (law : IsDirection D Valid Bound) where
  for_entries-Copies :
      (layer : ℕ) (es : List Entry) (s : Store A)
      → All Valid es
      → Copies D Bound 0 es layer 1 s (for_entries D.check (D.write layer) es s)
  unfolding for_entries source_of
  for_entries-Copies layer [] s h = record {
    returns = refl;
    origin = refl;
    third = refl;
    queue = omega arith;
    target = λ b l hb. ground arith;
  }
  for_entries-Copies layer (e ∷ es) s h =
      let s' = D.write layer e s in
      let ih = for_entries-Copies layer es s' h.1 in
      rw (law.allowed e h.0) (record {
        returns = ih.returns;
        origin = ih.origin ∙ law.keeps_origin layer e s;
        third = ih.third ∙ law.keeps_third layer e s;
        queue = omega (arith, ih.queue, law.keeps_queue layer e s);
        target = λ b l hb.
            let inner : D.target (for_entries D.check (D.write layer) es s').1 b l ≡ (
                if leb layer l && ltb l (layer + 1)
                then pick (source_of es b) (D.target s' b l) (λ src. D.origin s src l)
                else D.target s' b l) =
              rw (← law.keeps_origin layer e s) (ih.target b l hb) in
            let here = law.writes layer e s b l h.0 hb in
            elim (Option-cases (source_of es b)) [
              | inl x ↦ ground (arith, inner, here, x)
              | inr (src, x) ↦ ground (arith, inner, here, x)
            ];
      })

  -- The loops over mappings and over layers.
  after_return : (g : Exec A) (f : Exec A) (s : Store A) → (f s).0 ≡ ok tt → seq f g s ≡ g (f s).1
  unfolding seq
  after_return g f s h = rw (h, after)

  Copies-append :
      (layer : ℕ) (xs ys : List Entry) (s : Store A) (one two : Result (Unit {0}) × Store A)
      → Copies D Bound 0 xs layer 1 s one
      → Copies D Bound 0 ys layer 1 one.1 two
      → Copies D Bound 0 (xs ++ ys) layer 1 s two
  Copies-append layer xs ys s one two hx hy = record {
    returns = hy.returns;
    origin = hy.origin ∙ hx.origin;
    third = hy.third ∙ hx.third;
    queue = omega (arith, hx.queue, hy.queue);
    target = λ b l hb.
        let after_xs = hx.target b l hb in
        let after_ys : D.target two.1 b l ≡ (
            if leb layer l && ltb l (layer + 1)
            then pick (source_of ys b) (D.target one.1 b l) (λ src. D.origin s src l)
            else D.target one.1 b l) =
          rw (← hx.origin) (hy.target b l hb) in
        elim (Option-cases (source_of ys b)) [
          | inl x ↦ ground (arith, after_xs, after_ys, x, source_of-append xs ys b)
          | inr (src, x) ↦ ground (arith, after_xs, after_ys, x, source_of-append xs ys b)
        ];
  }

  Copies-layers :
      (cost first n : ℕ) (es : List Entry) (s : Store A) (one two : Result (Unit {0}) × Store A)
      → Copies D Bound cost es first 1 s one
      → Copies D Bound cost es (suc first) n one.1 two
      → Copies D Bound cost es first (suc n) s two
  Copies-layers cost first n es s one two h1 h2 = record {
    returns = h2.returns;
    origin = h2.origin ∙ h1.origin;
    third = h2.third ∙ h1.third;
    queue = grind (arith, h1.queue, h2.queue);
    target = λ b l hb.
        let in_one = h1.target b l hb in
        let in_two : D.target two.1 b l ≡ (
            if leb (suc first) l && ltb l (suc first + n)
            then pick (source_of es b) (D.target one.1 b l) (λ src. D.origin s src l)
            else D.target one.1 b l) =
          rw (← h1.origin) (h2.target b l hb) in
        ground (arith, in_one, in_two);
  }

  pub for_mappings-Copies :
      (layer : ℕ) (ms : List BlockMapping) (s : Store A)
      → All (All Valid) ms
      → Copies D Bound 0
          (concat ms)
          layer
          1
          s
          (for_mappings (for_entries D.check (D.write layer)) ms s)
  unfolding for_mappings source_of
  for_mappings-Copies layer [] s h = record {
    returns = refl;
    origin = refl;
    third = refl;
    queue = omega arith;
    target = λ b l hb. ground arith;
  }
  for_mappings-Copies layer (m ∷ ms) s h =
      let step = for_entries D.check (D.write layer) in
      let one = for_entries-Copies layer m s h.0 in
      rw (after_return (for_mappings step ms) (step m) s one.returns) (
        Copies-append layer m (concat ms) s (step m s) (for_mappings step ms (step m s).1) one
          (for_mappings-Copies layer ms (step m s).1 h.1))

  -- A loop over the layers copies in each of them, if each round copies in its own.
  module _ (cost : ℕ) (es : List Entry) (round : ℕ → Exec A)
      (each : (layer : ℕ) (s : Store A)
        → cost ≤ s.kv_queue
        → Copies D Bound cost es layer 1 s (round layer s)) where
    no_layers : (first : ℕ) (s : Store A) → Copies D Bound cost es first 0 s (done s)
    no_layers first s = record {
      returns = refl;
      origin = refl;
      third = refl;
      queue = omega arith;
      target = λ b l hb. ground arith;
    }

    pub for_layers-Copies :
        (n first : ℕ) (s : Store A)
        → n * cost ≤ s.kv_queue
        → Copies D Bound cost es first n s (for_layers round n first s)
    unfolding for_layers
    for_layers-Copies zero first s h = no_layers first s
    for_layers-Copies (suc n) first s h =
        let one = each first s (grind arith) in
        let left : n * cost ≤ (round first s).1.kv_queue = grind (arith, one.queue) in
        rw (after_return (for_layers round n (suc first)) (round first) s one.returns) (
          Copies-layers cost first n es s (round first s)
            (for_layers round n (suc first) (round first s).1) one
            (for_layers-Copies n (suc first) (round first s).1 left))

    pub gather-Copies :
        (n first : ℕ) (s : Store A)
        → n * cost ≤ s.kv_queue
        → Copies D Bound cost es first n s (gather round n first s)
    unfolding gather
    gather-Copies zero first s h = no_layers first s
    gather-Copies (suc n) first s h =
        let one = each first s (grind arith) in
        let left : n * cost ≤ (round first s).1.kv_queue = grind (arith, one.queue) in
        let s' = (round first s).1 in
        rw one.returns (
          Copies-layers cost first n es s (round first s) (gather round n (suc first) s') one
            (gather-Copies n (suc first) s' left))
