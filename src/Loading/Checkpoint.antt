-- ===== src/Loading/Checkpoint.antt =====
-- What a checkpoint leaves in the parameters of a model.
use lmserve.Prelude.{
  ℕ, ◌≡◌, refl, sym, ap₂, ◌∙◌, inl, inr, Bool, true, false, ◌&&◌, List, [], ◌∷◌, Option, none, some,
  if◌then◌else◌, Result, ok, raise, All, arith, ◌==◌, Bool-cases, Option-cases, Result-cases,
}
use lmserve.Loading.Files.{same_text}
use lmserve.Loading.Shards.{Weight}
use lmserve.Loading.Names.{Classes, Params, set_param, load_param, load_each}

pub same_text_eq : (a b : List ℕ) → same_text a b ≡ true → a ≡ b
unfolding same_text
same_text_eq [] [] h = refl
same_text_eq [] (d ∷ ds) h = cc
same_text_eq (c ∷ cs) [] h = cc
same_text_eq (c ∷ cs) (d ∷ ds) h = elim (Bool-cases (c == d)) [
  | inl x ↦
      let rest : same_text cs ds ≡ true = ground (arith, x) in
      ap₂ ◌∷◌ (ground arith) (same_text_eq cs ds rest)
  | inr x ↦ ground (arith, x)
]

no_bit : false ≡ true → ⊥
no_bit h = cc

pub same_text_self : (a : List ℕ) → same_text a a ≡ true
unfolding same_text
same_text_self [] = refl
same_text_self (c ∷ cs) = ground (arith, same_text_self cs)

module _ {A : Type 0} where
  -- The tensors that a loop loads, under the names that it gives them.
  unfoldable pub kept :
      (List ℕ → Option (List ℕ)) → List (List ℕ × Weight A) → List (List ℕ × Weight A)
  kept target [] = []
  kept target ((name, w) ∷ weights) = elim (target name) [
    | none ↦ kept target weights
    | some name' ↦ (name', w) ∷ kept target weights
  ]

  abbrev pub Distinct : List (List ℕ × Weight A) → Type 0
  Distinct [] = Unit
  Distinct ((name, w) ∷ ks) = All (λ k. same_text name k.0 ≡ false) ks × Distinct ks

  abbrev pub to_option : Result (Weight A) → Option (Weight A)
  to_option (raise e) = none
  to_option (ok w) = some w

module _ {A : Type 0} (classes : Classes) (rank : ℕ) where
  -- Each tensor can be loaded into the parameter of its name.
  abbrev pub Loads : Params A → List (List ℕ × Weight A) → Type 0
  Loads params ks = All (λ k. (v : Weight A) × (load_param classes rank params k.0 k.1 ≡ ok v)) ks

  -- The parameters after a checkpoint: the part of the tensor of this name that belongs to the rank, or
  -- what the parameter held before.
  unfoldable pub loaded_table : Params A → List (List ℕ × Weight A) → Params A
  loaded_table params [] n = params n
  loaded_table params ((name, w) ∷ ks) n =
      let rest = loaded_table params ks n in
      if same_text name n then to_option (load_param classes rank params name w) else rest

  -- Writing one parameter leaves the others.
  load_param-set :
      (params : Params A) (name other : List ℕ) (v w : Weight A)
      → same_text name other ≡ false
      → load_param classes rank (set_param name v params) other w
        ≡ load_param classes rank params other w
  unfolding load_param
  load_param-set params name other v w h = rw (load_param, h) refl

  Loads-set :
      (params : Params A) (name : List ℕ) (v : Weight A) (ks : List (List ℕ × Weight A))
      → All (λ k. same_text name k.0 ≡ false) ks
      → Loads params ks
      → Loads (set_param name v params) ks
  Loads-set params name v [] fresh loads = tt
  Loads-set params name v (k ∷ ks) fresh loads = (
    (loads.0.0, load_param-set params name k.0 v k.1 fresh.0 ∙ loads.0.1),
    Loads-set params name v ks fresh.1 loads.1,
  )

  loaded_table_fresh :
      (params : Params A) (n : List ℕ) (ks : List (List ℕ × Weight A))
      → All (λ k. same_text n k.0 ≡ false) ks
      → loaded_table params ks n ≡ params n
  unfolding loaded_table
  loaded_table_fresh params n [] fresh = refl
  loaded_table_fresh params n (k ∷ ks) fresh = elim (Bool-cases (same_text k.0 n)) [
    | inl x ↦
        let e : k.0 ≡ n = same_text_eq k.0 n x in
        absurd (no_bit (sym fresh.0 ∙ rw e (same_text_self n)))
    | inr x ↦ rw x (loaded_table_fresh params n ks fresh.1)
  ]

  loaded_table-set :
      (params : Params A) (name : List ℕ) (v : Weight A) (ks : List (List ℕ × Weight A))
      (n : List ℕ)
      → All (λ k. same_text name k.0 ≡ false) ks
      → loaded_table (set_param name v params) ks n
        ≡ (if same_text name n then some v else loaded_table params ks n)
  unfolding loaded_table
  loaded_table-set params name v [] n fresh = refl
  loaded_table-set params name v (k ∷ ks) n fresh = elim (Bool-cases (same_text k.0 n)) [
    | inl x ↦
        let e : k.0 ≡ n = same_text_eq k.0 n x in
        let other : same_text name n ≡ false = rw (← e) fresh.0 in
        rw (x, other, load_param-set params name k.0 v k.1 fresh.0) refl
    | inr x ↦ rw x (loaded_table-set params name v ks n fresh.1)
  ]

  -- The loop loads what it keeps.
  load_each-kept :
      (target : List ℕ → Option (List ℕ)) (weights : List (List ℕ × Weight A)) (params : Params A)
      → load_each target classes rank weights params
        ≡ load_each (λ name. some name) classes rank (kept target weights) params
  unfolding load_each kept
  load_each-kept target [] params = refl
  load_each-kept target ((name, w) ∷ weights) params = elim (Option-cases (target name)) [
    | inl skipped ↦ rw (load_each, kept, skipped) (load_each-kept target weights params)
    | inr (name', renamed) ↦
        rw (load_each, kept, renamed)
          (elim (Result-cases (load_param classes rank params name' w)) [
            | inl (e, failed) ↦ rw failed refl
            | inr (v, done) ↦ rw done (load_each-kept target weights (set_param name' v params))
          ])
  ]

  load_each_lem :
      (ks : List (List ℕ × Weight A)) (params : Params A)
      → Distinct ks
      → Loads params ks
      → (params' : Params A) × (load_each (λ name. some name) classes rank ks params ≡ ok params')
        × ((n : List ℕ) → params' n ≡ loaded_table params ks n)
  unfolding load_each loaded_table
  load_each_lem [] params distinct loads = (params, refl, λ n. refl)
  load_each_lem ((name, w) ∷ ks) params distinct loads =
      let (v, done) = loads.0 in
      let (params', e, table) =
        load_each_lem ks (set_param name v params) distinct.1
          (Loads-set params name v ks distinct.0 loads.1) in
      (
        params',
        rw done e,
        λ n. table n ∙ loaded_table-set params name v ks n distinct.0 ∙ rw done refl,
      )

  pub load_each-loaded_table :
      (target : List ℕ → Option (List ℕ)) (weights : List (List ℕ × Weight A)) (params : Params A)
      → Distinct (kept target weights)
      → Loads params (kept target weights)
      → (params' : Params A) × (load_each target classes rank weights params ≡ ok params')
        × ((n : List ℕ) → params' n ≡ loaded_table params (kept target weights) n)
  load_each-loaded_table target weights params distinct loads =
      rw (load_each-kept target weights params)
        (load_each_lem (kept target weights) params distinct loads)

-- After the loop: a parameter that is copied into another.
abbrev pub tied_table : {A : Type 0} → Bool → List ℕ → List ℕ → Params A → Params A
tied_table tie to source params n = if tie && same_text to n then params source else params n
