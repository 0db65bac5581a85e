-- ===== src/ModelWorker/Modules.antt =====
-- The tree of a model's modules: `travel_layers` of runtime/worker/llm_worker/models/utils.py, and
-- `get_total_size` of `ModelWorker.get_model_size`.
use lmserve.Prelude.{
  ℕ, ◌+◌, ◌*◌, ◌≡◌, refl, sym, ap, ap₂, ◌∙◌, Bool, true, false, ◌||◌, ◌&&◌, List, [], ◌∷◌, ◌++◌,
  Option, none, some, ◌==◌, if◌then◌else◌, leb, sum, map, map-append, sum-append, arith,
}

-- A parameter or a buffer: the number of its elements and the bytes of one.
pub record Tensor : Type 0 where
  pub numel : ℕ
  pub element_size : ℕ

-- A class name is its code points.
mutual
  pub data Module : Type 0 where
    module_ : List ℕ → List Tensor → List Tensor → Modules → Module

  pub data Modules : Type 0 where
    no_children : Modules
    child : Module → Modules → Modules

-- `s.lower()` of an ASCII text.
unfoldable pub lower : List ℕ → List ℕ
lower [] = []
lower (c ∷ cs) = (if leb 65 c && leb c 90 then c + 32 else c) ∷ lower cs

unfoldable pub starts_with : List ℕ → List ℕ → Bool
starts_with [] cs = true
starts_with (p ∷ ps) [] = false
starts_with (p ∷ ps) (c ∷ cs) = (p == c) && starts_with ps cs

-- `word in text`
unfoldable pub contains : List ℕ → List ℕ → Bool
unfolding starts_with
contains word [] = starts_with word []
contains word (c ∷ cs) = starts_with word (c ∷ cs) || contains word cs

-- `for include in includes: if include.lower() in name.lower()`
unfoldable pub any_included : List (List ℕ) → List ℕ → Bool
unfolding lower contains
any_included [] name = false
any_included (i ∷ is) name = contains (lower i) (lower name) || any_included is name

unfoldable pub tensors_size : List Tensor → ℕ
tensors_size [] = 0
tensors_size (t ∷ ts) = t.numel * t.element_size + tensors_size ts

-- A module without children: the two tests of `travel_layers`, and its size.
unfoldable pub travel_leaf : Module → List ℕ → Option (List (List ℕ)) → List Module
unfolding any_included
travel_leaf m name none = m ∷ []
travel_leaf m name (some includes) = if any_included includes name then m ∷ [] else []

unfoldable mutual
  unfolding travel_leaf

  pub travel_layers : Option (List (List ℕ)) → Module → List Module
  travel_layers includes (module_ name params buffers no_children) =
      travel_leaf (module_ name params buffers no_children) name includes
  travel_layers includes (module_ name params buffers (child m ms)) =
      travel_children includes (child m ms)

  pub travel_children : Option (List (List ℕ)) → Modules → List Module
  travel_children includes no_children = []
  travel_children includes (child m ms) = travel_layers includes m ++ travel_children includes ms

unfoldable mutual
  unfolding tensors_size

  pub get_total_size : Module → ℕ
  get_total_size (module_ name params buffers no_children) =
      tensors_size params + tensors_size buffers
  get_total_size (module_ name params buffers (child m ms)) = children_size (child m ms)

  pub children_size : Modules → ℕ
  children_size no_children = 0
  children_size (child m ms) = get_total_size m + children_size ms

-- The layers whose name has one of the words, in order.
abbrev pub class_name : Module → List ℕ
class_name (module_ name _ _ _) = name

unfoldable pub named : List (List ℕ) → List Module → List Module
unfolding any_included
named includes [] = []
named includes (m ∷ ms) =
    let rest = named includes ms in if any_included includes (class_name m) then m ∷ rest else rest

named-append :
    (includes : List (List ℕ)) (xs ys : List Module)
    → named includes (xs ++ ys) ≡ named includes xs ++ named includes ys
unfolding named
named-append includes [] ys = refl
named-append includes (x ∷ xs) ys = ground (arith, named-append includes xs ys)

mutual
  unfolding travel_layers travel_leaf get_total_size named

  travel_layers_lem :
      (includes : List (List ℕ)) (m : Module)
      → (travel_layers (some includes) m ≡ named includes (travel_layers none m))
        × (get_total_size m ≡ sum (map get_total_size (travel_layers none m)))
  travel_layers_lem includes (module_ name params buffers no_children) = (ground arith, omega arith)
  travel_layers_lem includes (module_ name params buffers (child m ms)) =
      travel_children_lem includes (child m ms)

  travel_children_lem :
      (includes : List (List ℕ)) (ms : Modules)
      → (travel_children (some includes) ms ≡ named includes (travel_children none ms))
        × (children_size ms ≡ sum (map get_total_size (travel_children none ms)))
  travel_children_lem includes no_children = (refl, refl)
  travel_children_lem includes (child m ms) =
      let one = travel_layers_lem includes m in
      let rest = travel_children_lem includes ms in
      (
        ap₂ ◌++◌ one.0 rest.0
            ∙ sym (named-append includes (travel_layers none m) (travel_children none ms)),
        ap₂ ◌+◌ one.1 rest.1
            ∙ sym (
                ap sum (map-append get_total_size (travel_layers none m) (travel_children none ms))
                ∙ sum-append (map get_total_size (travel_layers none m))
                    (map get_total_size (travel_children none ms))),
      )

-- With a list of words `travel_layers` returns, of the layers that it returns without one, those whose
-- class name has a word, in the same order, whatever the case of letters; and the size that
-- `get_total_size` counts is the sum of the sizes of all these layers.
pub travel_layers-named :
    (includes : List (List ℕ)) (m : Module)
    → (travel_layers (some includes) m ≡ named includes (travel_layers none m))
      × (get_total_size m ≡ sum (map get_total_size (travel_layers none m)))
travel_layers-named includes m = travel_layers_lem includes m
