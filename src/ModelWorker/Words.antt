-- ===== src/ModelWorker/Words.antt =====
-- `travel_layers` picks the layers in whose class name a word occurs, whatever the case of letters.
use lmserve.Prelude.{
  ℕ, ◌+◌, ◌≤◌, ◌≡◌, ◌⊎◌, ◌↔◌, refl, ap, ◌∙◌, inl, inr, Bool, true, false, ◌&&◌, ◌||◌, List, [], ◌∷◌,
  some, none, leb, if◌then◌else◌, Any, arith, Bool-cases,
}
use lmserve.ModelWorker.Modules.{
  Module, lower, starts_with, contains, any_included, travel_layers, class_name, named,
  travel_layers-named,
}

-- One letter in any case.
abbrev pub SameLetter : ℕ → ℕ → Type 0
SameLetter a b =
    (a ≡ b) ⊎ ((65 ≤ a) × (a ≤ 90) × (b ≡ a + 32)) ⊎ ((65 ≤ b) × (b ≤ 90) × (a ≡ b + 32))

-- `text` begins with the word.
abbrev pub Begins : List ℕ → List ℕ → Type 0
Begins [] text = Unit
Begins (a ∷ word) [] = ⊥
Begins (a ∷ word) (b ∷ text) = SameLetter a b × Begins word text

-- The word stands somewhere in the text.
abbrev pub Occurs : List ℕ → List ℕ → Type 0
Occurs word [] = Begins word []
Occurs word (b ∷ text) = Begins word (b ∷ text) ⊎ Occurs word text

lower_letter : ℕ → ℕ
lower_letter c = if leb 65 c && leb c 90 then c + 32 else c

letters-SameLetter : (a b : ℕ) → lower_letter a ≡ lower_letter b → SameLetter a b
unfolding lower_letter
letters-SameLetter a b h = elim (Bool-cases (leb 65 a && leb a 90)) [
  | inl x ↦ elim (Bool-cases (leb 65 b && leb b 90)) [
    | inl y ↦ inl (ground (arith, x, y, h))
    | inr y ↦ inr (inl (ground (arith, x), ground (arith, x), ground (arith, x, y, h)))
  ]
  | inr x ↦ elim (Bool-cases (leb 65 b && leb b 90)) [
    | inl y ↦ inr (inr (ground (arith, y), ground (arith, y), ground (arith, x, y, h)))
    | inr y ↦ inl (ground (arith, x, y, h))
  ]
]

SameLetter-letters : (a b : ℕ) → SameLetter a b → lower_letter a ≡ lower_letter b
unfolding lower_letter
SameLetter-letters a b (inl same) = ap lower_letter same
SameLetter-letters a b (inr (inl (low, high, e))) = ground (arith, low, high, e)
SameLetter-letters a b (inr (inr (low, high, e))) = ground (arith, low, high, e)

starts_with-Begins :
    (word text : List ℕ) → (starts_with (lower word) (lower text) ≡ true) ↔ Begins word text
unfolding starts_with lower lower_letter
starts_with-Begins [] text = (λ h. tt, λ h. refl)
starts_with-Begins (a ∷ word) [] = (λ h. cc, λ h. elim h [ ])
starts_with-Begins (a ∷ word) (b ∷ text) =
    let rest = starts_with-Begins word text in
    (
      λ h.
          let one : lower_letter a ≡ lower_letter b = ground (arith, h) in
          (letters-SameLetter a b one, rest.0 (ground (arith, h))),
      λ h. let one = SameLetter-letters a b h.0 in let two = rest.1 h.1 in ground (arith, one, two),
    )

or_iff : {P Q : Type 0} (x y : Bool) → (x ≡ true) ↔ P → (y ≡ true) ↔ Q → ((x || y) ≡ true) ↔ (P ⊎ Q)
or_iff true y p q = (λ h. inl (p.0 refl), λ h. refl)
or_iff false y p q =
    (λ h. inr (q.0 h), λ h. elim h [ inl bad ↦ absurd (no_bit (p.1 bad)) | inr good ↦ q.1 good ])
  where
    no_bit : false ≡ true → ⊥
    no_bit e = cc

contains-Occurs :
    (word text : List ℕ) → (contains (lower word) (lower text) ≡ true) ↔ Occurs word text
unfolding contains lower
contains-Occurs word [] = starts_with-Begins word []
contains-Occurs word (b ∷ text) =
    or_iff (starts_with (lower word) (lower (b ∷ text))) (contains (lower word) (lower text))
      (starts_with-Begins word (b ∷ text)) (contains-Occurs word text)

any_included-Occurs :
    (includes : List (List ℕ)) (name : List ℕ)
    → (any_included includes name ≡ true) ↔ Any (λ word. Occurs word name) includes
unfolding any_included
any_included-Occurs [] name = (λ h. cc, λ h. elim h [ ])
any_included-Occurs (word ∷ words) name =
    or_iff (contains (lower word) (lower name)) (any_included words name)
      (contains-Occurs word name) (any_included-Occurs words name)

-- The modules that a test picks, in order.
abbrev pub picked : (Module → Bool) → List Module → List Module
picked test [] = []
picked test (m ∷ ms) = if test m then m ∷ picked test ms else picked test ms

named-picked :
    (includes : List (List ℕ)) (ms : List Module)
    → named includes ms ≡ picked (λ m. any_included includes (class_name m)) ms
unfolding named
named-picked includes [] = refl
named-picked includes (m ∷ ms) = ground (arith, named-picked includes ms)

-- With a list of words `travel_layers` returns, of the layers that it returns without one, just those in
-- whose class name one of the words occurs, whatever the case of the letters, in the same order.
pub travel_layers-Occurs :
    (includes : List (List ℕ)) (m : Module)
    → (test : Module → Bool) × ((layer : Module)
        → (test layer ≡ true) ↔ Any (λ word. Occurs word (class_name layer)) includes)
      × (travel_layers (some includes) m ≡ picked test (travel_layers none m))
travel_layers-Occurs includes m = (
  λ layer. any_included includes (class_name layer),
  λ layer. any_included-Occurs includes (class_name layer),
  (travel_layers-named includes m).0 ∙ named-picked includes (travel_layers none m),
)
