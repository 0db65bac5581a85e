-- ===== src/Prelude/Results.antt =====
-- Python exceptions as values.
use mathlib.Core.Bool.{Bool, true, false}
use mathlib.Core.Logic.{◌⊎◌, inl, inr}
use mathlib.Core.Path.{◌≡◌, refl}

-- The classes of the exceptions that the modelled code raises or lets through, the error of the
-- Triton compiler, and `waits_forever` for a call that does not return.
pub data Error : Type 0 where
  assertion_error : Error
  attribute_error : Error
  compilation_error : Error
  file_not_found_error : Error
  index_error : Error
  key_error : Error
  runtime_error : Error
  type_error : Error
  value_error : Error
  waits_forever : Error
  zero_division_error : Error

-- What a call does: it returns a value or it raises.
pub data Result {ℓ} (A : Type ℓ) : Type ℓ where
  raise : Error → Result A
  ok : A → Result A

module _ {ℓ κ} {A : Type ℓ} {B : Type κ} where
  -- The rest of a block runs only if the step before it has returned.
  abbrev pub and_then : (A → Result B) → Result A → Result B
  and_then rest (raise e) = raise e
  and_then rest (ok a) = rest a

  infixl 5 ◌>>=◌
  abbrev pub ◌>>=◌ : Result A → (A → Result B) → Result B
  step >>= rest = and_then rest step

infixl 5 ◌>>◌
abbrev pub ◌>>◌ {κ} : {B : Type κ} → Result (Unit {0}) → Result B → Result B
step >> rest = and_then (λ _. rest) step

-- `assert test`, and `if not test: raise e`
abbrev pub guard : Bool → Error → Result (Unit {0})
guard false e = raise e
guard true e = ok tt

pub Result-cases {ℓ} :
    {A : Type ℓ} (r : Result A) → ((e : Error) × (r ≡ raise e)) ⊎ ((a : A) × (r ≡ ok a))
Result-cases (raise e) = inl (e, refl)
Result-cases (ok a) = inr (a, refl)

-- A statement that lets the rest run has returned.
pub then_ok {ℓ} :
    {B : Type ℓ} (step : Result (Unit {0})) (rest : Result B) (b : B)
    → (step >> rest) ≡ ok b
    → (step ≡ ok tt) × (rest ≡ ok b)
then_ok (raise e) rest b h = cc
then_ok (ok u) rest b h = (refl, h)

pub ok_inj {ℓ} : {A : Type ℓ} {a b : A} → ok a ≡ ok b → a ≡ b
ok_inj h = cc
