-- ===== src/Prelude/Outcome.antt =====
-- Python's exceptions as values: a call that may raise returns a `Result`.
use mathlib.Core.Path.{◌≡◌, refl}
use mathlib.Core.Logic.{◌⊎◌, inl, inr}
use mathlib.Core.Bool.{Bool, true, false}

-- The exceptions that the modelled code raises. `out_of_fuel` has no counterpart in the program.
pub data Error : Type 0 where
  value_error struct_error assertion_error runtime_error key_error index_error : Error
  type_error zero_division_error parse_error query_error out_of_fuel : Error

pub data Result {ℓ} (A : Type ℓ) : Type ℓ where
  ok : A → Result A
  err : Error → Result A

-- `if not test: raise e`
abbrev pub guard : Bool → Error → Result (Unit {0})
guard false e = err e
guard true e = ok tt

module _ {ℓ κ} {A : Type ℓ} {B : Type κ} where
  infixl 5 ◌>>=◌ ◌>>◌
  -- the first exception ends the run
  abbrev pub ◌>>=◌ : Result A → (A → Result B) → Result B
  ◌>>=◌ (err e) next = err e
  ◌>>=◌ (ok value) next = next value

  abbrev pub ◌>>◌ : Result A → Result B → Result B
  ◌>>◌ (err e) after = err e
  ◌>>◌ (ok value) after = after

module _ {ℓ} {A : Type ℓ} where
  -- what holds of the value of a call that returns
  abbrev pub OnOk : (A → Type 0) → Result A → Type 0
  OnOk P (ok a) = P a
  OnOk P (err e) = Unit

module _ {ℓ κ} {A : Type ℓ} {B : Type κ} where
  pub bind-OnOk :
      (P : B → Type 0) (r : Result A) (next : A → Result B)
      → ((a : A) → OnOk P (next a))
      → OnOk P (r >>= next)
  bind-OnOk P (ok a) next h = h a
  bind-OnOk P (err e) next h = tt

module _ {ℓ} {A : Type ℓ} where
  -- To split on a call and keep the equation.
  pub Result-cases : (r : Result A) → ((a : A) × (r ≡ ok a)) ⊎ ((e : Error) × (r ≡ err e))
  Result-cases (ok a) = inl (a, refl)
  Result-cases (err e) = inr (e, refl)

module _ {ℓ κ} {A : Type ℓ} {B : Type κ} where
  pub chain-OnOk :
      (Q : A → Type 0) (P : B → Type 0) (r : Result A) (next : A → Result B)
      → OnOk Q r
      → ((a : A) → Q a → OnOk P (next a))
      → OnOk P (r >>= next)
  chain-OnOk Q P (ok a) next q h = h a q
  chain-OnOk Q P (err e) next q h = tt
