-- ===== src/Base/Errors.antt =====
-- The errors that the services throw, as values. The classes are those of @rexezuge/errors; of
-- each the model keeps the class and the message.
use Prim.Native.String.{String}
use mathlib.Core.Path.{◌≡◌, refl}
use mathlib.Core.Logic.{◌⊎◌, inl, inr}

-- `out_of_fuel` is thrown by no code: a loop of the model that runs out of fuel returns it.
pub data ServiceError : Type 0 where
  bad_request unauthorized forbidden not_found conflict internal_server database :
      String → ServiceError
  plain_error : String → ServiceError
  out_of_fuel : ServiceError

pub data Result {ℓ} (Value : Type ℓ) : Type ℓ where
  err : ServiceError → Result Value
  ok : Value → Result Value

module _ {ℓ κ} {Value : Type ℓ} {Next : Type κ} where
  -- A throw skips what follows it.
  infixl 5 ◌>>=◌
  abbrev pub ◌>>=◌ : Result Value → (Value → Result Next) → Result Next
  ◌>>=◌ (err e) next = err e
  ◌>>=◌ (ok value) next = next value

  -- What returns has returned at each step.
  pub >>=-eq-ok :
      {last : Next} (step : Result Value) (next : Value → Result Next)
      → (step >>= next) ≡ ok last
      → (value : Value) × (step ≡ ok value) × (next value ≡ ok last)
  >>=-eq-ok (err e) next returned = cc
  >>=-eq-ok (ok value) next returned = (value, refl, returned)

pub Result-cases {ℓ} :
    {Value : Type ℓ} (r : Result Value)
    → ((value : Value) × (r ≡ ok value)) ⊎ ((e : ServiceError) × (r ≡ err e))
Result-cases (err e) = inr (e, refl)
Result-cases (ok value) = inl (value, refl)
