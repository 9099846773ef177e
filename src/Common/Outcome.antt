-- ===== src/Common/Outcome.antt =====
-- The result of a call that may fail by returning `false` or `NULL`, and whose recursion runs on fuel.
-- `out_of_fuel` has no counterpart in the code.
use mathlib.Core.Bool.{Bool, true, false}
use mathlib.Core.Option.{Option, none, some}

pub data Outcome {ℓ} (A : Type ℓ) : Type ℓ where
  returned : A → Outcome A
  failed : Outcome A
  out_of_fuel : Outcome A

abbrev pub of_option {ℓ} : {A : Type ℓ} → Option A → Outcome A
of_option none = failed
of_option (some a) = returned a

infixl 5 ◌>>=◌ ◌>>◌
abbrev pub ◌>>=◌ {ℓ κ} : {A : Type ℓ} {B : Type κ} → Outcome A → (A → Outcome B) → Outcome B
returned a >>= f = f a
failed >>= f = failed
out_of_fuel >>= f = out_of_fuel

abbrev pub ◌>>◌ {ℓ} : {B : Type ℓ} → Outcome (Unit {0}) → Outcome B → Outcome B
m >> k = m >>= λ _. k

-- `if (!test) return false;`
abbrev pub require : Bool → Outcome (Unit {0})
require true = returned tt
require false = failed
