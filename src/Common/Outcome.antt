-- ===== src/Common/Outcome.antt =====
-- How a C function ends: with a value, by `exit(1)` after a message, by undefined behaviour, or,
-- in the model of an unbounded loop only, by spending its fuel.
use mathlib.Core.Path.{◌≡◌, refl}
use Prim.Native.Nat.{ℕ, zero, suc, ◌<◌}
use mathlib.Core.List.{List, [], ◌∷◌}
use native.Mathlib.Omega.{arith}
use squel.Common.Lists.{get_or, length}
use mathlib.Core.Bool.{Bool, true, false}
use squel.Common.Tests.{if◌then◌else◌}

-- Undefined behaviour of the C standard that the source can reach. `indeterminate` is the use of what
-- nothing has set, and of a number that no constant of an enumeration has.
pub data Fault : Type 0 where
  out_of_bounds division_by_zero null_pointer use_after_free signed_overflow : Fault
  indeterminate : Fault

pub data Run {ℓ} (Value : Type ℓ) : Type ℓ where
  out_of_fuel exit : Run Value
  fault : Fault → Run Value
  ok : Value → Run Value

-- What comes after a call runs only if the call returns.
abbrev pub ◌>>=◌ {ℓ κ} :
    {Value : Type ℓ} {Next : Type κ} → Run Value → (Value → Run Next) → Run Next
out_of_fuel >>= next = out_of_fuel
exit >>= next = exit
fault cause >>= next = fault cause
ok value >>= next = next value

abbrev pub ◌>>◌ {κ} : {Next : Type κ} → Run (Unit {0}) → Run Next → Run Next
checked >> rest = checked >>= λ _. rest

infixl 5 ◌>>=◌ ◌>>◌
-- `if (!test) exit(1);`
abbrev pub require : Bool → Run (Unit {0})
require true = ok tt
require false = exit

-- A test whose failure is undefined behaviour.
abbrev pub defined : Bool → Fault → Run (Unit {0})
defined true e = ok tt
defined false e = fault e

-- A sequence that returns is a first part that returns, and a second part that does.
pub >>=-eq-ok {ℓ κ} :
    {Value : Type ℓ} {Next : Type κ} (first : Run Value) (next : Value → Run Next) {result : Next}
    → (first >>= next) ≡ ok result
    → (value : Value) × (first ≡ ok value) × (next value ≡ ok result)
>>=-eq-ok out_of_fuel next e = cc
>>=-eq-ok exit next e = cc
>>=-eq-ok (fault cause) next e = cc
>>=-eq-ok (ok value) next e = (value, refl, e)

-- `a[i]` of an array that holds the list.
unfoldable pub at {ℓ} : {A : Type ℓ} → List A → ℕ → Run A
at [] i = fault out_of_bounds
at (x ∷ xs) zero = ok x
at (x ∷ xs) (suc i) = at xs i

pub at-get_or {ℓ} :
    {A : Type ℓ} (xs : List A) (i : ℕ) (d : A) → i < length xs → at xs i ≡ ok (get_or xs i d)
unfolding at
at-get_or [] i d h = elim h [ ]
at-get_or (x ∷ xs) zero d h = refl
at-get_or (x ∷ xs) (suc i) d h = at-get_or xs i d (omega arith)

-- The result of a model that had enough fuel.
abbrev pub IsEnd {ℓ} : {Value : Type ℓ} → Run Value → Type 0
IsEnd out_of_fuel = ⊥
IsEnd _ = Unit

pub record Ends {ℓ} {Value : Type ℓ} (run : Run Value) : Type 0 where
  pub end : IsEnd run

pub Ends-ok {ℓ} : {Value : Type ℓ} (value : Value) → Ends (ok value)
Ends-ok value = record { end = tt }

pub Ends-exit {ℓ} : {Value : Type ℓ} → Ends {Value = Value} exit
Ends-exit = record { end = tt }

pub Ends-require : (b : Bool) → Ends (require b)
Ends-require true = record { end = tt }
Ends-require false = record { end = tt }

pub Ends-defined : (b : Bool) (cause : Fault) → Ends (defined b cause)
Ends-defined true cause = record { end = tt }
Ends-defined false cause = record { end = tt }

pub Ends->>= {ℓ κ} :
    {Value : Type ℓ} {Next : Type κ} (run : Run Value) (next : Value → Run Next)
    → Ends run
    → ((value : Value) → run ≡ ok value → Ends (next value))
    → Ends (run >>= next)
Ends->>= out_of_fuel next h k = record { end = h.end }
Ends->>= exit next h k = record { end = tt }
Ends->>= (fault cause) next h k = record { end = tt }
Ends->>= (ok value) next h k = k value refl

pub Ends-at {ℓ} : {A : Type ℓ} (xs : List A) (i : ℕ) → Ends (at xs i)
unfolding at
Ends-at [] i = record { end = tt }
Ends-at (x ∷ xs) zero = record { end = tt }
Ends-at (x ∷ xs) (suc i) = Ends-at xs i

pub Ends-fault {ℓ} : {Value : Type ℓ} (cause : Fault) → Ends {Value = Value} (fault cause)
Ends-fault cause = record { end = tt }

pub Ends-if {ℓ} :
    {Value : Type ℓ} (b : Bool) (m n : Run Value) → Ends m → Ends n → Ends (if b then m else n)
Ends-if true m n em en = em
Ends-if false m n em en = en

pub ruleset ends_rules =
    (Ends-ok, Ends-exit, Ends-fault, Ends-require, Ends-defined, Ends->>=, Ends-at, Ends-if)
