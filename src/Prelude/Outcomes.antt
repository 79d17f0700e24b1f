-- ===== src/Prelude/Outcomes.antt =====
-- What a C++ call can do: return a value, reach undefined behaviour (a null pointer or an index
-- out of bounds), or end the process by an uncaught exception or `std::terminate`. `out_of_fuel`
-- is no behaviour of the program: a modelled loop was given too few rounds.
use mathlib.Core.Path.{◌≡◌, refl, ap}
use mathlib.Core.Bool.{Bool, true, false}
use mathlib.Core.Option.{Option, none, some}
use mbtest.Prelude.Tests.{if◌then◌else◌}

pub data Outcome {ℓ} (A : Type ℓ) : Type ℓ where
  ok : A → Outcome A
  undefined : Outcome A
  terminated : Outcome A
  out_of_fuel : Outcome A

infixl 5 ◌>>=◌
abbrev pub ◌>>=◌ {ℓ κ} : {A : Type ℓ} {B : Type κ} → Outcome A → (A → Outcome B) → Outcome B
ok a >>= f = f a
undefined >>= f = undefined
terminated >>= f = terminated
out_of_fuel >>= f = out_of_fuel

-- Reading through a pointer, or at an index, that may not be valid.
abbrev pub deref {ℓ} : {A : Type ℓ} → Option A → Outcome A
deref none = undefined
deref (some a) = ok a

abbrev result_or {ℓ} : {A : Type ℓ} → A → Outcome A → A
result_or a (ok b) = b
result_or a undefined = a
result_or a terminated = a
result_or a out_of_fuel = a

pub ok-injective {ℓ} : {A : Type ℓ} {a b : A} → ok a ≡ ok b → a ≡ b
ok-injective {a} e = ap (result_or a) e

-- A chain that returns has a first call that returns.
pub bind_returns {ℓ κ} :
    {A : Type ℓ} {B : Type κ} {result : B} (first : Outcome A) (next : A → Outcome B)
    → first >>= next ≡ ok result
    → (value : A) × (first ≡ ok value) × (next value ≡ ok result)
bind_returns undefined next done = cc
bind_returns terminated next done = cc
bind_returns out_of_fuel next done = cc
bind_returns (ok value) next done = (value, refl, done)

-- The call does not reach undefined behaviour.
abbrev pub IsDefined {ℓ} : {A : Type ℓ} → Outcome A → Type 0
IsDefined (ok a) = Unit
IsDefined undefined = ⊥
IsDefined terminated = Unit
IsDefined out_of_fuel = Unit

pub bind-IsDefined :
    {A B : Type 0} (m : Outcome A) (f : A → Outcome B)
    → IsDefined m
    → ((a : A) → IsDefined (f a))
    → IsDefined (m >>= f)
bind-IsDefined (ok a) f h g = g a
bind-IsDefined undefined f h g = h
bind-IsDefined terminated f h g = tt
bind-IsDefined out_of_fuel f h g = tt

pub if-IsDefined :
    {A : Type 0} (m n : Outcome A) (b : Bool)
    → (b ≡ true → IsDefined m)
    → IsDefined n
    → IsDefined (if b then m else n)
if-IsDefined m n true h k = h refl
if-IsDefined m n false h k = k
