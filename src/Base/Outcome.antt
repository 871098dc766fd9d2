-- ===== src/Base/Outcome.antt =====
-- How a call of the C++ code ends: a value, undefined behaviour or a failed `assert`, or the end
-- of the model's fuel.
use mathlib.Core.Path.{◌≡◌, refl}
use mathlib.Core.Bool.{Bool, true, false}
use mathlib.Core.Option.{Option, none, some}

pub data Run {ℓ} (A : Type ℓ) : Type ℓ where
  ok : A → Run A
  fault : Run A
  out_of_fuel : Run A

infixl 5 ◌>>=◌ ◌>>◌
abbrev pub ◌>>=◌ {ℓ ℓ'} : {A : Type ℓ} {B : Type ℓ'} → Run A → (A → Run B) → Run B
out_of_fuel >>= next = out_of_fuel
fault >>= next = fault
ok value >>= next = next value

abbrev pub ◌>>◌ {ℓ} : {B : Type ℓ} → Run (Unit {0}) → Run B → Run B
m >> k = m >>= λ _. k

-- `assert(b)`
abbrev pub check : Bool → Run (Unit {0})
check true = ok tt
check false = fault

-- a null or wild pointer is a fault where it is read
abbrev pub deref {ℓ} : {A : Type ℓ} → Option A → Run A
deref (some a) = ok a
deref none = fault

-- Total correctness: the run ends without a fault, with a value of which `P` holds.
pub data Returns {ℓ ℓ'} {A : Type ℓ} (Holds : A → Type ℓ') : Run A → Type (ℓ ⊔ ℓ') where
  returns : {value : A} → Holds value → Returns Holds (ok value)

module _ {ℓ ℓ'} {A : Type ℓ} {Holds : A → Type ℓ'} where
  pub Returns-eq : {s t : Run A} → s ≡ t → Returns Holds t → Returns Holds s
  Returns-eq same h = rw same h

  pub Returns-inv : {s : Run A} → Returns Holds s → (value : A) × (s ≡ ok value) × Holds value
  Returns-inv (returns h) = (_, refl, h)

  pub Returns-map {κ} :
      {Then : A → Type κ} {s : Run A}
      → Returns Holds s
      → ((value : A) → Holds value → Then value)
      → Returns Then s
  Returns-map (returns h) weaken = returns (weaken _ h)

  pub Returns-bind {κ κ'} :
      {C : Type κ} {Then : C → Type κ'} {s : Run A} {next : A → Run C}
      → Returns Holds s
      → ((value : A) → Holds value → Returns Then (next value))
      → Returns Then (s >>= next)
  Returns-bind (returns h) continue = continue _ h
