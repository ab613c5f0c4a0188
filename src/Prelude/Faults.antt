-- ===== src/Prelude/Faults.antt =====
-- What the code may end in beside a value: a C++ exception, a failed assertion, or (in the model
-- alone) a recursion that ran out of its fuel.
use mathlib.Core.Path.{◌≡◌, refl, ap}
use mathlib.Core.Bool.{Bool, true, false}
use mathlib.Core.Logic.{◌⊎◌, inl, inr, ◌≢◌}
use mathlib.Core.Option.{Option, none, some}
use native.Mathlib.Omega.{arith}

pub data Fault : Type 0 where
  -- `std::out_of_range`, thrown by `vector::at`.
  out_of_range : Fault
  -- `TRADEMGEN::IndexOutOfRangeException`.
  index_out_of_range : Fault
  -- The exceptions of `boost::gregorian::date` for a day that is not in the calendar.
  bad_date : Fault
  -- `stdair::CodeDuplicationException`.
  code_duplication : Fault
  -- `TRADEMGEN::DemandInputFileNotFoundException`.
  file_not_found : Fault
  -- `stdair::NonInitialisedServiceException`.
  not_initialised : Fault
  -- A failed `assert`.
  assertion_failed : Fault
  -- No object has the key that is looked up.
  object_not_found : Fault
  -- An iterator is read past the end of its list.
  undefined_behaviour : Fault
  out_of_fuel : Fault

pub data Result {ℓ} (T : Type ℓ) : Type ℓ where
  err : Fault → Result T
  ok : T → Result T

pub Result-cases {ℓ} :
    {T : Type ℓ} (r : Result T) → ((e : Fault) × (r ≡ err e)) ⊎ ((a : T) × (r ≡ ok a))
Result-cases (err e) = inl (e, refl)
Result-cases (ok a) = inr (a, refl)

abbrev pub or_fault {ℓ} : {T : Type ℓ} → Fault → Option T → Result T
or_fault e (some a) = ok a
or_fault e none = err e

-- `assert (b)`.
abbrev pub check : Bool → Result (Unit {0})
check true = ok tt
check false = err assertion_failed

-- The first fault ends a chain.
infixl 5 ◌>>=◌
abbrev pub ◌>>=◌ {ℓ κ} : {T : Type ℓ} {S : Type κ} → Result T → (T → Result S) → Result S
err fault >>= next = err fault
ok value >>= next = next value

infixl 5 ◌>>◌
abbrev pub ◌>>◌ {ℓ} : {S : Type ℓ} → Result (Unit {0}) → Result S → Result S
first >> second = first >>= λ _. second

-- The result is a value, or a fault of the code: the fuel of the model sufficed.
pub record HasEnded {ℓ} {T : Type ℓ} (r : Result T) : Type ℓ where
  pub not_fuel : r ≢ err out_of_fuel

pub ok-HasEnded {ℓ} : {T : Type ℓ} (a : T) → HasEnded (ok a)
ok-HasEnded a = record { not_fuel = λ h. cc }

pub err-HasEnded {ℓ} : {T : Type ℓ} (e : Fault) → e ≢ out_of_fuel → HasEnded {T = T} (err e)
err-HasEnded e h = record { not_fuel = λ q. h (let same : e ≡ out_of_fuel = ground arith in same) }

pub bind-HasEnded {ℓ κ} :
    {T : Type ℓ} {S : Type κ} (r : Result T) (f : T → Result S)
    → HasEnded r
    → ((a : T) → HasEnded (f a))
    → HasEnded (r >>= f)
bind-HasEnded (err e) f h k = err-HasEnded e (λ q. h.not_fuel (ap err q))
bind-HasEnded (ok a) f h k = k a

pub or_fault-HasEnded {ℓ} :
    {T : Type ℓ} (e : Fault) (o : Option T) → e ≢ out_of_fuel → HasEnded (or_fault e o)
or_fault-HasEnded e (some a) h = ok-HasEnded a
or_fault-HasEnded e none h = err-HasEnded e h

pub check-HasEnded {ℓ} :
    {T : Type ℓ} (b : Bool) (r : Result T) → HasEnded r → HasEnded (check b >> r)
check-HasEnded true r h = h
check-HasEnded false r h = record { not_fuel = λ q. cc }
