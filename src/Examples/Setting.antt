-- ===== src/Examples/Setting.antt =====
-- A platform on which the theorems are applied: doubles in hundredths, generators that count their
-- calls, dates and times as numbers of days and of milliseconds.
use Prim.Native.String.{String}
use Prim.Native.Nat.{◌%◌}
use native.Mathlib.Nat.{mul-le-mul_left}
use trademgen.Prelude.{
  leb, some, none, ℕ, zero, suc, ◌+◌, ◌*◌, ◌/◌, ◌≤◌, ◌≡◌, refl, Bool, true, false, not, ◌&&◌, List,
  [], ◌∷◌, arith, if◌then◌else◌, Result, ok, err,
}
use trademgen.Prelude.Int.{ℤ, pos, negsuc, lt_ℤ, le_ℤ, sub_ℕ, pos_part, neg_part}
use trademgen.Platform.{Platform, IsOrdered}
use trademgen.Attribute.Categorical.Draw.{Grows}
use trademgen.Stream.Cumulative.{IsMonotone}

-- The operations on integers, which compute wherever they stand.
infixl 65 ◌⊕◌ ◌⊖◌
infixl 70 ◌⊛◌
abbrev ◌⊕◌ : ℤ → ℤ → ℤ
a ⊕ b = sub_ℕ (pos_part a + pos_part b) (neg_part a + neg_part b)

abbrev ◌⊖◌ : ℤ → ℤ → ℤ
a ⊖ b = sub_ℕ (pos_part a + neg_part b) (neg_part a + pos_part b)

abbrev ◌⊛◌ : ℤ → ℤ → ℤ
a ⊛ b =
    sub_ℕ (pos_part a * pos_part b + neg_part a * neg_part b)
      (pos_part a * neg_part b + neg_part a * pos_part b)

-- m / 10 ^ k in hundredths.
abbrev hundredths : ℕ → ℕ → ℕ
hundredths m zero = m * 100
hundredths m (suc k) = hundredths m k / 10

abbrev decimal_100 : ℤ → ℕ → ℤ
decimal_100 (pos m) k = pos (hundredths m k)
decimal_100 (negsuc m) k = pos 0 ⊖ pos (hundredths (suc m) k)

abbrev of_int_100 : ℤ → ℤ
of_int_100 (pos m) = pos (m * 100)
of_int_100 (negsuc m) = pos 0 ⊖ pos (suc m * 100)

abbrev mul_100 : ℤ → ℤ → ℤ
mul_100 (pos a) (pos b) = pos (a * b / 100)
mul_100 (pos a) (negsuc b) = pos 0 ⊖ pos (a * suc b / 100)
mul_100 (negsuc a) (pos b) = pos 0 ⊖ pos (suc a * b / 100)
mul_100 (negsuc a) (negsuc b) = pos (suc a * suc b / 100)

abbrev div_100 : ℤ → ℤ → ℤ
div_100 (pos a) (pos b) = pos (a * 100 / b)
div_100 (pos a) (negsuc b) = pos 0 ⊖ pos (a * 100 / suc b)
div_100 (negsuc a) (pos b) = pos 0 ⊖ pos (suc a * 100 / b)
div_100 (negsuc a) (negsuc b) = pos (suc a * 100 / suc b)

abbrev floor_100 : ℤ → ℤ
floor_100 (pos a) = pos (a / 100)
floor_100 (negsuc a) = negsuc (a / 100)

abbrev trunc_100 : ℤ → ℤ
trunc_100 (pos a) = pos (a / 100)
trunc_100 (negsuc a) = pos 0 ⊖ pos (suc a / 100)

abbrev eq_ℤ : ℤ → ℤ → Bool
eq_ℤ a b = not (lt_ℤ a b) && not (lt_ℤ b a)

-- The number of days in a number of milliseconds.
abbrev day : ℤ → ℤ
day (pos a) = pos (a / 86_400_000)
day (negsuc a) = negsuc (a / 86_400_000)

abbrev first_days : ℤ → ℕ → List ℤ
first_days d zero = []
first_days d (suc n) = d ∷ first_days (d ⊕ pos 1) n

abbrev span : ℤ → ℕ
span (pos n) = n
span (negsuc n) = 0

instance abbrev pub plain : Platform
plain = record {
  Real = ℤ;
  decimal = decimal_100;
  of_int = of_int_100;
  add = ◌⊕◌;
  sub = ◌⊖◌;
  mul = mul_100;
  div = div_100;
  pow = λ a b. a;
  neg = λ a. pos 0 ⊖ a;
  log = λ a. a ⊖ pos 100;
  lt = lt_ℤ;
  le = le_ℤ;
  eq = eq_ℤ;
  floor = floor_100;
  trunc = trunc_100;
  Generator = ℕ;
  seeded = span;
  uniform = λ g. (pos (g * 37 % 100), suc g);
  exponential = λ rate g. (pos (g * 700), suc g);
  normal = λ mean dev g. (mean, suc g);
  seconds_in_one_day = pos 8_640_000;
  milliseconds_in_one_second = pos 100_000;
  hour_converted_in_seconds = pos 3600;
  default_party_size = pos 1;
  Date = ℤ;
  DateTime = ℤ;
  Duration = ℤ;
  hours = λ n. n ⊛ pos 3_600_000;
  minutes = λ n. n ⊛ pos 60_000;
  seconds = λ n. n ⊛ pos 1000;
  millisec = λ n. n;
  time_duration = λ h m s. h ⊛ pos 3_600_000 ⊕ m ⊛ pos 60_000 ⊕ s ⊛ pos 1000;
  plus = ◌⊕◌;
  total_seconds = λ d. pos (span d / 1000);
  total_milliseconds = λ d. d;
  is_negative = λ d. lt_ℤ d (pos 0);
  duration_lt = lt_ℤ;
  ptime = λ d t. d ⊛ pos 86_400_000 ⊕ t;
  date = day;
  time_of_day = λ t. t ⊖ day t ⊛ pos 86_400_000;
  later = ◌⊕◌;
  earlier = ◌⊖◌;
  elapsed = ◌⊖◌;
  date_lt = lt_ℤ;
  date_eq = eq_ℤ;
  days_between = ◌⊖◌;
  calendar_date = λ y m d. if leb d 31 then some (pos (y * 372 + m * 31 + d)) else none;
  next_day = λ d. d ⊕ pos 1;
  day_of_week = λ d. span d % 7;
  date_string = λ d. if lt_ℤ d (pos 100) then "2009-Feb-09" else "2010-Feb-08";
  days_from = λ d e. first_days d (span (e ⊖ d));
  DowStruct = String;
  dow_struct = λ s. s;
  standard_day_of_week = λ s n. leb n 1;
  BookingClassId = ℕ;
  SegmentPath = String;
}

pub ordered : IsOrdered ⦃p = plain⦄
ordered = record {
  lt_irrefl = λ a. ground arith;
  lt_trans = λ a b c h k. ground arith;
  lt_cotrans = λ a b c h. ground arith;
  le-eq-not-lt = λ a b. ground arith;
  eq-def = λ a b. refl;
}

pub sums_grow : Grows ⦃p = plain⦄
sums_grow a m h = ground arith

product_bound : (a b : ℕ) → b ≤ 100 → a * b / 100 ≤ a
product_bound a b h = let e : a * b ≤ a * 100 = mul-le-mul_left a h in omega arith

product-IsProbability :
    (a b : ℤ)
    → le_ℤ (pos 0) a ≡ true
    → le_ℤ (pos 0) b ≡ true
    → le_ℤ b (pos 100) ≡ true
    → (le_ℤ (pos 0) (mul_100 a b) ≡ true) × (le_ℤ (mul_100 a b) a ≡ true)
product-IsProbability (pos a) (pos b) ha hb h = (ground arith, ground (arith, product_bound a b))
product-IsProbability (negsuc a) b ha hb h = absurd (ground arith)
product-IsProbability (pos a) (negsuc b) ha hb h = absurd (ground arith)

pub monotone : IsMonotone ⦃p = plain⦄
monotone = record {
  sub-anti = λ a b c h. ground arith;
  unit-sub_unit = refl;
  unit-sub_nought = refl;
  mul-IsProbability = λ a b (la, ua) (lb, ub). product-IsProbability a b la lb ub;
  pow_nonneg = λ a b h. h;
  small = (refl, refl);
  variate = λ g. (ground arith, ground arith);
}

abbrev pub succeeds {ℓ} : {A : Type ℓ} → Result A → Bool
succeeds (ok a) = true
succeeds (err e) = false

-- What a call that succeeds answers.
pub answer {ℓ} : {A : Type ℓ} (r : Result A) → succeeds r ≡ true → (a : A) × (r ≡ ok a)
answer (ok a) h = (a, refl)
answer (err e) h = absurd (ground arith)
