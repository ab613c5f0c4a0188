-- ===== src/Platform/Order.antt =====
-- The order of the doubles, and what the program's formulas for times need of their arithmetic.
use trademgen.Prelude.{◌≡◌, true, false, arith}
use trademgen.Prelude.Int.{ℤ, pos, negsuc, ◌*ℤ◌, ◌+ℤ◌, ◌-ℤ◌, ◌≤ℤ◌}
use trademgen.Platform.{Platform, IsOrdered}

module _ ⦃p : Platform⦄ where
  open p use {
    Real, decimal, of_int, add, sub, mul, div, neg, lt, le, floor, exponential, seconds, millisec,
    plus, later, elapsed, total_milliseconds, seconds_in_one_day, milliseconds_in_one_second,
  }

  infix 50 ◌≼◌
  abbrev pub ◌≼◌ : Real → Real → Type 0
  a ≼ b = le a b ≡ true

  abbrev pub nought : Real
  nought = decimal (pos 0) 0

  abbrev pub unit : Real
  unit = decimal (pos 1) 0

  module _ (laws : IsOrdered) where
    open laws use {lt_irrefl, lt_trans, lt_cotrans, le-eq-not-lt}

    pub ≼_trans : (a b c : Real) → a ≼ b → b ≼ c → a ≼ c
    ≼_trans a b c h k =
        ground (arith, le-eq-not-lt a b, le-eq-not-lt b c, le-eq-not-lt a c, lt_cotrans c b a)

    pub ≼_refl : (a : Real) → a ≼ a
    ≼_refl a = ground (arith, le-eq-not-lt a a, lt_irrefl a)

    pub lt-≼ : (a b : Real) → lt a b ≡ true → a ≼ b
    lt-≼ a b h = ground (arith, le-eq-not-lt a b, lt_trans a b a, lt_irrefl a)

    pub not-lt-≼ : (a b : Real) → lt b a ≡ false → a ≼ b
    not-lt-≼ a b h = ground (arith, le-eq-not-lt a b)

  -- Operations of `double`, which are monotone after rounding, and exact at whole numbers of this
  -- size; an exponential variate of a rate that is not negative; and Boost's durations and
  -- differences of times, which are exact.
  pub record IsTimed : Type 0 where
    pub sub_mono : (a b c : Real) → a ≼ b → sub a c ≼ sub b c
    pub sub_nonneg : (a b : Real) → a ≼ b → nought ≼ sub b a
    pub mul_mono : (a b c : Real) → nought ≼ c → a ≼ b → mul a c ≼ mul b c
    pub mul_nonneg : (a b : Real) → nought ≼ a → nought ≼ b → nought ≼ mul a b
    pub div_nonneg : (a b : Real) → nought ≼ a → nought ≼ b → nought ≼ div a b
    pub add_grows : (a b : Real) → nought ≼ b → a ≼ add a b
    pub floor_mono : (a b : Real) → a ≼ b → floor a ≤ℤ floor b
    pub fraction :
        (a : Real) → (nought ≼ sub a (of_int (floor a))) × (sub a (of_int (floor a)) ≼ unit)
    pub day : nought ≼ seconds_in_one_day
    pub second : nought ≼ milliseconds_in_one_second
    pub no_second : floor (mul nought milliseconds_in_one_second) ≡ pos 0
    pub whole_second : floor (mul unit milliseconds_in_one_second) ≡ pos 1000
    pub variate : (rate : Real) (g : p.Generator) → nought ≼ rate → nought ≼ (exponential rate g).0
    -- The bound of the generation lies before the departure, and its opposite after it.
    pub minus_one : of_int (negsuc 0) ≼ neg (of_int (negsuc 0))
    pub total : (n m : ℤ) → total_milliseconds (plus (seconds n) (millisec m)) ≡ pos 1000 *ℤ n +ℤ m
    pub difference :
        (t : p.DateTime) (d e : p.Duration)
        → total_milliseconds (elapsed (later t d) (later t e))
          ≡ total_milliseconds d -ℤ total_milliseconds e
