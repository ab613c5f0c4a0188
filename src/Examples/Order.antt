-- ===== src/Examples/Order.antt =====
-- The platform of the examples has the order of times that the theorems ask for.
use native.Mathlib.Nat.{mul-le-mul_right}
use trademgen.Prelude.{ℕ, suc, ◌*◌, ◌/◌, ◌≤◌, ◌≡◌, refl, true, [], ◌∷◌, arith}
use trademgen.Prelude.Int.{ℤ, pos, negsuc, le_ℤ, ◌≤ℤ◌, ◌+ℤ◌, ◌-ℤ◌, ◌*ℤ◌}
use trademgen.Platform.Order.{IsTimed}
use trademgen.Attribute.Continuous.{ContinuousDistribution}
use trademgen.Examples.Setting.{plain}

quotient_mono : (a b c : ℕ) → a ≤ b → a * c / 100 ≤ b * c / 100
quotient_mono a b c h = let e : a * c ≤ b * c = mul-le-mul_right c h in omega arith

product_mono :
    (a b c : ℤ)
    → le_ℤ (pos 0) c ≡ true
    → le_ℤ a b ≡ true
    → le_ℤ (plain.mul a c) (plain.mul b c) ≡ true
product_mono a b (negsuc c) h k = absurd (ground arith)
product_mono (pos a) (pos b) (pos c) h k = ground (arith, quotient_mono a b c)
product_mono (pos a) (negsuc b) (pos c) h k = absurd (ground arith)
product_mono (negsuc a) (pos b) (pos c) h k = ground arith
product_mono (negsuc a) (negsuc b) (pos c) h k = ground (arith, quotient_mono (suc b) (suc a) c)

quotient_nonneg :
    (a b : ℤ) → le_ℤ (pos 0) a ≡ true → le_ℤ (pos 0) b ≡ true → le_ℤ (pos 0) (plain.div a b) ≡ true
quotient_nonneg (pos a) (pos b) h k = ground arith
quotient_nonneg (negsuc a) b h k = absurd (ground arith)
quotient_nonneg (pos a) (negsuc b) h k = absurd (ground arith)

product_nonneg :
    (a b : ℤ) → le_ℤ (pos 0) a ≡ true → le_ℤ (pos 0) b ≡ true → le_ℤ (pos 0) (plain.mul a b) ≡ true
product_nonneg (pos a) (pos b) h k = ground arith
product_nonneg (negsuc a) b h k = absurd (ground arith)
product_nonneg (pos a) (negsuc b) h k = absurd (ground arith)

floor_below : (a b : ℤ) → le_ℤ a b ≡ true → plain.floor a ≤ℤ plain.floor b
floor_below (pos a) (pos b) h = ground arith
floor_below (pos a) (negsuc b) h = absurd (ground arith)
floor_below (negsuc a) (pos b) h = ground arith
floor_below (negsuc a) (negsuc b) h = ground arith

fraction_below :
    (a : ℤ)
    → (le_ℤ (pos 0) (plain.sub a (plain.of_int (plain.floor a))) ≡ true)
      × (le_ℤ (plain.sub a (plain.of_int (plain.floor a))) (pos 100) ≡ true)
fraction_below (pos a) = ground arith
fraction_below (negsuc a) = ground arith

milliseconds_of :
    (n m : ℤ)
    → plain.total_milliseconds (plain.plus (plain.seconds n) (plain.millisec m))
      ≡ pos 1000 *ℤ n +ℤ m
unfolding ◌*ℤ◌ ◌+ℤ◌
milliseconds_of (pos n) m = ground arith
milliseconds_of (negsuc n) m = ground arith

milliseconds_between :
    (t d e : ℤ)
    → plain.total_milliseconds (plain.elapsed (plain.later t d) (plain.later t e))
      ≡ plain.total_milliseconds d -ℤ plain.total_milliseconds e
unfolding ◌-ℤ◌
milliseconds_between t d e = ground arith

pub timed : IsTimed ⦃p = plain⦄
timed = record {
  sub_mono = λ a b c h. ground arith;
  sub_nonneg = λ a b h. ground arith;
  mul_mono = product_mono;
  mul_nonneg = product_nonneg;
  div_nonneg = quotient_nonneg;
  add_grows = λ a b h. ground arith;
  floor_mono = floor_below;
  fraction = fraction_below;
  day = refl;
  second = refl;
  no_second = refl;
  whole_second = refl;
  variate = λ rate g h. ground arith;
  minus_one = refl;
  total = milliseconds_of;
  difference = milliseconds_between;
}

abbrev pub points : ContinuousDistribution ⦃p = plain⦄ ℤ
points = (negsuc 4_999, pos 40) ∷ (negsuc 99, pos 100) ∷ []
