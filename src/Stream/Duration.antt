-- ===== src/Stream/Duration.antt =====
-- `convertFloatIntoDuration` keeps the order of its arguments (trademgen/bom/DemandStream.cpp).
use trademgen.Prelude.{◌+◌, ◌*◌, ◌<◌, ◌≡◌, subst, inl, inr, arith, Bool-cases}
use trademgen.Prelude.Int.{
  ℤ, pos, negsuc, pos_part, neg_part, ◌+ℤ◌, ◌*ℤ◌, ◌≤ℤ◌, lt_ℤ, eq_of_parts, int_laws,
}
use trademgen.Platform.{Platform, IsOrdered}
use trademgen.Platform.Order.{◌≼◌, nought, unit, IsTimed}
use trademgen.Stream.Timing.{convert_float_into_duration}

-- A number of seconds in milliseconds.
thousand_parts :
    (n : ℤ)
    → (pos_part (pos 1000 *ℤ n) ≡ 1000 * pos_part n)
      × (neg_part (pos 1000 *ℤ n) ≡ 1000 * neg_part n)
unfolding ◌*ℤ◌
thousand_parts (pos n) = ground arith
thousand_parts (negsuc n) = ground arith

-- Seconds with milliseconds between 1 and 1001 are ordered if, for equal seconds, the milliseconds
-- are.
seconds_mono :
    (n m : ℤ) (f g : ℤ)
    → n ≤ℤ m
    → (n ≡ m → f ≤ℤ g)
    → f ≤ℤ pos 1000
    → pos 0 ≤ℤ g
    → (pos 1000 *ℤ n +ℤ (f +ℤ pos 1)) ≤ℤ (pos 1000 *ℤ m +ℤ (g +ℤ pos 1))
seconds_mono n m f g h k u l = elim (Bool-cases (lt_ℤ n m)) [
  | inl below ↦
      let apart : pos_part n + neg_part m < pos_part m + neg_part n = ground arith in
      omega (int_laws, thousand_parts n, thousand_parts m)
  | inr not_below ↦
      let same : n ≡ m = eq_of_parts n m (ground arith) in
      let ordered : f ≤ℤ g = k same in rw same (omega (int_laws, thousand_parts m))
]

module _ ⦃p : Platform⦄ (laws : IsOrdered) (timed : IsTimed) where
  open p use {
    Real, of_int, sub, mul, floor, total_milliseconds, seconds_in_one_day,
    milliseconds_in_one_second,
  }
  open timed use {
    sub_mono, mul_mono, floor_mono, fraction, day, second, no_second, whole_second, total,
  }

  abbrev whole : Real → ℤ
  whole a = floor (mul a seconds_in_one_day)

  -- The whole milliseconds of the last second.
  abbrev rest : Real → ℤ
  rest a =
      floor (mul (sub (mul a seconds_in_one_day) (of_int (whole a))) milliseconds_in_one_second)

  rest_bounds : (a : Real) → (pos 0 ≤ℤ rest a) × (rest a ≤ℤ pos 1000)
  rest_bounds a =
      let (low, high) = fraction (mul a seconds_in_one_day) in
      let x : Real = sub (mul a seconds_in_one_day) (of_int (whole a)) in
      (
        subst (λ n. n ≤ℤ rest a) no_second
            (floor_mono _ _ (mul_mono nought x milliseconds_in_one_second second low)),
        subst (λ n. rest a ≤ℤ n) whole_second
            (floor_mono _ _ (mul_mono x unit milliseconds_in_one_second second high)),
      )

  rest_mono : (a b : Real) → a ≼ b → whole a ≡ whole b → rest a ≤ℤ rest b
  rest_mono a b h same =
      let below : sub (mul a seconds_in_one_day) (of_int (whole a))
          ≼ sub (mul b seconds_in_one_day) (of_int (whole b)) =
        subst
          (λ n.
            sub (mul a seconds_in_one_day) (of_int (whole a))
            ≼ sub (mul b seconds_in_one_day) (of_int n))
          same (sub_mono _ _ (of_int (whole a)) (mul_mono a b seconds_in_one_day day h)) in
      floor_mono _ _ (mul_mono _ _ milliseconds_in_one_second second below)

  total_milliseconds-convert :
      (a : Real)
      → total_milliseconds (convert_float_into_duration a)
        ≡ pos 1000 *ℤ whole a +ℤ (rest a +ℤ pos 1)
  unfolding convert_float_into_duration
  total_milliseconds-convert a = total _ _

  -- Let the operations on doubles be monotone after rounding. Of two numbers of days the one that
  -- is not above the other is converted into a duration that is not above the other's.
  pub convert_float_into_duration_mono :
      (a b : Real)
      → a ≼ b
      → total_milliseconds (convert_float_into_duration a)
        ≤ℤ total_milliseconds (convert_float_into_duration b)
  convert_float_into_duration_mono a b h =
      rw (total_milliseconds-convert a, total_milliseconds-convert b)
        (seconds_mono (whole a) (whole b) (rest a) (rest b)
          (floor_mono _ _ (mul_mono a b seconds_in_one_day day h)) (rest_mono a b h)
          (rest_bounds a).1 (rest_bounds b).0)
