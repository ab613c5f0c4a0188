-- ===== src/Attribute/Continuous.antt =====
-- ContinuousAttributeLite (trademgen/basic/ContinuousAttributeLite.hpp): a cumulative distribution,
-- inverted by linear interpolation. The map is the list of its entries in the order of their keys.
pub mod Draw
pub mod Bound
pub mod Ascending
use trademgen.Prelude.{
  ℕ, ◌-◌, Bool, not, ◌||◌, List, map, ◌==◌, if◌then◌else◌, length, Result, ok, ◌>>=◌, ◌>>◌, check,
}
use trademgen.Prelude.Int.{ℤ, ◌-ℤ◌, lt_ℤ}
use trademgen.Platform.{Platform}
use trademgen.Attribute.Scan.{at, scan}
use trademgen.Attribute.Dictionary.{value_to_key, key_to_value}

module _ ⦃p : Platform⦄ where
  open p use {Real, add, sub, mul, div, lt, eq, of_int, trunc}

  -- What the template does with its type `T`: `a - b`, `a > b`, `a != b`, and the conversions to and
  -- from `double`.
  pub record Scalar (T : Type 0) : Type 0 where
    pub minus : T → T → T
    pub above : T → T → Bool
    pub differs : T → T → Bool
    pub to_real : T → Real
    pub of_real : Real → T

  -- `T` is `double`.
  instance abbrev pub real_scalar : Scalar Real
  real_scalar = record {
    minus = sub;
    above = λ a b. lt b a;
    differs = λ a b. not (eq a b);
    to_real = λ a. a;
    of_real = λ a. a;
  }

  -- `T` is a signed integer type.
  instance abbrev pub int_scalar : Scalar ℤ
  unfolding ◌-ℤ◌
  int_scalar = record {
    minus = ◌-ℤ◌;
    above = λ a b. lt_ℤ b a;
    differs = λ a b. lt_ℤ a b || lt_ℤ b a;
    to_real = of_int;
    of_real = trunc;
  }

  -- `ContinuousDistribution_T`.
  abbrev pub ContinuousDistribution : Type 0 → Type 0
  ContinuousDistribution T = List (T × Real)

  pub record ContinuousAttributeLite (T : Type 0) : Type 0 where
    pub size : ℕ
    pub cumulative_distribution : List Real
    pub value_array : List T

  -- The constructor from a map; its `init` appends one element to each array for each entry.
  unfoldable pub init : {T : Type 0} → ContinuousDistribution T → ContinuousAttributeLite T
  unfolding value_to_key
  init m = record {
    size = length m;
    cumulative_distribution = map (λ e. value_to_key (e.1)) m;
    value_array = map (λ e. e.0) m;
  }

  module _ {T : Type 0} ⦃s : Scalar T⦄ where
    open s use {minus, above, differs, to_real, of_real}

    -- The last part of `getValue`: between two points.
    pub interpolate : Real → T → Real → T → Real → T
    interpolate u v_prev c_prev v_cur c_cur =
        if eq c_prev c_cur
        then v_prev
        else of_real (
            add (to_real v_prev)
              (div (mul (to_real (minus v_cur v_prev)) (sub u c_prev)) (sub c_cur c_prev)))

    unfoldable pub get_value : ContinuousAttributeLite T → Real → Result T
    unfolding scan interpolate value_to_key key_to_value
    get_value a u = do
      idx ←
          scan (λ c. lt (value_to_key u) c) (λ i. ok i) (λ i. ok i) a.cumulative_distribution a.size
            0
      if idx == 0
          then at a.value_array idx
          else if idx == a.size
          then at a.value_array (idx - 1)
          else do
            c_cur ← at a.cumulative_distribution idx
            v_cur ← at a.value_array idx
            c_prev ← at a.cumulative_distribution (idx - 1)
            v_prev ← at a.value_array (idx - 1)
            ok (interpolate u v_prev (key_to_value c_prev) v_cur (key_to_value c_cur))

    unfoldable pub get_derivative_value : ContinuousAttributeLite T → T → Result Real
    unfolding scan key_to_value
    get_derivative_value a key = do
      idx ← scan (λ v. above v key) (λ i. ok i) (λ i. ok i) a.value_array a.size 0
      check (not (idx == 0))
      check (not (idx == a.size))
      c_cur ← at a.cumulative_distribution idx
      v_cur ← at a.value_array idx
      c_prev ← at a.cumulative_distribution (idx - 1)
      v_prev ← at a.value_array (idx - 1)
      check (differs v_cur v_prev)
      ok (div (sub (key_to_value c_cur) (key_to_value c_prev)) (to_real (minus v_cur v_prev)))

    unfoldable pub get_upper_bound : ContinuousAttributeLite T → T → Result T
    unfolding scan
    get_upper_bound a key = do
      idx ← scan (λ v. above v key) (λ i. ok i) (λ i. ok i) a.value_array a.size 0
      check (not (idx == 0))
      check (not (idx == a.size))
      at a.value_array idx
