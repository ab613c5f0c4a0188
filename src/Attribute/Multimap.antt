-- ===== src/Attribute/Multimap.antt =====
-- ContinuousAttribute (trademgen/basic/ContinuousAttribute.hpp), the template before
-- ContinuousAttributeLite: the inverse of the distribution is a multimap, which is the list of its
-- entries in the order of their keys.
pub mod Agreement
use trademgen.Prelude.{
  not_initialised, file_not_found, ℕ, zero, suc, ◌+◌, ◌-◌, ◌*◌, ◌/◌, ◌≤◌, ◌<◌, ◌≡◌, refl, sym, ap,
  ◌∙◌, subst, ◌≢◌, ◌↔◌, ◌⊎◌, inl, inr, Bool, true, false, not, ◌&&◌, ◌||◌, Option, none, some, List,
  [], ◌∷◌, ◌++◌, map, arith, ltb, leb, ◌==◌, if◌then◌else◌, Bool-cases, Option-cases, length,
  get_elem?, All, length-append, length-map, get_elem?-lt, Fault, out_of_range, index_out_of_range,
  code_duplication, assertion_failed, object_not_found, undefined_behaviour, bad_date, out_of_fuel,
  Result, ok, err, ◌>>=◌, ◌>>◌, check, or_fault, Result-cases,
}
use trademgen.Platform.{Platform}
use trademgen.Attribute.Dictionary.{value_to_key, key_to_value}
use trademgen.Attribute.Continuous.{ContinuousDistribution, Scalar}

module _ ⦃p : Platform⦄ where
  open p use {Real, add, sub, mul, div, lt, eq}

  -- `ContinuousInverseDistribution_T`.
  abbrev pub InverseDistribution : Type 0 → Type 0
  InverseDistribution T = List (Real × T)

  pub record ContinuousAttribute (T : Type 0) : Type 0 where
    pub cumulative_distribution : ContinuousDistribution T
    pub inverse_cumulative_distribution : InverseDistribution T

  module _ {T : Type 0} where
    -- `std::multimap::insert`: after the entries that have the key.
    unfoldable pub insert_entry : Real → T → InverseDistribution T → InverseDistribution T
    insert_entry c v [] = (c, v) ∷ []
    insert_entry c v ((d, w) ∷ m) =
        let rest = insert_entry c v m in if lt c d then (c, v) ∷ (d, w) ∷ m else (d, w) ∷ rest

    -- The loop of `determineInverseCumulativeDistributionFromCumulativeDistribution`, which adds to
    -- the inverse that is there.
    unfoldable pub determine_inverse :
        ContinuousDistribution T → InverseDistribution T → InverseDistribution T
    unfolding insert_entry
    determine_inverse [] inverse = inverse
    determine_inverse ((v, c) ∷ m) inverse = determine_inverse m (insert_entry c v inverse)

    -- The constructor from a map.
    unfoldable pub construct_from_distribution : ContinuousDistribution T → ContinuousAttribute T
    unfolding determine_inverse
    construct_from_distribution m = record {
      cumulative_distribution = m;
      inverse_cumulative_distribution = determine_inverse m [];
    }

    -- `setCumulativeDistribution`: the old inverse is not cleared.
    unfoldable pub set_cumulative_distribution :
        ContinuousDistribution T → ContinuousAttribute T → ContinuousAttribute T
    unfolding determine_inverse
    set_cumulative_distribution m a = record {
      cumulative_distribution = m;
      inverse_cumulative_distribution = determine_inverse m a.inverse_cumulative_distribution;
    }

    -- `lower_bound`, with the entry before it. At the end of the multimap the entry is read all the
    -- same.
    unfoldable pub lower_bound :
        Real → Option (Real × T) → InverseDistribution T → Result (Option (Real × T) × Real × T)
    lower_bound key before [] = err undefined_behaviour
    lower_bound key before ((c, v) ∷ m) = elim (lt c key) [
      | true ↦ lower_bound key (some (c, v)) m
      | false ↦ ok (before, c, v)
    ]

    module _ ⦃s : Scalar T⦄ where
      open s use {minus, to_real, of_real}

      -- From the entry that was found and the one before it.
      unfoldable pub on_points : Real → Option (Real × T) × Real × T → T
      unfolding key_to_value
      on_points u (none, c_next, v_next) = v_next
      on_points u (some (c_prev, v_prev), c_next, v_next) =
          if eq (key_to_value c_next) (key_to_value c_prev)
          then v_prev
          else of_real (
              add (to_real v_prev) (
                div (mul (to_real (minus v_next v_prev)) (sub u (key_to_value c_prev)))
                  (sub (key_to_value c_next) (key_to_value c_prev))))

      unfoldable pub get_value : ContinuousAttribute T → Real → Result T
      unfolding lower_bound on_points value_to_key
      get_value a u = do
        points ← lower_bound (value_to_key u) none a.inverse_cumulative_distribution
        ok (on_points u points)
