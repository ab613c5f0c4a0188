-- ===== src/Attribute/Exact.antt =====
-- CategoricalAttribute (trademgen/basic/CategoricalAttribute.hpp), the template before
-- CategoricalAttributeLite: the inverse of the distribution is a `std::map` that is searched for the
-- variate itself.
use trademgen.Prelude.{
  ◌≡◌, refl, ap, false, not, ◌&&◌, Option, none, some, List, [], ◌∷◌, arith, if◌then◌else◌, All,
  index_out_of_range, Result, err, or_fault,
}
use trademgen.Prelude.Int.{pos}
use trademgen.Platform.{Platform, IsOrdered}
use trademgen.Parser.Maps.{insert}
use trademgen.Attribute.Dictionary.{value_to_key, key_to_value}
use trademgen.Attribute.Categorical.{ProbabilityMassFunction}

module _ ⦃p : Platform⦄ where
  open p use {Real, add, lt, eq, decimal}

  pub record CategoricalAttribute (T : Type 0) : Type 0 where
    pub probability_mass_function : ProbabilityMassFunction T
    pub inverse_cumulative_distribution : List (Real × T)

  module _ {T : Type 0} where
    -- The loop of `determineInverseCumulativeDistributionFromProbabilityMassFunction`, with the sum
    -- so far.
    unfoldable pub determine_inverse_from_mass :
        Real → ProbabilityMassFunction T → List (Real × T) → List (Real × T)
    unfolding insert key_to_value value_to_key
    determine_inverse_from_mass so_far [] inverse = inverse
    determine_inverse_from_mass so_far ((v, mass) ∷ m) inverse =
        let next = add so_far (key_to_value mass) in
        let with_mass =
          determine_inverse_from_mass next m (insert lt (value_to_key next) v inverse).0 in
        let without_mass = determine_inverse_from_mass so_far m inverse in
        if lt (decimal (pos 0) 0) (key_to_value mass) then with_mass else without_mass

    -- The main constructor, and the copy constructor on the map of another attribute.
    unfoldable pub construct_from_mass : ProbabilityMassFunction T → CategoricalAttribute T
    unfolding determine_inverse_from_mass
    construct_from_mass m = record {
      probability_mass_function = m;
      inverse_cumulative_distribution = determine_inverse_from_mass (decimal (pos 0) 0) m [];
    }

    -- `setProbabilityMassFunction`: the old inverse is not cleared.
    unfoldable pub set_probability_mass_function :
        ProbabilityMassFunction T → CategoricalAttribute T → CategoricalAttribute T
    unfolding determine_inverse_from_mass
    set_probability_mass_function m a = record {
      probability_mass_function = m;
      inverse_cumulative_distribution =
          determine_inverse_from_mass (decimal (pos 0) 0) m a.inverse_cumulative_distribution;
    }

    -- `std::map::find`: a key that is neither below nor above.
    unfoldable pub find_key : Real → List (Real × T) → Option T
    find_key key [] = none
    find_key key ((c, v) ∷ m) =
        let later = find_key key m in if not (lt c key) && not (lt key c) then some v else later

    unfoldable pub get_exact_value : CategoricalAttribute T → Real → Result T
    unfolding find_key value_to_key
    get_exact_value a u =
        or_fault index_out_of_range (find_key (value_to_key u) a.inverse_cumulative_distribution)

    -- A variate that equals no key of the inverse is refused, wherever it lies.
    get_exact_value-fails :
        (laws : IsOrdered) (a : CategoricalAttribute T) (u : Real)
        → All (λ e. eq u e.0 ≡ false) a.inverse_cumulative_distribution
        → get_exact_value a u ≡ err index_out_of_range
    unfolding get_exact_value find_key value_to_key
    get_exact_value-fails laws a u h =
        ap (or_fault index_out_of_range) (not_found a.inverse_cumulative_distribution h)
      where
        not_found : (m : List (Real × T)) → All (λ e. eq u e.0 ≡ false) m → find_key u m ≡ none
        not_found [] h = refl
        not_found ((c, v) ∷ m) (ne, h) = ground (arith, not_found m h, laws.eq-def u c)
