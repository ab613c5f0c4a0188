-- ===== src/Examples/Attributes.antt =====
-- The theorems on attributes at concrete distributions.
use Prim.Native.String.{String}
use trademgen.Prelude.{ℕ, ◌≡◌, ◌↔◌, true, false, [], ◌∷◌, arith, ◌==◌, index_out_of_range, ok, err}
use trademgen.Prelude.Int.{ℤ, pos, negsuc}
use trademgen.Attribute.Categorical
use trademgen.Attribute.Categorical.{ProbabilityMassFunction}
use trademgen.Attribute.Categorical.Draw.{
  total, zero_mass, HasMass, get_value-init, get_value-HasMass, get_value-fails_iff,
}
use trademgen.Attribute.Categorical.Check.{check_value_iff}
use trademgen.Attribute.Continuous
use trademgen.Attribute.Continuous.{ContinuousDistribution, real_scalar, int_scalar}
use trademgen.Attribute.Continuous.Draw.{get_value-inverse}
use trademgen.Attribute.Continuous.Bound.{get_upper_bound-init, get_derivative_value-init}
use trademgen.Examples.Setting.{plain, ordered, sums_grow}

-- Singapore 0.7, Bangkok 0.3, and the rest of the world, which is never drawn.
abbrev pub points_of_sale : ProbabilityMassFunction ⦃p = plain⦄ String
points_of_sale = ("SIN", pos 70) ∷ ("row", pos 0) ∷ ("BKK", pos 30) ∷ []

-- The days 0, 5 and 9, with the masses 0.25, 0 and 0.75.
abbrev stays : ProbabilityMassFunction ⦃p = plain⦄ ℕ
stays = (0, pos 25) ∷ (5, pos 0) ∷ (9, pos 75) ∷ []

-- From 330 days before the departure to the day before it.
abbrev pub arrivals : ContinuousDistribution ⦃p = plain⦄ ℤ
arrivals = (negsuc 32_999, pos 0) ∷ (negsuc 4_999, pos 40) ∷ (negsuc 99, pos 100) ∷ []

get_value-init_example :
    Categorical.get_value ⦃p = plain⦄ (Categorical.init points_of_sale) (pos 81) ≡ ok "BKK"
get_value-init_example = get_value-init ⦃p = plain⦄ points_of_sale (pos 81)

get_value-HasMass_example : HasMass ⦃p = plain⦄ "BKK" points_of_sale
get_value-HasMass_example =
    get_value-HasMass ⦃p = plain⦄ points_of_sale (pos 81) "BKK"
      (get_value-init ⦃p = plain⦄ points_of_sale (pos 81))

get_value-fails_iff_example :
    (Categorical.get_value ⦃p = plain⦄ (Categorical.init points_of_sale) (pos 101)
      ≡ err index_out_of_range)
    ↔ (plain.lt (total ⦃p = plain⦄ (zero_mass ⦃p = plain⦄) points_of_sale) (pos 101) ≡ true)
unfolding Categorical.init
get_value-fails_iff_example =
    get_value-fails_iff ⦃p = plain⦄ ordered sums_grow points_of_sale (pos 101) (omega arith)

same_number : (a b : ℕ) → ((a == b) ≡ true) ↔ (a ≡ b)
same_number a b = (λ h. ground arith, λ h. ground arith)

check_value_iff_example :
    ((Categorical.check_value ⦃p = plain⦄ ◌==◌ (Categorical.init stays) 9 ≡ ok true)
      ↔ HasMass ⦃p = plain⦄ 9 stays)
    × ((Categorical.check_value ⦃p = plain⦄ ◌==◌ (Categorical.init stays) 9 ≡ ok false)
        ↔ (¬ HasMass ⦃p = plain⦄ 9 stays))
check_value_iff_example = check_value_iff ⦃p = plain⦄ ◌==◌ same_number stays 9

get_value-inverse_example :
    Continuous.get_value ⦃p = plain⦄ ⦃s = real_scalar ⦃p = plain⦄⦄
      (Continuous.init arrivals)
      (pos 70)
    ≡ ok (negsuc 2549)
get_value-inverse_example =
    get_value-inverse ⦃p = plain⦄ ⦃s = real_scalar ⦃p = plain⦄⦄ ordered arrivals (pos 70)

get_upper_bound-init_example :
    Continuous.get_upper_bound ⦃p = plain⦄ ⦃s = real_scalar ⦃p = plain⦄⦄
      (Continuous.init arrivals)
      (negsuc 9_999)
    ≡ ok (negsuc 4_999)
get_upper_bound-init_example =
    get_upper_bound-init ⦃p = plain⦄ ⦃s = real_scalar ⦃p = plain⦄⦄ arrivals (negsuc 9_999)

get_derivative_value-init_example :
    Continuous.get_derivative_value ⦃p = plain⦄ ⦃s = real_scalar ⦃p = plain⦄⦄
      (Continuous.init arrivals)
      (negsuc 1_999)
    ≡ ok (pos 1)
get_derivative_value-init_example =
    get_derivative_value-init ⦃p = plain⦄ ⦃s = real_scalar ⦃p = plain⦄⦄ arrivals (negsuc 1_999)
