-- ===== src/Examples/Multimaps.antt =====
-- The theorem on the two attributes of a continuous distribution, at the arrivals of the examples.
use trademgen.Prelude.{◌≡◌, refl, inl, inr}
use trademgen.Prelude.Int.{pos}
use trademgen.Attribute.Continuous
use trademgen.Attribute.Continuous.{real_scalar}
use trademgen.Attribute.Multimap
use trademgen.Attribute.Multimap.{construct_from_distribution}
use trademgen.Attribute.Multimap.Agreement.{get_value-agrees}
use trademgen.Examples.Setting.{plain, ordered}
use trademgen.Examples.Attributes.{arrivals}

get_value-agrees_example :
    Multimap.get_value ⦃p = plain⦄ ⦃s = real_scalar ⦃p = plain⦄⦄
      (construct_from_distribution ⦃p = plain⦄ arrivals)
      (pos 30)
    ≡ Continuous.get_value ⦃p = plain⦄ ⦃s = real_scalar ⦃p = plain⦄⦄
        (Continuous.init ⦃p = plain⦄ arrivals)
        (pos 30)
get_value-agrees_example =
    get_value-agrees ⦃p = plain⦄ ⦃s = real_scalar ⦃p = plain⦄⦄ ordered arrivals (pos 30)
      ((refl, (refl, tt)), ((refl, tt), (tt, tt))) (refl, (refl, (refl, tt))) (inr (inl refl))
