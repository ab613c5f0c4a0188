-- ===== src/Examples/Samples.antt =====
-- The theorems on the sample demand.
use trademgen.Prelude.{◌≡◌, refl, ok}
use trademgen.Prelude.Int.{pos}
use trademgen.Attribute.Continuous
use trademgen.Attribute.Continuous.{int_scalar}
use trademgen.Manager.SampleData.{bkk_departure_time}
use trademgen.Manager.SampleMaps.{bkk_departure_time_at_night}
use trademgen.Examples.Setting.{plain, ordered}

bkk_departure_time_at_night_example :
    Continuous.get_value ⦃p = plain⦄ ⦃s = int_scalar ⦃p = plain⦄⦄
      (Continuous.init ⦃p = plain⦄ (bkk_departure_time ⦃p = plain⦄))
      (pos 50)
    ≡ ok (pos 3600)
bkk_departure_time_at_night_example =
    bkk_departure_time_at_night ⦃p = plain⦄ ordered refl (pos 50) refl
