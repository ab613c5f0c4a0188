-- ===== src/Manager/SampleMaps.antt =====
-- The distributions of the sample demand (trademgen/command/DemandManager.cpp) as maps.
use trademgen.Prelude.{◌≡◌, refl, ◌∙◌, Bool, true, List, [], ◌∷◌, ok}
use trademgen.Prelude.Int.{pos, ◌*ℤ◌}
use trademgen.Platform.{Platform, IsOrdered}
use trademgen.Attribute.Continuous
use trademgen.Attribute.Continuous.{ContinuousDistribution, int_scalar}
use trademgen.Attribute.Continuous.Draw.{get_value-inverse}
use trademgen.Manager.SampleData.{insert_all, bkk_departure_time, literal}
use trademgen.Parser.Maps.{insert, Sorted, insert-Sorted}

-- Let the order of the keys be transitive. In whatever order the entries are inserted, the keys of
-- the map ascend.
pub insert_all-Sorted :
    {K V : Type 0} (below : K → K → Bool)
    → ((a b c : K) → below a b ≡ true → below b c ≡ true → below a c ≡ true)
    → (entries m : List (K × V)) → Sorted below m
    → Sorted below (insert_all below entries m)
unfolding insert_all
insert_all-Sorted below trans [] m s = s
insert_all-Sorted below trans ((k, v) ∷ entries) m s =
    insert_all-Sorted below trans entries (insert below k v m).0 (insert-Sorted below trans k v m s)

module _ ⦃p : Platform⦄ where
  open p use {Real, lt, hour_converted_in_seconds}

  -- The preferred departure times from Bangkok, in the order of their map.
  bkk_departure_time-def :
      hour_converted_in_seconds ≡ pos 3600
      → bkk_departure_time ≡ (
          (pos 3600, literal 6 1)
          ∷ (pos 28_800, literal 0 0)
          ∷ (pos 36_000, literal 2 1)
          ∷ (pos 50_400, literal 8 1)
          ∷ (pos 57_600, literal 10 1)
          ∷ [])
  unfolding bkk_departure_time insert_all insert ◌*ℤ◌
  bkk_departure_time-def h = rw h refl

  -- Let the doubles be ordered, and let the constant for an hour be 3600 seconds. The departure time
  -- that a request from Bangkok of the sample prefers is one o'clock at night for every variate
  -- below 0.6.
  pub bkk_departure_time_at_night :
      IsOrdered
      → hour_converted_in_seconds ≡ pos 3600
      → (u : Real) → lt u (literal 6 1) ≡ true
      → Continuous.get_value (Continuous.init bkk_departure_time) u ≡ ok (pos 3600)
  bkk_departure_time_at_night laws h u below = rw (bkk_departure_time-def h) (
      get_value-inverse laws
        ((pos 3600, literal 6 1)
          ∷ (pos 28_800, literal 0 0)
          ∷ (pos 36_000, literal 2 1)
          ∷ (pos 50_400, literal 8 1)
          ∷ (pos 57_600, literal 10 1)
          ∷ [])
        u
      ∙ rw below refl)
