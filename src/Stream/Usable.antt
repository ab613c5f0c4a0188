-- ===== src/Stream/Usable.antt =====
-- When the maps of a demand give a whole request (trademgen/bom/DemandStream.cpp).
use trademgen.Prelude.{
  ℕ, ◌<◌, ◌≡◌, refl, sym, ap, ◌∙◌, subst, inl, inr, true, false, ◌∷◌, arith, if◌then◌else◌, ok,
  Result-cases,
}
use trademgen.Platform.{Platform, IsOrdered}
use trademgen.Attribute.Categorical
use trademgen.Attribute.Categorical.{CategoricalAttributeLite, ProbabilityMassFunction}
use trademgen.Attribute.Categorical.Draw.{
  get_value-init, get_value-fails_iff, Grows, total, zero_mass,
}
use trademgen.Attribute.Continuous
use trademgen.Attribute.Continuous.{
  ContinuousAttributeLite, ContinuousDistribution, Scalar, real_scalar, int_scalar,
}
use trademgen.Attribute.Continuous.Draw.{get_value-inverse, between}
use trademgen.Demand.{CharacteristicsInput, characteristics, create_frat5_pattern}
use trademgen.Stream.{DemandStream, sta_ord, still_having}
use trademgen.Stream.Request.{BookingRequest, generate_next_request}
use trademgen.Stream.Total.{IsComplete, Draws, Inverts, generate_next_request-total}

module _ ⦃p : Platform⦄ where
  open p use {Real, Generator, uniform, lt}

  -- The mass function has a positive mass, and no variate lies above the sum of those.
  abbrev pub Covers : {T : Type 0} → ProbabilityMassFunction T → Type 0
  Covers m =
      (0 < (Categorical.init m).size)
      × ((g : Generator) → lt (total zero_mass m) (uniform g).0 ≡ false)

  abbrev pub HasEntry : {T : Type 0} → ContinuousDistribution T → Type 0
  HasEntry {T} m = (v : T) × (c : Real) × (es : ContinuousDistribution T) × (m ≡ (v, c) ∷ es)

  -- The maps of a demand with a value for whatever is drawn.
  pub record IsUsable (i : CharacteristicsInput) : Type 0 where
    pub arrival_entry : HasEntry i.arrival_pattern
    pub pos_covers : Covers i.pos_prob_mass
    pub channel_covers : Covers i.channel_prob_mass
    pub trip_type_covers : Covers i.trip_type_prob_mass
    pub stay_covers : Covers i.stay_duration_prob_mass
    pub flyer_covers : Covers i.frequent_flyer_prob_mass
    pub time_entry : HasEntry i.preferred_departure_time
    pub value_entry : HasEntry i.value_of_time

  module _ (laws : IsOrdered) (grows : Grows) where
    Covers-Draws :
        {T : Type 0} (m : ProbabilityMassFunction T) → Covers m → Draws (Categorical.init m)
    Covers-Draws m (size, below) g =
        elim (Result-cases (Categorical.get_value (Categorical.init m) (uniform g).0)) [
          | inl (f, e) ↦ absurd (
              ground (
                arith,
                below g,
                get_value-init m (uniform g).0,
                get_value-fails_iff laws grows m (uniform g).0 size,
              ))
          | inr r ↦ r
        ]

    HasEntry-Inverts :
        {T : Type 0} ⦃s : Scalar T⦄ (m : ContinuousDistribution T)
        → HasEntry m
        → Inverts (Continuous.init m)
    HasEntry-Inverts m (v, c, es, e) u = (
      if lt u c then v else between u v c es,
      ap (λ n. Continuous.get_value (Continuous.init n) u) e
          ∙ get_value-inverse laws ((v, c) ∷ es) u,
    )

    pub IsUsable-IsComplete :
        (i : CharacteristicsInput) → IsUsable i → IsComplete (characteristics i)
    unfolding characteristics create_frat5_pattern
    IsUsable-IsComplete i h = record {
      arrival = HasEntry-Inverts i.arrival_pattern h.arrival_entry;
      pos = Covers-Draws i.pos_prob_mass h.pos_covers;
      channel = Covers-Draws i.channel_prob_mass h.channel_covers;
      trip_type = Covers-Draws i.trip_type_prob_mass h.trip_type_covers;
      stay_duration = Covers-Draws i.stay_duration_prob_mass h.stay_covers;
      frequent_flyer = Covers-Draws i.frequent_flyer_prob_mass h.flyer_covers;
      departure_time = HasEntry-Inverts i.preferred_departure_time h.time_entry;
      frat5 = HasEntry-Inverts create_frat5_pattern (_, _, _, refl);
      time_value = HasEntry-Inverts i.value_of_time h.value_entry;
    }

    -- Let the doubles be ordered and adding a positive mass never lower a sum, and let the stream
    -- be made of usable maps: each mass function has a positive mass and no variate of a generator
    -- above the sum of those, and each continuous distribution has an entry. Where a request is
    -- left, the statistics order generates one.
    pub request_total :
        (fuel : ℕ) (s : DemandStream) (generator : Generator) (i : CharacteristicsInput)
        → IsUsable i
        → s.demand_characteristics ≡ characteristics i
        → still_having s sta_ord ≡ true
        → (r : BookingRequest × DemandStream × Generator) × (generate_next_request fuel s generator
              sta_ord
            ≡ ok r)
    request_total fuel s generator i usable same more =
        generate_next_request-total fuel s generator
          (subst IsComplete (sym same) (IsUsable-IsComplete i usable)) more
