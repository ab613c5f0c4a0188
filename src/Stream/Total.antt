-- ===== src/Stream/Total.antt =====
-- When a whole request is generated: `generateNextRequest` with the statistics order
-- (trademgen/bom/DemandStream.cpp).
use trademgen.Prelude.{ℕ, ◌≡◌, refl, sym, subst, inl, inr, true, arith, Result, ok, Result-cases}
use trademgen.Prelude.Int.{ℤ, pos, ◌-ℤ◌}
use trademgen.Platform.{Platform}
use trademgen.Attribute.Categorical
use trademgen.Attribute.Categorical.{CategoricalAttributeLite, ProbabilityMassFunction}
use trademgen.Attribute.Continuous
use trademgen.Attribute.Continuous.{
  ContinuousAttributeLite, ContinuousDistribution, Scalar, real_scalar, int_scalar,
}
use trademgen.Demand.{DemandCharacteristics, get_pos_value}
use trademgen.Stream.{DemandStream, DemandGenerationMethod, sta_ord, still_having}
use trademgen.Stream.Timing.{statistics_order, next_cumulative}
use trademgen.Stream.Choice.{
  draw_variate, generate_pos, generate_channel, generate_trip_type, generate_stay_duration,
  generate_frequent_flyer, generate_change_fees, generate_non_refundable,
  generate_preferred_departure_time, generate_value_of_time, generate_wtp,
}
use trademgen.Stream.Request.{BookingRequest, generate_next_request, generate_time}
use trademgen.Stream.Frame.{generate_time-SameSetup}

module _ ⦃p : Platform⦄ where
  open p use {
    Real, Generator, Date, DateTime, Duration, uniform, lt, of_int, date, days_between, seconds,
  }

  -- A value for every variate that a generator draws.
  abbrev pub Draws : {T : Type 0} → CategoricalAttributeLite T → Type 0
  Draws {T} a = (g : Generator) → (v : T) × (Categorical.get_value a (uniform g).0 ≡ ok v)

  -- A value for every probability.
  abbrev pub Inverts : {T : Type 0} ⦃s : Scalar T⦄ → ContinuousAttributeLite T → Type 0
  Inverts {T} a = (u : Real) → (v : T) × (Continuous.get_value a u ≡ ok v)

  -- Each distribution has a value for whatever is drawn.
  pub record IsComplete (c : DemandCharacteristics) : Type 0 where
    pub arrival : Inverts c.arrival_pattern
    pub pos : Draws c.pos_probability_mass
    pub channel : Draws c.channel_probability_mass
    pub trip_type : Draws c.trip_type_probability_mass
    pub stay_duration : Draws c.stay_duration_probability_mass
    pub frequent_flyer : Draws c.frequent_flyer_probability_mass
    pub departure_time : Inverts c.preferred_departure_time
    pub frat5 : Inverts c.frat5_pattern
    pub time_value : Inverts c.value_of_time

  statistics_order-ok :
      (s : DemandStream)
      → IsComplete s.demand_characteristics
      → still_having s sta_ord ≡ true
      → (r : DateTime × DemandStream) × (statistics_order s ≡ ok r)
  unfolding statistics_order still_having
  statistics_order-ok s complete more =
      let (x, e) = complete.arrival (next_cumulative s) in
      elim (Result-cases (statistics_order s)) [ inl (f, h) ↦ absurd (ground arith) | inr r ↦ r ]

  -- The stream after one variate, and an attribute that one variate decides.
  abbrev pub next : DemandStream → DemandStream
  next s = record s {
    demand_characteristics_random_generator = (uniform s.demand_characteristics_random_generator).1;
  }

  abbrev Next : {T : Type 0} → Result (T × DemandStream) → DemandStream → Type 0
  Next {T} r s = (v : T) × (r ≡ ok (v, next s))

  generate_pos-Next :
      (s : DemandStream) → IsComplete s.demand_characteristics → Next (generate_pos s) s
  unfolding generate_pos draw_variate get_pos_value
  generate_pos-Next s complete =
      let (v, e) = complete.pos s.demand_characteristics_random_generator in (v, rw e refl)

  generate_channel-Next :
      (s : DemandStream) → IsComplete s.demand_characteristics → Next (generate_channel s) s
  unfolding generate_channel draw_variate
  generate_channel-Next s complete =
      let (v, e) = complete.channel s.demand_characteristics_random_generator in (v, rw e refl)

  generate_trip_type-Next :
      (s : DemandStream) → IsComplete s.demand_characteristics → Next (generate_trip_type s) s
  unfolding generate_trip_type draw_variate
  generate_trip_type-Next s complete =
      let (v, e) = complete.trip_type s.demand_characteristics_random_generator in (v, rw e refl)

  generate_stay_duration-Next :
      (s : DemandStream) → IsComplete s.demand_characteristics → Next (generate_stay_duration s) s
  unfolding generate_stay_duration draw_variate
  generate_stay_duration-Next s complete =
      let (v, e) = complete.stay_duration s.demand_characteristics_random_generator in
      (v, rw e refl)

  generate_frequent_flyer-Next :
      (s : DemandStream) → IsComplete s.demand_characteristics → Next (generate_frequent_flyer s) s
  unfolding generate_frequent_flyer draw_variate
  generate_frequent_flyer-Next s complete =
      let (v, e) = complete.frequent_flyer s.demand_characteristics_random_generator in
      (v, rw e refl)

  generate_preferred_departure_time-Next :
      (s : DemandStream)
      → IsComplete s.demand_characteristics
      → Next (generate_preferred_departure_time s) s
  unfolding generate_preferred_departure_time draw_variate
  generate_preferred_departure_time-Next s complete =
      let (v, e) = complete.departure_time (uniform s.demand_characteristics_random_generator).0 in
      (seconds v, rw e refl)

  generate_value_of_time-Next :
      (s : DemandStream) → IsComplete s.demand_characteristics → Next (generate_value_of_time s) s
  unfolding generate_value_of_time draw_variate
  generate_value_of_time-Next s complete =
      let (v, e) = complete.time_value (uniform s.demand_characteristics_random_generator).0 in
      (v, rw e refl)

  fees-next :
      (s : DemandStream) → (generate_non_refundable (generate_change_fees s).1).1 ≡ next (next s)
  unfolding generate_non_refundable generate_change_fees draw_variate
  fees-next s = refl

  wtp-ok :
      (s : DemandStream) (g : Generator) (d : Date) (time : DateTime) (stay : ℤ)
      → IsComplete s.demand_characteristics
      → (r : Real × Generator) × (generate_wtp s g d time stay ≡ ok r)
  unfolding generate_wtp
  wtp-ok s g d time stay complete = elim (Result-cases (generate_wtp s g d time stay)) [
    | inl (f, h) ↦
        let (v, e) = complete.frat5 (of_int (pos 0 -ℤ days_between d (date time))) in
        absurd (ground arith)
    | inr r ↦ r
  ]

  -- Let the distributions of the stream have a value for whatever is drawn, and the time of the
  -- request be found. Then the request is generated.
  pub generate_next_request-timed :
      (fuel : ℕ) (method : DemandGenerationMethod) (s : DemandStream) (generator : Generator)
      {time : DateTime} {t : DemandStream}
      → IsComplete s.demand_characteristics
      → generate_time fuel method (next s) ≡ ok (time, t)
      → (r : BookingRequest × DemandStream × Generator) × (generate_next_request fuel s generator
            method
          ≡ ok r)
  unfolding generate_next_request
  generate_next_request-timed fuel method s generator {time} {t} complete timed =
      let (v, e) = generate_pos-Next s complete in
      let same = generate_time-SameSetup fuel method (next s) timed in
      let there : IsComplete t.demand_characteristics =
        subst IsComplete (sym same.characteristics) complete in
      let (v1, e1) = generate_channel-Next t there in
      let (v2, e2) = generate_trip_type-Next (next t) there in
      let (v3, e3) = generate_stay_duration-Next (next (next t)) there in
      let t3 = next (next (next t)) in
      let (v4, e4) = generate_frequent_flyer-Next t3 there in
      let t4 = next t3 in
      let t6 = next (next t4) in
      let (v7, e7) = generate_preferred_departure_time-Next t6 there in
      let (v8, e8) = generate_value_of_time-Next (next t6) there in
      let (v9, e9) =
        wtp-ok (next (next t6)) generator s.key.preferred_departure_date time v3 there in
      elim (Result-cases (generate_next_request fuel s generator method)) [
        | inl (f, h) ↦ absurd (cc (rw (e, timed, e1, e2, e3, e4, fees-next t4, e7, e8, e9) at h))
        | inr r ↦ r
      ]

  -- Let the distributions of the stream have a value for whatever is drawn, and a request be left.
  -- Then the statistics order generates a request.
  pub generate_next_request-total :
      (fuel : ℕ) (s : DemandStream) (generator : Generator)
      → IsComplete s.demand_characteristics
      → still_having s sta_ord ≡ true
      → (r : BookingRequest × DemandStream × Generator) × (generate_next_request fuel s generator
            sta_ord
          ≡ ok r)
  unfolding generate_time still_having
  generate_next_request-total fuel s generator complete more =
      let (r, e) = statistics_order-ok (next s) complete more in
      generate_next_request-timed fuel sta_ord s generator complete e
