-- ===== src/Stream/Draws.antt =====
-- Which variates the attributes of a request come from: `generateNextRequest` and the functions
-- that it calls (trademgen/bom/DemandStream.cpp).
use Prim.Native.String.{String}
use trademgen.Prelude.{ℕ, zero, suc, ◌≡◌, subst, inl, inr, arith, ok, ◌>>=◌, Result-cases}
use trademgen.Platform.{Platform}
use trademgen.Attribute.Categorical
use trademgen.Attribute.Continuous
use trademgen.Attribute.Continuous.{real_scalar, int_scalar}
use trademgen.Demand.{DemandCharacteristics, key_string}
use trademgen.Stream.{DemandStream, DemandGenerationMethod}
use trademgen.Stream.Choice.{
  draw_variate, generate_pos, generate_channel, generate_trip_type, generate_stay_duration,
  generate_frequent_flyer, generate_change_fees, generate_non_refundable,
  generate_preferred_departure_time, generate_value_of_time, generate_wtp,
}
use trademgen.Stream.Request.{BookingRequest, generate_time, generate_next_request}
use trademgen.Stream.Frame.{SameSetup, generate_time-SameSetup}

module _ ⦃p : Platform⦄ where
  open p use {Real, Generator, DateTime, Duration, uniform, lt, seconds}

  -- The state of a generator after some variates, and the variate that is drawn then.
  abbrev pub after : ℕ → Generator → Generator
  after zero g = g
  after (suc n) g = (uniform (after n g)).1

  abbrev pub variate : ℕ → Generator → Real
  variate n g = (uniform (after n g)).0

  -- A request holds what the distributions give at the variates that follow in the generator, the
  -- point of sale first.
  pub record IsDrawn (c : DemandCharacteristics) (g : Generator) (r : BookingRequest) : Type 0 where
    pub pos : Categorical.get_value c.pos_probability_mass (variate 0 g) ≡ ok r.pos
    pub channel : Categorical.get_value c.channel_probability_mass (variate 1 g) ≡ ok r.channel
    pub trip_type :
        Categorical.get_value c.trip_type_probability_mass (variate 2 g) ≡ ok r.trip_type
    pub stay_duration :
        Categorical.get_value c.stay_duration_probability_mass (variate 3 g) ≡ ok r.stay_duration
    pub frequent_flyer :
        Categorical.get_value c.frequent_flyer_probability_mass (variate 4 g) ≡ ok r.frequent_flyer
    pub change_fees : r.change_fees ≡ lt (variate 5 g) c.change_fee_prob
    pub non_refundable : r.non_refundable ≡ lt (variate 6 g) c.non_refundable_prob
    pub preferred_departure_time :
        (Continuous.get_value c.preferred_departure_time (variate 7 g) >>= λ n. ok (seconds n))
        ≡ ok r.preferred_departure_time
    pub value_of_time : Continuous.get_value c.value_of_time (variate 8 g) ≡ ok r.value_of_time

  -- The request is for the stream's own key, at the time that the generation method drew.
  pub record IsFor (s : DemandStream) (time : DateTime) (r : BookingRequest) : Type 0 where
    pub generator_key : r.generator_key ≡ key_string s.key
    pub origin : r.origin ≡ s.key.origin
    pub destination : r.destination ≡ s.key.destination
    pub departure_date : r.preferred_departure_date ≡ s.key.preferred_departure_date
    pub cabin : r.preferred_cabin ≡ s.key.preferred_cabin
    pub request_date_time : r.request_date_time ≡ time

  module _ (fuel : ℕ) (s : DemandStream) (generator : Generator) (method : DemandGenerationMethod)
      {r : BookingRequest} {t : DemandStream} {generator' : Generator}
      (done : generate_next_request fuel s generator method ≡ ok (r, t, generator')) where
    module _ (pos : String) (s1 s2 : DemandStream) (time : DateTime)
        (drawn : generate_pos s ≡ ok (pos, s1))
        (timed : generate_time fuel method s1 ≡ ok (time, s2)) (same : SameSetup s1 s2) where
      rest-IsDrawn : IsDrawn s.demand_characteristics s.demand_characteristics_random_generator r
      unfolding generate_next_request generate_pos generate_channel generate_trip_type
          generate_stay_duration generate_frequent_flyer generate_change_fees
          generate_non_refundable generate_preferred_departure_time generate_value_of_time
          generate_wtp
      rest-IsDrawn = ground arith

    -- If a request is generated, its attributes come from nine consecutive variates of the
    -- generator of the demand characteristics, in the order of `IsDrawn`, whatever the generation
    -- method draws for its time.
    pub generate_next_request-IsDrawn :
        IsDrawn s.demand_characteristics s.demand_characteristics_random_generator r
    unfolding generate_next_request
    generate_next_request-IsDrawn = elim (Result-cases (generate_pos s)) [
      | inl (f, e) ↦ absurd (ground arith)
      | inr ((pos, s1), e) ↦ elim (Result-cases (generate_time fuel method s1)) [
        | inl (f, e') ↦ absurd (ground arith)
        | inr ((time, s2), e') ↦
            rest-IsDrawn pos s1 s2 time e e' (generate_time-SameSetup fuel method s1 e')
      ]
    ]

    module _ (pos : String) (s1 s2 : DemandStream) (time : DateTime)
        (drawn : generate_pos s ≡ ok (pos, s1))
        (timed : generate_time fuel method s1 ≡ ok (time, s2)) (same : SameSetup s1 s2) where
      rest_effect :
          (s1 ≡ (draw_variate s).1)
          × IsFor s time r
          × (t ≡ record s2 {
            demand_characteristics_random_generator =
                after 9 s.demand_characteristics_random_generator;
          })
      unfolding generate_next_request generate_pos generate_channel generate_trip_type
          generate_stay_duration generate_frequent_flyer generate_change_fees
          generate_non_refundable generate_preferred_departure_time generate_value_of_time
          generate_wtp
      rest_effect = ground arith

    -- If a request is generated, it is for the stream's key and bears the time that the generation
    -- method drew after the variate for the point of sale; the stream is then as the method left
    -- it, but for nine variates drawn from the generator of the demand characteristics.
    pub generate_next_request_effect :
        (time : DateTime) × (u : DemandStream) × (generate_time fuel method (draw_variate s).1
          ≡ ok (time, u))
        × IsFor s time r
        × (t ≡ record u {
          demand_characteristics_random_generator =
              after 9 s.demand_characteristics_random_generator;
        })
    unfolding generate_next_request
    generate_next_request_effect = elim (Result-cases (generate_pos s)) [
      | inl (f, e) ↦ absurd (ground arith)
      | inr ((pos, s1), e) ↦ elim (Result-cases (generate_time fuel method s1)) [
        | inl (f, e') ↦ absurd (ground arith)
        | inr ((time, s2), e') ↦
            let (a, b, c) =
              rest_effect pos s1 s2 time e e' (generate_time-SameSetup fuel method s1 e') in
            (time, s2, subst (λ x. generate_time fuel method x ≡ ok (time, s2)) a e', b, c)
      ]
    ]
