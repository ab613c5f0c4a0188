-- ===== src/Stream/Choice.antt =====
-- The attributes of a request but its date-time: `generatePOS` to `generateValueOfTime`
-- (trademgen/bom/DemandStream.cpp). Each draws one variate of the generator of the demand
-- characteristics; `generateWTP` draws one of the caller's generator.
use Prim.Native.String.{String}
use trademgen.Prelude.{Bool, true, false, if◌then◌else◌, Result, ok, ◌>>=◌}
use trademgen.Prelude.Int.{ℤ, pos, ◌-ℤ◌}
use trademgen.Platform.{Platform}
use trademgen.Attribute.Categorical
use trademgen.Attribute.Categorical.{CategoricalAttributeLite}
use trademgen.Attribute.Continuous
use trademgen.Attribute.Continuous.{real_scalar, int_scalar}
use trademgen.Demand.{get_pos_value}
use trademgen.Stream.{DemandStream}

module _ ⦃p : Platform⦄ where
  open p use {
    Real, Generator, Date, DateTime, Duration, decimal, of_int, add, sub, mul, div, log, lt,
    uniform, seconds, date, days_between,
  }

  -- `_demandCharacteristicsRandomGenerator()`.
  unfoldable pub draw_variate : DemandStream → Real × DemandStream
  draw_variate s =
      let (u, g) = uniform s.demand_characteristics_random_generator in
      (u, record s { demand_characteristics_random_generator = g })

  unfoldable pub generate_pos : DemandStream → Result (String × DemandStream)
  unfolding draw_variate get_pos_value
  generate_pos s = do
    let drawn = draw_variate s
    value ← get_pos_value s.demand_characteristics drawn.0
    ok (value, drawn.1)

  unfoldable pub generate_channel : DemandStream → Result (String × DemandStream)
  unfolding draw_variate
  generate_channel s = do
    let drawn = draw_variate s
    value ← Categorical.get_value s.demand_characteristics.channel_probability_mass drawn.0
    ok (value, drawn.1)

  unfoldable pub generate_trip_type : DemandStream → Result (String × DemandStream)
  unfolding draw_variate
  generate_trip_type s = do
    let drawn = draw_variate s
    value ← Categorical.get_value s.demand_characteristics.trip_type_probability_mass drawn.0
    ok (value, drawn.1)

  unfoldable pub generate_stay_duration : DemandStream → Result (ℤ × DemandStream)
  unfolding draw_variate
  generate_stay_duration s = do
    let drawn = draw_variate s
    value ← Categorical.get_value s.demand_characteristics.stay_duration_probability_mass drawn.0
    ok (value, drawn.1)

  unfoldable pub generate_frequent_flyer : DemandStream → Result (String × DemandStream)
  unfolding draw_variate
  generate_frequent_flyer s = do
    let drawn = draw_variate s
    value ← Categorical.get_value s.demand_characteristics.frequent_flyer_probability_mass drawn.0
    ok (value, drawn.1)

  unfoldable pub generate_change_fees : DemandStream → Bool × DemandStream
  unfolding draw_variate
  generate_change_fees s =
      let drawn = draw_variate s in
      (if lt drawn.0 s.demand_characteristics.change_fee_prob then true else false, drawn.1)

  unfoldable pub generate_non_refundable : DemandStream → Bool × DemandStream
  unfolding draw_variate
  generate_non_refundable s =
      let drawn = draw_variate s in
      (if lt drawn.0 s.demand_characteristics.non_refundable_prob then true else false, drawn.1)

  unfoldable pub generate_preferred_departure_time : DemandStream → Result (Duration × DemandStream)
  unfolding draw_variate
  generate_preferred_departure_time s = do
    let drawn = draw_variate s
    nb_of_seconds ← Continuous.get_value s.demand_characteristics.preferred_departure_time drawn.0
    ok (seconds nb_of_seconds, drawn.1)

  unfoldable pub generate_value_of_time : DemandStream → Result (Real × DemandStream)
  unfolding draw_variate
  generate_value_of_time s = do
    let drawn = draw_variate s
    value ← Continuous.get_value s.demand_characteristics.value_of_time drawn.0
    ok (value, drawn.1)

  -- It draws from the generator of the caller; the duration of the stay is not used.
  unfoldable pub generate_wtp :
      DemandStream → Generator → Date → DateTime → ℤ → Result (Real × Generator)
  generate_wtp s generator departure_date date_time_this_request duration_of_stay = do
    let ap_in_days = days_between departure_date (date date_time_this_request)
    let prob = of_int (pos 0 -ℤ ap_in_days)
    frat5_coef ← Continuous.get_value s.demand_characteristics.frat5_pattern prob
    let drawn = uniform generator
    ok (
      mul s.demand_characteristics.min_wtp (
          add (decimal (pos 1) 0) (
            div (mul (sub frat5_coef (decimal (pos 1) 0)) (log drawn.0))
              (log (decimal (pos 5) 1)))),
      drawn.1,
    )
