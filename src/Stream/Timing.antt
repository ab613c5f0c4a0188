-- ===== src/Stream/Timing.antt =====
-- The date-time of the next request: `generateTimeOfRequestPoissonProcess`,
-- `generateTimeOfRequestStatisticsOrder` and `convertFloatIntoDuration`
-- (trademgen/bom/DemandStream.cpp).
use trademgen.Prelude.{
  ℕ, zero, suc, false, not, Option, none, some, if◌then◌else◌, out_of_fuel, Result, ok, err, ◌>>=◌,
  ◌>>◌, check,
}
use trademgen.Prelude.Int.{ℤ, pos, ◌+ℤ◌, le_ℤ}
use trademgen.Platform.{Platform}
use trademgen.Attribute.Continuous.{real_scalar, get_value, get_upper_bound, get_derivative_value}
use trademgen.Demand.{default_last_lower_bound_arrival_pattern}
use trademgen.Stream.{DemandStream, remaining, increment_counter}

module _ ⦃p : Platform⦄ where
  open p use {
    Real, DateTime, Duration, decimal, of_int, add, sub, mul, div, pow, neg, lt, le, eq, floor,
    uniform, exponential, hours, seconds, millisec, plus, ptime, later, seconds_in_one_day,
    milliseconds_in_one_second,
  }

  unfoldable pub convert_float_into_duration : Real → Duration
  convert_float_into_duration number_of_days =
      let number_of_seconds = mul number_of_days seconds_in_one_day in
      let int_number_of_seconds = floor number_of_seconds in
      let number_of_milliseconds =
        mul (sub number_of_seconds (of_int int_number_of_seconds)) milliseconds_in_one_second in
      let int_number_of_milliseconds = floor number_of_milliseconds +ℤ pos 1 in
      plus (seconds int_number_of_seconds) (millisec int_number_of_milliseconds)

  -- 8 o'clock on the departure date.
  abbrev pub departure_date_time : DemandStream → DateTime
  departure_date_time s = ptime s.key.preferred_departure_date (hours (pos 8))

  -- The first request starts from the lower bound of the arrival pattern.
  unfoldable pub start : DemandStream → Result DemandStream
  start s =
      if s.first_date_time_request
      then (do
        bound ← get_value s.demand_characteristics.arrival_pattern (of_int (pos 0))
        ok (record s { date_time_last_request = bound; first_date_time_request = false }))
      else ok s

  -- The end of the generation: a date-time after the departure.
  unfoldable pub finish : DemandStream → DateTime × DemandStream
  unfolding convert_float_into_duration
  finish s = (
    later (departure_date_time s)
        (convert_float_into_duration (neg default_last_lower_bound_arrival_pattern)),
    record s { still_having_requests_to_be_generated = false },
  )

  -- A draw in the current daily rate interval: a request, or none inside the interval, and then the
  -- next interval is the current one.
  unfoldable pub draw : DemandStream → Result (Option DateTime × DemandStream)
  unfolding convert_float_into_duration increment_counter
  draw s = do
    let pattern = s.demand_characteristics.arrival_pattern
    let last = s.date_time_last_request
    upper_bound ← get_upper_bound pattern last
    derivative ← get_derivative_value pattern last
    let daily_rate = mul derivative s.demand_distribution.mean_number_of_requests
    let drawn = exponential daily_rate s.request_date_time_random_generator
    let this_request = add last drawn.0
    let s' = record s { request_date_time_random_generator = drawn.1 }
    if lt this_request upper_bound
        then ok (
          some (later (departure_date_time s) (convert_float_into_duration this_request)),
          increment_counter (record s' { date_time_last_request = this_request }),
        )
        else ok (none, record s' { date_time_last_request = upper_bound })

  -- The body of `generateTimeOfRequestPoissonProcess` up to its recursive call.
  unfoldable pub poisson_round : DemandStream → Result (Option DateTime × DemandStream)
  unfolding start finish draw
  poisson_round s = do
    s' ← start s
    check (not s'.first_date_time_request)
    if eq s'.date_time_last_request default_last_lower_bound_arrival_pattern
        then (let done = finish s' in ok (some done.0, done.1))
        else draw s'

  -- The fuel bounds the depth of the recursion.
  unfoldable pub poisson_process : ℕ → DemandStream → Result (DateTime × DemandStream)
  unfolding poisson_round
  poisson_process zero s = err out_of_fuel
  poisson_process (suc fuel) s =
      poisson_round s >>= λ r. elim (r.0) [ some t ↦ ok (t, r.1) | none ↦ poisson_process fuel r.1 ]

  -- (1 - y) ^ (1 / remaining), held below 1.
  unfoldable pub order_factor : Real → ℤ → Real
  order_factor variate count =
      let remaining_rate = div (decimal (pos 1) 0) (of_int count) in
      let factor = pow (sub (decimal (pos 1) 0) variate) remaining_rate in
      let most = sub (decimal (pos 1) 0) (decimal (pos 1) 6) in
      if le most factor then most else factor

  -- 1 - (1 - x) * factor, for the cumulative probability x so far.
  unfoldable pub next_cumulative : DemandStream → Real
  unfolding order_factor
  next_cumulative s =
      let complement =
        sub (decimal (pos 1) 0) s.random_generation_context.cumulative_probability_so_far in
      let variate = (uniform s.request_date_time_random_generator).0 in
      sub (decimal (pos 1) 0) (mul complement (order_factor variate (remaining s)))

  unfoldable pub statistics_order : DemandStream → Result (DateTime × DemandStream)
  unfolding convert_float_into_duration increment_counter
  statistics_order s = do
    check (not (le_ℤ (remaining s) (pos 0)))
    let cumulative = next_cumulative s
    days ← get_value s.demand_characteristics.arrival_pattern cumulative
    ok (
      later (departure_date_time s) (convert_float_into_duration days),
      increment_counter (record s {
        request_date_time_random_generator = (uniform s.request_date_time_random_generator).1;
        random_generation_context = record (s.random_generation_context) {
          cumulative_probability_so_far = cumulative;
        };
      }),
    )
