-- ===== src/Examples/Streams.antt =====
-- The theorems on demand streams at a concrete stream.
use trademgen.Prelude.{
  ℕ, ◌≡◌, refl, ◌⊎◌, inl, inr, true, false, List, [], ◌∷◌, length, assertion_failed, ok, err,
}
use trademgen.Prelude.Int.{ℤ, pos, negsuc, ◌-ℤ◌, ◌+ℤ◌}
use trademgen.Attribute.Categorical
use trademgen.Attribute.Continuous.{real_scalar}
use trademgen.Attribute.Continuous
use trademgen.Demand.{create_frat5_pattern, CharacteristicsInput, characteristics}
use trademgen.Stream.{DemandStream, sta_ord, still_having}
use trademgen.Stream.Timing.{next_cumulative, poisson_process, statistics_order}
use trademgen.Stream.Request.{BookingRequest, generate_next_request, generate_time}
use trademgen.Stream.Poisson.{IsUnderWay}
use trademgen.Attribute.Continuous.Draw.{get_value-inverse}
use trademgen.Stream.Counting.{draw_times, draw_times_all}
use trademgen.Stream.Choice.{
  draw_variate, generate_pos, generate_channel, generate_trip_type, generate_stay_duration,
  generate_frequent_flyer, generate_non_refundable, generate_change_fees,
  generate_preferred_departure_time, generate_value_of_time, generate_wtp,
}
use trademgen.Stream.Draws.{
  IsDrawn, IsFor, generate_next_request-IsDrawn, generate_next_request_effect,
}
use trademgen.Stream.Outcome.{IsEnded, IsGenerated, poisson_process_outcome}
use trademgen.Stream.Cumulative.{IsProbability, statistics_order_cumulative}
use trademgen.Examples.Setting.{plain, ordered, monotone, answer}
use trademgen.Examples.Attributes.{points_of_sale, arrivals}

abbrev pub input : CharacteristicsInput ⦃p = plain⦄
input = record {
  arrival_pattern = arrivals;
  pos_prob_mass = points_of_sale;
  channel_prob_mass = ("DF", pos 10) ∷ ("IN", pos 90) ∷ [];
  trip_type_prob_mass = ("RO", pos 60) ∷ ("RI", pos 40) ∷ [];
  stay_duration_prob_mass = (pos 0, pos 10) ∷ (pos 6, pos 90) ∷ [];
  frequent_flyer_prob_mass = ("P", pos 1) ∷ ("N", pos 99) ∷ [];
  change_fee_prob = pos 50;
  change_fee_disutility = pos 5000;
  non_refundable_prob = pos 50;
  non_refundable_disutility = pos 5000;
  preferred_departure_time = (pos 21_600, pos 0) ∷ (pos 79_200, pos 100) ∷ [];
  min_wtp = pos 20_000;
  value_of_time = (pos 1_500, pos 0) ∷ (pos 6_000, pos 100) ∷ [];
}

-- Two requests are to be generated, for the flights of the 100th day.
abbrev pub stream : DemandStream ⦃p = plain⦄
stream = record {
  key = record {
    origin = "SIN";
    destination = "BKK";
    preferred_departure_date = pos 100;
    preferred_cabin = "Y";
  };
  demand_characteristics = characteristics ⦃p = plain⦄ input;
  demand_distribution = record {
    mean_number_of_requests = pos 200;
    std_dev_number_of_requests = pos 0;
  };
  total_number_of_requests_to_be_generated = pos 2;
  random_generation_context = record {
    number_of_requests_generated_so_far = 0;
    cumulative_probability_so_far = pos 0;
  };
  request_date_time_random_generator = 1;
  demand_characteristics_random_generator = 0;
  pos_pro_mass = Categorical.init ⦃p = plain⦄ points_of_sale;
  still_having_requests_to_be_generated = true;
  first_date_time_request = true;
  date_time_last_request = pos 0;
}

pub stream-IsUnderWay :
    IsUnderWay ⦃p = plain⦄
      (negsuc 32_999)
      (pos 0)
      ((negsuc 4_999, pos 40) ∷ (negsuc 99, pos 100) ∷ [])
      (record stream { date_time_last_request = negsuc 32_999; first_date_time_request = false })
unfolding characteristics
stream-IsUnderWay = record {
  pattern = refl;
  ascending = ((refl, (refl, tt)), ((refl, tt), (tt, tt)));
  stops = inr (inr (inl refl));
  started = refl;
  after_first = refl;
  before_bound = refl;
}

pub first_bound :
    Continuous.get_value ⦃p = plain⦄ ⦃s = real_scalar ⦃p = plain⦄⦄
      stream.demand_characteristics.arrival_pattern
      (pos 0)
    ≡ ok (negsuc 32_999)
unfolding characteristics
first_bound = get_value-inverse ⦃p = plain⦄ ⦃s = real_scalar ⦃p = plain⦄⦄ ordered arrivals (pos 0)

draw_times_all_example :
    (times : List ℤ) × (t : DemandStream ⦃p = plain⦄) × (draw_times ⦃p = plain⦄ 2 stream
      ≡ ok (times, t))
    × (length times ≡ 2)
    × (still_having ⦃p = plain⦄ t sta_ord ≡ false)
    × (statistics_order ⦃p = plain⦄ t ≡ err assertion_failed)
unfolding characteristics ◌-ℤ◌
draw_times_all_example =
    draw_times_all ⦃p = plain⦄ ordered 2 stream
      (negsuc 32_999, pos 0, (negsuc 4_999, pos 40) ∷ (negsuc 99, pos 100) ∷ [], refl) refl

poisson_answer : (r : ℤ × DemandStream ⦃p = plain⦄) × (poisson_process ⦃p = plain⦄ 3 stream ≡ ok r)
unfolding poisson_process characteristics Continuous.init Continuous.get_value
    Continuous.get_upper_bound Continuous.get_derivative_value
poisson_answer = answer (poisson_process ⦃p = plain⦄ 3 stream) refl

poisson_process_outcome_example :
    IsEnded ⦃p = plain⦄ stream poisson_answer.0.1 poisson_answer.0.0
    ⊎ IsGenerated ⦃p = plain⦄ stream poisson_answer.0.1 poisson_answer.0.0
poisson_process_outcome_example = poisson_process_outcome ⦃p = plain⦄ 3 stream poisson_answer.1

order_answer : (r : ℤ × DemandStream ⦃p = plain⦄) × (statistics_order ⦃p = plain⦄ stream ≡ ok r)
unfolding statistics_order characteristics Continuous.init Continuous.get_value ◌-ℤ◌ next_cumulative
order_answer = answer (statistics_order ⦃p = plain⦄ stream) refl

statistics_order_cumulative_example :
    let x : ℤ = order_answer.0.1.random_generation_context.cumulative_probability_so_far in
    IsProbability ⦃p = plain⦄ x × (plain.le (pos 0) x ≡ true)
unfolding next_cumulative
statistics_order_cumulative_example =
    statistics_order_cumulative ⦃p = plain⦄ ordered monotone stream (refl, refl) order_answer.1

request_answer :
    (r : BookingRequest ⦃p = plain⦄ × DemandStream ⦃p = plain⦄ × ℕ) × (generate_next_request
        ⦃p = plain⦄ 0 stream 0 sta_ord
      ≡ ok r)
unfolding generate_next_request generate_time statistics_order characteristics Continuous.init
    Continuous.get_value Categorical.init Categorical.get_value ◌-ℤ◌ generate_pos generate_channel
    generate_trip_type generate_stay_duration generate_frequent_flyer
    generate_preferred_departure_time generate_value_of_time generate_wtp next_cumulative
    generate_non_refundable generate_change_fees create_frat5_pattern ◌+ℤ◌
request_answer = answer (generate_next_request ⦃p = plain⦄ 0 stream 0 sta_ord) refl

generate_next_request-IsDrawn_example :
    IsDrawn ⦃p = plain⦄ (characteristics ⦃p = plain⦄ input) 0 request_answer.0.0
generate_next_request-IsDrawn_example =
    generate_next_request-IsDrawn ⦃p = plain⦄ 0 stream 0 sta_ord request_answer.1

generate_next_request_effect_example :
    (time : ℤ) × (u : DemandStream ⦃p = plain⦄) × (statistics_order ⦃p = plain⦄
        (record stream { demand_characteristics_random_generator = 1 })
      ≡ ok (time, u))
    × IsFor ⦃p = plain⦄ stream time request_answer.0.0
    × (request_answer.0.1 ≡ record u { demand_characteristics_random_generator = 9 })
unfolding generate_time draw_variate
generate_next_request_effect_example =
    generate_next_request_effect ⦃p = plain⦄ 0 stream 0 sta_ord request_answer.1
