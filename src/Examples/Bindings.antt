-- ===== src/Examples/Bindings.antt =====
-- The theorems on the calls from Python: a demand file that is missing, and runs that end.
use Prim.Native.String.{String, ◌++◌ as str_append}
use trademgen.Prelude.{◌≡◌, refl, ◌⊎◌, true, false, none, some, Result, ok}
use trademgen.Prelude.Int.{pos, ◌-ℤ◌, ◌+ℤ◌}
use trademgen.Stream.{DemandGenerationMethod, sta_ord}
use trademgen.Service.{Context}
use trademgen.Service.Building.{construct, parse_and_load}
use trademgen.Parser.Line.{parse_demand_file}
use trademgen.Batch.{
  generate_demand, run, runs, process_events, process_event, booking_request, is_lower,
}
use trademgen.Service
use trademgen.Manager
use trademgen.Manager.{generate_first_requests, generate_next_request}
use trademgen.Demand.{
  key_string, characteristics, create_frat5_pattern, increment_generated_requests_counter,
}
use trademgen.Attribute.Categorical
use trademgen.Attribute.Continuous
use trademgen.Stream.Timing.{statistics_order, next_cumulative}
use trademgen.Stream.Choice.{
  generate_pos, generate_channel, generate_trip_type, generate_stay_duration,
  generate_frequent_flyer, generate_non_refundable, generate_change_fees,
  generate_preferred_departure_time, generate_value_of_time, generate_wtp,
}
use trademgen.Binding.{
  Exceptions, Answer, finished, caught, answered, catch_text, completed_text, Trademgener,
  new_trademgener, init, generate_runs,
}
use trademgen.Binding.Answers.{init-answer, generate_runs-answer}
use trademgen.Examples.Setting.{plain, answer}
use trademgen.Examples.Services.{table}
use trademgen.Examples.Files.{stdair, file, started}
use trademgen.Examples.Parsing.{text_lt, demand}

abbrev exceptions : Exceptions
exceptions = record { what = λ e. "exception"; not_found = none }

missing_answer :
    init ⦃p = plain⦄ table exceptions stdair text_lt false
      (pos 1)
      false
      false
      false
      file
      demand
      (new_trademgener ⦃p = plain⦄ table)
    ≡ ok (caught true)
unfolding init construct parse_and_load parse_demand_file catch_text
missing_answer = refl

init-answer_example : answered {T = Trademgener ⦃p = plain⦄ table} (caught true) ≡ true
init-answer_example =
    init-answer ⦃p = plain⦄ table exceptions stdair text_lt false (pos 1) false false false file
      demand (new_trademgener ⦃p = plain⦄ table) (caught true) missing_answer

abbrev method_of : String → Result DemandGenerationMethod
method_of s = ok sta_ord

runs_answer :
    (a : Answer String (Trademgener ⦃p = plain⦄ table)) × (generate_runs ⦃p = plain⦄ table
        exceptions method_of 3 0 1 "S"
        (record { trademgen_service = some started; has_log = true })
      ≡ ok a)
unfolding generate_runs generate_demand runs run process_events process_event booking_request
    is_lower generate_first_requests key_string generate_pos generate_channel generate_trip_type
    generate_stay_duration generate_frequent_flyer generate_change_fees generate_non_refundable
    generate_preferred_departure_time generate_value_of_time generate_wtp create_frat5_pattern
    Categorical.get_value Categorical.init characteristics Continuous.get_value Continuous.init
    statistics_order next_cumulative Service.get_expected_total Service.generate_first_requests
    Service.is_queue_done Service.pop_event Service.still_having Service.generate_next_request
    Service.reset generate_next_request Manager.reset catch_text ◌-ℤ◌ ◌+ℤ◌
    increment_generated_requests_counter
runs_answer =
    answer
      (generate_runs ⦃p = plain⦄ table exceptions method_of 3 0 1 "S"
        (record { trademgen_service = some started; has_log = true }))
      refl

generate_runs-answer_example :
    ((c : Context ⦃p = plain⦄ table) × (runs_answer.0
        ≡ finished completed_text
            (record { trademgen_service = some (record started { context = c }); has_log = true })))
    ⊎ ((text : String) × (runs_answer.0 ≡ caught (str_append text completed_text)))
generate_runs-answer_example =
    generate_runs-answer ⦃p = plain⦄ table exceptions method_of 3 0 1 "S" started runs_answer.0
      runs_answer.1
