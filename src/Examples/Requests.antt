-- ===== src/Examples/Requests.antt =====
-- The theorems on whole requests, at the demand of the examples.
use Prim.Native.Nat.{◌%◌}
use trademgen.Prelude.{ℕ, ◌*◌, ◌≡◌, refl, false, some, arith, ok}
use trademgen.Prelude.Int.{pos, lt_ℤ, ◌-ℤ◌}
use trademgen.Attribute.Categorical
use trademgen.Demand.{key_string}
use trademgen.Stream
use trademgen.Stream.{DemandStream, sta_ord, still_having}
use trademgen.Stream.Request.{BookingRequest, generate_next_request}
use trademgen.Stream.Usable.{IsUsable, IsUsable-IsComplete, request_total}
use trademgen.Service.{Context}
use trademgen.Session.{to_string, to_string_from, generate_all}
use trademgen.Session.Generating.{end_text}
use trademgen.Session.Total.{generate_all_total}
use trademgen.Examples.Setting.{plain, ordered, sums_grow}
use trademgen.Examples.Streams.{input, stream}
use trademgen.Examples.Services.{table, table-IsMemory, context}
use trademgen.Examples.Queues.{table-KeepsStreams}
use trademgen.Examples.Sessions.{terminal, tokens}

-- Every variate of the platform is below 1.
below_one : (n g : ℕ) → n ≡ 100 → lt_ℤ (pos n) (pos (g * 37 % 100)) ≡ false
below_one n g h = ground arith

pub input-IsUsable : IsUsable ⦃p = plain⦄ input
unfolding Categorical.init
input-IsUsable = record {
  arrival_entry = (_, _, _, refl);
  pos_covers = (omega arith, λ g. below_one 100 g refl);
  channel_covers = (omega arith, λ g. below_one 100 g refl);
  trip_type_covers = (omega arith, λ g. below_one 100 g refl);
  stay_covers = (omega arith, λ g. below_one 100 g refl);
  flyer_covers = (omega arith, λ g. below_one 100 g refl);
  time_entry = (_, _, _, refl);
  value_entry = (_, _, _, refl);
}

request_total_example :
    (r : BookingRequest ⦃p = plain⦄ × DemandStream ⦃p = plain⦄ × ℕ) × (generate_next_request
        ⦃p = plain⦄ 0 stream 0 sta_ord
      ≡ ok r)
unfolding still_having ◌-ℤ◌
request_total_example =
    request_total ⦃p = plain⦄ ordered sums_grow 0 stream 0 input input-IsUsable refl refl

generate_all_total_example :
    (d : Context ⦃p = plain⦄ table) × (generate_all ⦃p = plain⦄ table terminal sta_ord 0 2 tokens
        context
      ≡ ok (end_text terminal 2 (to_string tokens), d))
    × (table.find (to_string tokens) d.world ≡ some 0)
    × (Stream.still_having ⦃p = plain⦄ (table.load 0 d.world) sta_ord ≡ false)
unfolding to_string to_string_from key_string ◌-ℤ◌
generate_all_total_example =
    generate_all_total ⦃p = plain⦄ table table-IsMemory table-KeepsStreams terminal 0 2 tokens 0
      context refl (IsUsable-IsComplete ⦃p = plain⦄ ordered sums_grow input input-IsUsable)
      (omega arith)
