-- ===== src/Examples/Services.antt =====
-- The theorems on the demand manager and the service, with an event service that keeps its streams
-- in a table, its events in a list and two progress statuses.
use Prim.Native.String.{String}
use text.Mathlib.Text.{◌==◌ as str_eq}
use trademgen.Prelude.{
  ℕ, zero, suc, ◌≡◌, refl, ◌⊎◌, inl, inr, Bool, true, false, not, Option, none, some, List, [], ◌∷◌,
  ◌++◌, arith, ◌==◌, if◌then◌else◌, Bool-cases, All, ok, length,
}
use trademgen.Prelude.Int.{ℤ, pos, ◌+ℤ◌, ◌-ℤ◌}
use trademgen.Attribute.Categorical
use trademgen.Attribute.Continuous
use trademgen.Demand.{characteristics, key_string, create_frat5_pattern}
use trademgen.Stream.{DemandStream, sta_ord}
use trademgen.Stream.Timing.{next_cumulative, statistics_order}
use trademgen.Stream.Request.{BookingRequest}
use trademgen.Stream.Choice.{
  generate_pos, generate_channel, generate_trip_type, generate_stay_duration,
  generate_frequent_flyer, generate_non_refundable, generate_change_fees,
  generate_preferred_departure_time, generate_value_of_time, generate_wtp,
}
use trademgen.Events.{
  EventService, EventType, bkg_req, cx, Event, booking, Cancellation, cancellation, IsMemory,
  HasStatus,
}
use trademgen.Manager.{generate_next_request, generate_first_requests, reset_streams}
use trademgen.Manager.Totals.{
  ComesBefore, generate_first_requests_sum, generate_next_request_outcome,
}
use trademgen.Manager.Resetting.{IsReset, reset_streams-IsReset}
use trademgen.Manager.Cancellations
use trademgen.Manager.Cancellations.{TravelSolution, AreFound, generate_cancellation_outcome}
use trademgen.Service
use trademgen.Service.{Context, count_cancellation, generate_cancellation_counts}
use trademgen.Examples.Setting.{plain, answer}
use trademgen.Examples.Streams.{stream}

pub record Table : Type 0 where
  pub count : ℕ
  pub names : ℕ → String
  pub streams : ℕ → DemandStream ⦃p = plain⦄
  pub events : List (Event ⦃p = plain⦄)
  pub booking_total : ℤ
  pub cancellation_total : Option ℤ

abbrev pub find_stream : String → ℕ → (ℕ → String) → Option ℕ
find_stream key zero names = none
find_stream key (suc n) names =
    let rest = find_stream key n names in if str_eq (names n) key then some n else rest

abbrev pub first_numbers : ℕ → List ℕ
first_numbers zero = []
first_numbers (suc n) = first_numbers n ++ (n ∷ [])

abbrev set_status : EventType → ℤ → Table → Table
set_status bkg_req n x = record x { booking_total = n }
set_status cx n x = record x { cancellation_total = some n }

abbrev status_of : EventType → Table → Option ℤ
status_of bkg_req x = some x.booking_total
status_of cx x = x.cancellation_total

-- What is read of an empty queue has no meaning.
abbrev first_event : List (Event ⦃p = plain⦄) → Event ⦃p = plain⦄
first_event [] = cancellation (record {
  segment_path = "";
  class_id_list = [];
  party_size = pos 0;
  cancellation_date_time = pos 0;
})
first_event (e ∷ es) = e

abbrev pub rest_of : List (Event ⦃p = plain⦄) → List (Event ⦃p = plain⦄)
rest_of [] = []
rest_of (e ∷ es) = es

abbrev pub table : EventService ⦃p = plain⦄
table = record {
  World = Table;
  Pointer = ℕ;
  fresh = λ x. stream;
  add_event_generator = λ s x. record x {
    count = suc x.count;
    names = λ q. if q == x.count then key_string ⦃p = plain⦄ s.key else x.names q;
    streams = λ q. if q == x.count then s else x.streams q;
  };
  find = λ key x. find_stream key x.count x.names;
  list = λ x. first_numbers x.count;
  has_list = λ x. not (x.count == 0);
  describe_key = λ x. "queue";
  load = λ q x. x.streams q;
  store = λ r s x. record x { streams = λ q. if q == r then s else x.streams q };
  add_event = λ e x. record x { events = e ∷ x.events };
  add_status = λ e n x. set_status e (plain.floor n) x;
  update_status = set_status;
  has_progress_status = λ e x. elim (status_of e x) [ some n ↦ true | none ↦ false ];
  actual_total = λ e x. elim (status_of e x) [ some n ↦ n | none ↦ pos 0 ];
  expected_total = λ e x. elim (status_of e x) [ some n ↦ n | none ↦ pos 0 ];
  is_queue_done = λ x. length x.events == 0;
  pop_event = λ x. (first_event x.events, record x { events = rest_of x.events });
  list_events = λ x. "events";
  json_handler = λ command x. command;
  describe_event = λ e. "event";
  reset = λ x. record x { events = [] };
}

pub table-IsMemory : IsMemory ⦃p = plain⦄ table
table-IsMemory = record {
  load-store_same = λ q s x. ground arith;
  load_store = λ q r s x. stored q r s x;
  load-add_event = λ q e x. refl;
  load-update_status = λ q e n x. updated q e n x;
}
  where
    stored :
        (q r : ℕ) (s : DemandStream ⦃p = plain⦄) (x : Table)
        → ((q ≡ r) × (table.load q (table.store r s x) ≡ s))
          ⊎ (table.load q (table.store r s x) ≡ table.load q x)
    stored q r s x = elim (Bool-cases (q == r)) [
      | inl t ↦ inl (ground arith, rw t)
      | inr f ↦ inr (rw f)
    ]

    updated :
        (q : ℕ) (e : EventType) (n : ℤ) (x : Table)
        → table.load q (table.update_status e n x) ≡ table.load q x
    updated q bkg_req n x = refl
    updated q cx n x = refl

table-HasStatus : HasStatus ⦃p = plain⦄ table
table-HasStatus = record { actual-update = set; actual-store = kept }
  where
    set : (e : EventType) (n : ℤ) (x : Table) → table.actual_total e (table.update_status e n x) ≡ n
    set bkg_req n x = refl
    set cx n x = refl

    kept :
        (e : EventType) (r : ℕ) (s : DemandStream ⦃p = plain⦄) (x : Table)
        → table.actual_total e (table.store r s x) ≡ table.actual_total e x
    kept bkg_req r s x = refl
    kept cx r s x = refl

-- Two requests for the flights of the 100th day.
abbrev pub world : Table
world = record {
  count = 1;
  names = λ q. key_string ⦃p = plain⦄ stream.key;
  streams = λ q. stream;
  events = [];
  booking_total = pos 2;
  cancellation_total = some (pos 4);
}

pub next_answer :
    (r : BookingRequest ⦃p = plain⦄ × Table × ℕ) × (generate_next_request ⦃p = plain⦄ table 0 world
        0
        (key_string ⦃p = plain⦄ stream.key)
        sta_ord
      ≡ ok r)
unfolding generate_next_request key_string generate_pos generate_channel generate_trip_type
    generate_stay_duration generate_frequent_flyer generate_change_fees generate_non_refundable
    generate_preferred_departure_time generate_value_of_time generate_wtp create_frat5_pattern
    Categorical.get_value Categorical.init characteristics Continuous.get_value Continuous.init
    statistics_order next_cumulative ◌-ℤ◌ ◌+ℤ◌
next_answer =
    answer
      (generate_next_request ⦃p = plain⦄ table 0 world 0 (key_string ⦃p = plain⦄ stream.key)
        sta_ord)
      refl

generate_next_request_outcome_example :
    (q : ℕ) × (s : DemandStream ⦃p = plain⦄) × (table.find (key_string ⦃p = plain⦄ stream.key) world
      ≡ some q)
    × (trademgen.Stream.Request.generate_next_request ⦃p = plain⦄ 0 (table.load q world) 0 sta_ord
        ≡ ok (next_answer.0.0, s, next_answer.0.2))
    × ((ComesBefore ⦃p = plain⦄ next_answer.0.0
          × (next_answer.0.1 ≡ table.add_event (booking next_answer.0.0) (table.store q s world)))
        ⊎ ((¬ ComesBefore ⦃p = plain⦄ next_answer.0.0)
            × (next_answer.0.1
                ≡ table.update_status bkg_req (pos 2 -ℤ pos 1) (table.store q s world))
            × (table.actual_total bkg_req next_answer.0.1 ≡ pos 2 -ℤ pos 1)))
generate_next_request_outcome_example =
    generate_next_request_outcome ⦃p = plain⦄ table table-IsMemory table-HasStatus 0 world 0
      (key_string ⦃p = plain⦄ stream.key) sta_ord next_answer.1

first_answer :
    (r : ℤ × Table × ℕ) × (generate_first_requests ⦃p = plain⦄ table 0 world 0 sta_ord ≡ ok r)
unfolding generate_first_requests key_string generate_pos generate_channel generate_trip_type
    generate_stay_duration generate_frequent_flyer generate_change_fees generate_non_refundable
    generate_preferred_departure_time generate_value_of_time generate_wtp create_frat5_pattern
    Categorical.get_value Categorical.init characteristics Continuous.get_value Continuous.init
    statistics_order next_cumulative ◌-ℤ◌ ◌+ℤ◌
first_answer = answer (generate_first_requests ⦃p = plain⦄ table 0 world 0 sta_ord) refl

generate_first_requests_sum_example :
    (first_answer.0.0 ≡ pos 2) × (table.actual_total bkg_req first_answer.0.1 ≡ first_answer.0.0)
unfolding ◌+ℤ◌
generate_first_requests_sum_example =
    generate_first_requests_sum ⦃p = plain⦄ table table-IsMemory table-HasStatus 0 world 0 sta_ord
      first_answer.1

reset_streams-IsReset_example :
    All
      (λ q.
        IsReset ⦃p = plain⦄ stream
          (table.load q (reset_streams ⦃p = plain⦄ table (0 ∷ 0 ∷ []) (world, 3)).0))
      (0 ∷ 0 ∷ [])
reset_streams-IsReset_example =
    reset_streams-IsReset ⦃p = plain⦄ table table-IsMemory (0 ∷ 0 ∷ []) world 3

abbrev solution : TravelSolution ⦃p = plain⦄
solution = record {
  class_object_id_map_holder = (("M", 7) ∷ ("Y", 8) ∷ []) ∷ (("Y", 9) ∷ []) ∷ [];
  class_path = ("Y" ∷ "M" ∷ []) ∷ ("Y" ∷ []) ∷ [];
  segment_path = "SIN-BKK, BKK-HKG";
}

cancellation_answer :
    (e : Event ⦃p = plain⦄) × (g : ℕ) × (Cancellations.generate_cancellation ⦃p = plain⦄ str_eq 0
        solution
        (pos 2)
        (pos 0)
        (pos 100)
      ≡ ok (some e, g))
unfolding Cancellations.generate_cancellation
cancellation_answer = (_, _, refl)

generate_cancellation_outcome_example :
    (c : Cancellation ⦃p = plain⦄) × (cancellation_answer.0 ≡ cancellation c)
    × (plain.le (pos 5) (pos 0) ≡ false)
    × (plain.is_negative (plain.elapsed c.cancellation_date_time (pos 0)) ≡ false)
    × (c.party_size ≡ pos 2)
    × (c.segment_path ≡ solution.segment_path)
    × AreFound ⦃p = plain⦄ str_eq solution.class_object_id_map_holder solution.class_path
        c.class_id_list
generate_cancellation_outcome_example =
    generate_cancellation_outcome ⦃p = plain⦄ str_eq 0 solution (pos 2) (pos 0) (pos 100)
      cancellation_answer.2

abbrev pub context : Context ⦃p = plain⦄ table
context = record { world = world; uniform_generator = 0 }

service_answer :
    (r : Bool × Context ⦃p = plain⦄ table) × (Service.generate_cancellation ⦃p = plain⦄ table str_eq
        context solution
        (pos 2)
        (pos 0)
        (pos 100)
      ≡ ok r)
unfolding Service.generate_cancellation
service_answer =
    answer
      (Service.generate_cancellation ⦃p = plain⦄ table str_eq context solution (pos 2) (pos 0)
        (pos 100))
      refl

generate_cancellation_counts_example :
    ((service_answer.0.0 ≡ false) × (service_answer.0.1.world ≡ world))
    ⊎ ((service_answer.0.0 ≡ true)
        × (e : Event ⦃p = plain⦄) × (service_answer.0.1.world
            ≡ count_cancellation ⦃p = plain⦄ table (table.add_event e world))
        × (((table.has_progress_status cx (table.add_event e world) ≡ true)
              × (table.actual_total cx service_answer.0.1.world ≡ pos 5))
            ⊎ ((table.has_progress_status cx (table.add_event e world) ≡ false)
                × (service_answer.0.1.world
                    ≡ table.add_status cx (pos 100) (table.add_event e world)))))
unfolding ◌+ℤ◌
generate_cancellation_counts_example =
    generate_cancellation_counts ⦃p = plain⦄ table table-HasStatus str_eq context solution (pos 2)
      (pos 0) (pos 100) service_answer.1
