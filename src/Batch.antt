-- ===== src/Batch.antt =====
-- `generateDemand` of the batch (trademgen/batches/trademgen_generateDemand.cpp): runs of the demand
-- generation, each of which empties the event queue that the first requests begin.
pub mod Ends
pub mod Sanity
pub mod Requests
pub mod Sequence
pub mod Runs
pub mod Endless
use Prim.Native.Nat.{◌%◌, ◌^◌}
use trademgen.Prelude.{
  ℕ, zero, suc, ◌+◌, ◌-◌, ◌*◌, ◌/◌, ◌≤◌, ◌<◌, ◌≡◌, refl, sym, ap, ◌∙◌, subst, ◌≢◌, ◌↔◌, ◌⊎◌, inl,
  inr, Bool, true, false, not, ◌&&◌, ◌||◌, Option, none, some, List, [], ◌∷◌, ◌++◌, map, arith, ltb,
  leb, ◌==◌, if◌then◌else◌, Bool-cases, Option-cases, length, get_elem?, All, length-append,
  length-map, get_elem?-lt, Fault, out_of_range, index_out_of_range, code_duplication,
  assertion_failed, object_not_found, undefined_behaviour, bad_date, out_of_fuel, Result, ok, err,
  ◌>>=◌, ◌>>◌, check, or_fault, Result-cases,
}
use trademgen.Prelude.Int.{ℤ, pos, lt_ℤ}
use trademgen.Platform.{Platform}
use trademgen.Stream.{DemandGenerationMethod}
use trademgen.Stream.Request.{BookingRequest}
use trademgen.Events.{EventService, Event, booking, cancellation}
use trademgen.Service
use trademgen.Service.{Context}

module _ ⦃p : Platform⦄ where
  open p use {elapsed, total_milliseconds}

  -- `getBookingRequest`: a reference through a pointer, which is null in a cancellation.
  unfoldable pub booking_request : Event → Result BookingRequest
  booking_request (booking r) = ok r
  booking_request (cancellation c) = err undefined_behaviour

  -- The sanity check: the next request is not before the one that was popped.
  unfoldable pub is_lower : BookingRequest → BookingRequest → Bool
  is_lower next popped =
      lt_ℤ (total_milliseconds (elapsed next.request_date_time popped.request_date_time)) (pos 0)

  module _ (w : EventService) where
    -- The body of the loop over the events.
    unfoldable pub process_event : ℕ → DemandGenerationMethod → Context w → Result (Context w)
    unfolding booking_request is_lower Service.pop_event Service.still_having
        Service.generate_next_request
    process_event fuel method c = do
      let (e, c') = Service.pop_event w c
      popped ← booking_request e
      (more, status) ← Service.still_having w c' popped.generator_key method
      if more
          then (do
            (next, c'') ← Service.generate_next_request w fuel c' popped.generator_key method
            check (not (is_lower next popped))
            ok c'')
          else ok c'

    -- The loop over the events, with the number of them that the progress display shows. The
    -- rounds are the fuel of the loop.
    unfoldable pub process_events :
        (rounds fuel : ℕ) → DemandGenerationMethod → ℕ → Context w → Result (ℕ × Context w)
    unfolding process_event Service.is_queue_done
    process_events zero fuel method shown c =
        if Service.is_queue_done w c then ok (shown, c) else err out_of_fuel
    process_events (suc rounds) fuel method shown c = elim (Service.is_queue_done w c) [
      | true ↦ ok (shown, c)
      | false ↦
          process_event fuel method c >>= λ c'. process_events rounds fuel method (suc shown) c'
    ]

    -- One run: the number that is given to the statistics and the number of events shown.
    unfoldable pub run :
        (rounds fuel : ℕ) → DemandGenerationMethod → Context w → Result (ℤ × ℕ × Context w)
    unfolding process_events Service.generate_first_requests Service.reset
    run rounds fuel method c = do
      (actual, started) ← Service.generate_first_requests w fuel c method
      (shown, done) ← process_events rounds fuel method 0 started
      ok (actual, shown, Service.reset w done)

    -- The loop over the runs from an index on, which is an `unsigned int`, with the numbers given to
    -- the statistics. The turns are the fuel of the loop.
    unfoldable pub runs :
        (turns rounds fuel : ℕ)
        → DemandGenerationMethod
        → (idx number_of_runs : ℕ) → Context w
        → Result (List ℤ × Context w)
    unfolding run
    runs zero rounds fuel method idx number_of_runs c =
        if leb idx number_of_runs then err out_of_fuel else ok ([], c)
    runs (suc turns) rounds fuel method idx number_of_runs c = elim (leb idx number_of_runs) [
      | true ↦ run rounds fuel method c >>= λ r.
          runs turns rounds fuel method ((idx + 1) % 2 ^ 32) number_of_runs (r.2) >>= λ o.
          ok (r.0 ∷ o.0, o.1)
      | false ↦ ok ([], c)
    ]

    -- The expected number of events, which the progress display multiplies by the number of runs,
    -- and the runs. Their loop has as many turns as those over the events have rounds.
    unfoldable pub generate_demand :
        ℕ → (rounds fuel : ℕ) → DemandGenerationMethod → Context w → Result (ℤ × List ℤ × Context w)
    unfolding runs Service.get_expected_total
    generate_demand number_of_runs rounds fuel method c = do
      let expected = Service.get_expected_total w c
      (actual, c') ← runs rounds rounds fuel method 1 number_of_runs c
      ok (expected, actual, c')
