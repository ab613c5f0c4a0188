-- ===== src/Manager.antt =====
-- DemandManager (trademgen/command/DemandManager.cpp): the operations on the demand streams and the
-- event queue. The streams live in the event service; a pass over its list of pointers is a
-- recursion on that list.
pub mod Cancellations
pub mod Creation
pub mod Created
pub mod Totals
pub mod Resetting
pub mod Fuel
pub mod Work
pub mod SampleData
pub mod Sample
pub mod SampleMaps
use Prim.Native.String.{String}
use trademgen.Prelude.{
  ℕ, Bool, true, ◌&&◌, ◌||◌, List, [], ◌∷◌, if◌then◌else◌, object_not_found, Result, ok, ◌>>=◌,
  ◌>>◌, or_fault,
}
use trademgen.Prelude.Int.{ℤ, pos, ◌+ℤ◌, ◌-ℤ◌}
use trademgen.Platform.{Platform}
use trademgen.Demand.{key_string}
use trademgen.Stream.{DemandGenerationMethod, set_bool_first_date_time_request}
use trademgen.Stream
use trademgen.Stream.Request
use trademgen.Stream.Request.{BookingRequest}
use trademgen.Events.{EventService, booking, bkg_req}

module _ ⦃p : Platform⦄ where
  open p use {Real, Generator, date, time_of_day, date_lt, date_eq, duration_lt}

  -- The request comes before the departure that it asks for.
  unfoldable pub is_before_departure : BookingRequest → Bool
  is_before_departure r =
      let request_date = date r.request_date_time in
      date_lt request_date r.preferred_departure_date
      || (date_eq r.preferred_departure_date request_date
          && duration_lt (time_of_day r.request_date_time) r.preferred_departure_time)

  -- `stdair::ProgressStatus`, as the constructor call fills it.
  pub record ProgressStatus : Type 0 where
    pub current : ℕ
    pub expected : Real
    pub actual : ℤ

  module _ (w : EventService) where
    open w use {World, Pointer, find, list, load, store, add_event, update_status, actual_total}

    -- `stillHavingRequestsToBeGenerated`, with the progress status that it sets for the key.
    unfoldable pub still_having :
        World → String → DemandGenerationMethod → Result (Bool × ProgressStatus)
    unfolding Stream.still_having
    still_having x key method = do
      q ← or_fault object_not_found (find key x)
      let s = load q x
      ok (
        Stream.still_having s method,
        record {
          current = s.random_generation_context.number_of_requests_generated_so_far;
          expected = s.demand_distribution.mean_number_of_requests;
          actual = s.total_number_of_requests_to_be_generated;
        },
      )

    -- What becomes of a request: it is queued, or one request less is expected.
    unfoldable pub enqueue : BookingRequest → World → World
    unfolding is_before_departure
    enqueue r x =
        if is_before_departure r
        then add_event (booking r) x
        else update_status bkg_req (actual_total bkg_req x -ℤ pos 1) x

    unfoldable pub generate_next_request :
        ℕ
        → World
        → Generator
        → String
        → DemandGenerationMethod
        → Result (BookingRequest × World × Generator)
    unfolding Request.generate_next_request enqueue
    generate_next_request fuel x generator key method = do
      q ← or_fault object_not_found (find key x)
      generated ← Request.generate_next_request fuel (load q x) generator method
      let (r, s, generator') = generated
      ok (r, enqueue r (store q s x), generator')

    -- The body of the loop of `generateFirstRequests`.
    unfoldable pub first_request :
        ℕ → Pointer → DemandGenerationMethod → World → Generator → Result (World × Generator)
    unfolding generate_next_request set_bool_first_date_time_request Stream.still_having
    first_request fuel q method x generator =
        let s = set_bool_first_date_time_request (load q x) true in
        let x' = store q s x in
        if Stream.still_having s method
        then (do
          (r, x'', generator') ← generate_next_request fuel x' generator (key_string s.key) method
          ok (x'', generator'))
        else ok (x', generator)

    -- The loop, with the sum so far.
    pub first_requests :
        ℕ
        → List Pointer
        → DemandGenerationMethod
        → ℤ
        → World
        → Generator
        → Result (ℤ × World × Generator)
    unfolding first_request
    first_requests fuel [] method sum x generator = ok (sum, x, generator)
    first_requests fuel (q ∷ qs) method sum x generator =
        first_request fuel q method x generator >>= λ state.
        first_requests fuel qs method (sum +ℤ (load q x).total_number_of_requests_to_be_generated)
          state.0 state.1

    unfoldable pub generate_first_requests :
        ℕ → World → Generator → DemandGenerationMethod → Result (ℤ × World × Generator)
    unfolding first_requests
    generate_first_requests fuel x generator method = do
      done ← first_requests fuel (list x) method (pos 0) x generator
      let (sum, x', generator') = done
      ok (sum, update_status bkg_req sum x', generator')

    pub reset_streams : List Pointer → World × Generator → World × Generator
    unfolding Stream.reset
    reset_streams [] state = state
    reset_streams (q ∷ qs) (x, shared) =
        let (s, shared') = Stream.reset (load q x) shared in reset_streams qs (store q s x, shared')

    unfoldable pub reset : World → Generator → World × Generator
    unfolding reset_streams
    reset x shared = let (x', shared') = reset_streams (list x) (x, shared) in (w.reset x', shared')
