-- ===== src/Service.antt =====
-- TRADEMGEN_Service (trademgen/service/TRADEMGEN_Service.cpp): the operations that the service's
-- users call, on the event service and the generator that its context holds.
pub mod Building
pub mod Filling
pub mod Displays
use Prim.Native.String.{String, ◌++◌ as str_append}
use trademgen.Prelude.{
  ℕ, List, [], ◌∷◌, ◌≡◌, ◌⊎◌, inl, inr, Bool, true, false, none, some, arith, if◌then◌else◌, Result,
  ok, ◌>>=◌, Result-cases,
}
use trademgen.Prelude.Int.{ℤ, pos, ◌+ℤ◌}
use trademgen.Platform.{Platform}
use trademgen.Stream.{DemandGenerationMethod}
use trademgen.Stream.Request.{BookingRequest}
use trademgen.Manager
use trademgen.Manager.{ProgressStatus}
use trademgen.Manager.Cancellations
use trademgen.Manager.Cancellations.{TravelSolution}
use trademgen.Events.{EventService, Event, HasStatus, bkg_req, cx}
use trademgen.Demand.{key_string}

module _ ⦃p : Platform⦄ (w : EventService) where
  open p use {Real, Generator, Date, DateTime, of_int}
  open w use {
    World, Pointer, find, list, load, add_event, add_status, update_status, has_progress_status,
    actual_total, expected_total,
  }

  -- `TRADEMGEN_ServiceContext`: the event service and the uniform generator.
  pub record Context : Type 0 where
    pub world : World
    pub uniform_generator : Generator

  unfoldable pub still_having :
      Context → String → DemandGenerationMethod → Result (Bool × ProgressStatus)
  unfolding Manager.still_having
  still_having c key method = Manager.still_having w c.world key method

  unfoldable pub generate_first_requests :
      ℕ → Context → DemandGenerationMethod → Result (ℤ × Context)
  unfolding Manager.generate_first_requests
  generate_first_requests fuel c method = do
    (count, x, g) ← Manager.generate_first_requests w fuel c.world c.uniform_generator method
    ok (count, record { world = x; uniform_generator = g })

  unfoldable pub generate_next_request :
      ℕ → Context → String → DemandGenerationMethod → Result (BookingRequest × Context)
  unfolding Manager.generate_next_request
  generate_next_request fuel c key method = do
    (request, x, g) ← Manager.generate_next_request w fuel c.world c.uniform_generator key method
    ok (request, record { world = x; uniform_generator = g })

  -- The number of cancellations after one more is queued.
  unfoldable pub count_cancellation : World → World
  count_cancellation x =
      if has_progress_status cx x
      then update_status cx (actual_total cx x +ℤ pos 1) x
      else add_status cx (of_int (pos 1)) x

  unfoldable pub generate_cancellation :
      (String → String → Bool)
      → Context
      → TravelSolution
      → (party_size : ℤ) → (request_time : DateTime) → (departure_date : Date)
      → Result (Bool × Context)
  unfolding Cancellations.generate_cancellation count_cancellation
  generate_cancellation same c solution party_size request_time departure_date = do
    drawn ←
        Cancellations.generate_cancellation same c.uniform_generator solution party_size
          request_time departure_date
    elim (drawn.0) [
      | none ↦ ok (false, record c { uniform_generator = drawn.1 })
      | some e ↦ ok (
        true,
        record { world = count_cancellation (add_event e c.world); uniform_generator = drawn.1 },
      )
    ]

  unfoldable pub reset : Context → Context
  unfolding Manager.reset
  reset c =
      let (x, g) = Manager.reset w c.world c.uniform_generator in
      record { world = x; uniform_generator = g }

  unfoldable pub get_expected_total : Context → ℤ
  get_expected_total c = expected_total bkg_req c.world

  unfoldable pub get_actual_total : Context → ℤ
  get_actual_total c = actual_total bkg_req c.world

  unfoldable pub is_queue_done : Context → Bool
  is_queue_done c = w.is_queue_done c.world

  unfoldable pub pop_event : Context → Event × Context
  pop_event c =
      let (e, x) = w.pop_event c.world in
      (e, record { world = x; uniform_generator = c.uniform_generator })

  -- A line for each key, in the order of the list.
  abbrev pub key_lines : List Pointer → World → String
  key_lines [] x = ""
  key_lines (q ∷ qs) x = str_append (key_string (load q x).key) (str_append "\n" (key_lines qs x))

  unfoldable pub display_demand_stream : Context → String
  display_demand_stream c = key_lines (list c.world) c.world

  unfoldable pub has_demand_stream : Context → String → Bool
  has_demand_stream c key = elim (find key c.world) [ some q ↦ true | none ↦ false ]

  module _ (status : HasStatus w) where
    open status use {actual-update}

    -- Let the progress status hold what it was last set to. If `generateCancellation` of the
    -- service answers false, the event service is as before. If it answers true, an event was
    -- added and the cancellations counted after that: where there was a progress status for
    -- cancellations then, their actual total is one more, and where there was none, one is added,
    -- for one event.
    pub generate_cancellation_counts :
        (same : String → String → Bool) (c : Context) (solution : TravelSolution) (party_size : ℤ)
        (request_time : DateTime) (departure_date : Date) {b : Bool} {d : Context}
        → generate_cancellation same c solution party_size request_time departure_date ≡ ok (b, d)
        → ((b ≡ false) × (d.world ≡ c.world))
          ⊎ ((b ≡ true)
              × (e : Event) × (d.world ≡ count_cancellation (add_event e c.world))
              × (((has_progress_status cx (add_event e c.world) ≡ true)
                    × (actual_total cx d.world ≡ actual_total cx (add_event e c.world) +ℤ pos 1))
                  ⊎ ((has_progress_status cx (add_event e c.world) ≡ false)
                      × (d.world ≡ add_status cx (of_int (pos 1)) (add_event e c.world)))))
    unfolding generate_cancellation
    generate_cancellation_counts same c solution party_size request_time departure_date {b} {d} h =
        elim (Result-cases (
          Cancellations.generate_cancellation same c.uniform_generator solution party_size
            request_time departure_date)) [
              | inl (f, k) ↦ absurd (ground arith)
              | inr ((none, g), k) ↦ inl (ground arith, ground arith)
              | inr ((some e, g), k) ↦
                  let there : d.world ≡ count_cancellation (add_event e c.world) = ground arith in
                  inr (ground arith, e, there, counted e d there)
            ]
      where
        counted :
            (e : Event) (d : Context)
            → d.world ≡ count_cancellation (add_event e c.world)
            → ((has_progress_status cx (add_event e c.world) ≡ true)
                × (actual_total cx d.world ≡ actual_total cx (add_event e c.world) +ℤ pos 1))
              ⊎ ((has_progress_status cx (add_event e c.world) ≡ false)
                  × (d.world ≡ add_status cx (of_int (pos 1)) (add_event e c.world)))
        counted e d there = ground (
          arith,
          actual-update cx (actual_total cx (add_event e c.world) +ℤ pos 1) (add_event e c.world),
        )
