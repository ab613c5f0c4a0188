-- ===== src/Batch/Ends.antt =====
-- The loop over the events of trademgen/batches/trademgen_generateDemand.cpp ends under the
-- statistics order, and how many events it shows.
use Prim.Native.String.{String}
use trademgen.Prelude.{
  ℕ, zero, suc, ◌+◌, ◌≤◌, ◌≡◌, refl, ap, ◌∙◌, subst, ◌≢◌, ◌⊎◌, inl, inr, Bool, true, false, not,
  arith, if◌then◌else◌, Bool-cases, Fault, undefined_behaviour, out_of_fuel, ok, err, ◌>>=◌, ◌>>◌,
  check, Result-cases, HasEnded, ok-HasEnded, err-HasEnded, bind-HasEnded, check-HasEnded,
}
use trademgen.Prelude.Int.{ℤ}
use trademgen.Platform.{Platform}
use trademgen.Stream.{sta_ord}
use trademgen.Manager.Fuel.{
  generate_next_request-HasEnded, generate_first_requests-HasEnded, still_having-HasEnded,
}
use trademgen.Stream.Request.{BookingRequest}
use trademgen.Events.{EventService, IsMemory, IsQueue, KeepsStreams, Event, booking, cancellation}
use trademgen.Manager
use trademgen.Service
use trademgen.Service.{Context}
use trademgen.Batch.{booking_request, is_lower, process_event, process_events, run}
use trademgen.Manager.Work.{
  work_of-same, bound, bound-generate_next_request, bound-generate_first_requests,
}

module _ ⦃p : Platform⦄ (w : EventService) where
  open p use {Generator}
  open w use {World, Pointer, find, list, load, store}

  service-HasEnded :
      (fuel : ℕ) (c : Context w) (key : String)
      → HasEnded (Service.generate_next_request w fuel c key sta_ord)
  unfolding Service.generate_next_request
  service-HasEnded fuel c key =
      bind-HasEnded _ _ (generate_next_request-HasEnded w fuel c.world c.uniform_generator key)
        (λ r. ok-HasEnded _)

  started-HasEnded :
      (fuel : ℕ) (c : Context w) → HasEnded (Service.generate_first_requests w fuel c sta_ord)
  unfolding Service.generate_first_requests
  started-HasEnded fuel c =
      bind-HasEnded _ _ (generate_first_requests-HasEnded w fuel c.world c.uniform_generator)
        (λ r. ok-HasEnded _)

  booking-HasEnded : (e : Event) → HasEnded (booking_request e)
  unfolding booking_request
  booking-HasEnded (booking r) = ok-HasEnded r
  booking-HasEnded (cancellation c) = err-HasEnded undefined_behaviour (λ q. cc)

  process_event-HasEnded : (fuel : ℕ) (c : Context w) → HasEnded (process_event w fuel sta_ord c)
  unfolding process_event Service.still_having
  process_event-HasEnded fuel c =
      bind-HasEnded _ _ (booking-HasEnded (Service.pop_event w c).0) (λ popped.
        bind-HasEnded _ _
          (still_having-HasEnded w (Service.pop_event w c).1.world popped.generator_key sta_ord)
          (λ more. branch popped (more.0)))
    where
      branch :
          (popped : BookingRequest) (more : Bool)
          → HasEnded (
              if more
              then (do
                (next, c'') ←
                    Service.generate_next_request w fuel
                      (Service.pop_event w c).1
                      popped.generator_key
                      sta_ord
                check (not (is_lower next popped))
                ok c'')
              else ok (Service.pop_event w c).1)
      branch popped true =
          bind-HasEnded _ _ (service-HasEnded fuel _ popped.generator_key)
            (λ next. check-HasEnded _ _ (ok-HasEnded _))
      branch popped false = ok-HasEnded _

  module _ (memory : IsMemory w) (keeps : KeepsStreams w) (queue : IsQueue w) where
    open queue use {size, done-size, size-pop, list-pop, load-pop}

    -- The events in the queue and the requests left of the streams.
    abbrev pub events_left : Context w → ℕ
    events_left c = bound w memory keeps queue c.world

    pop_event-bound :
        (c : Context w)
        → Service.is_queue_done w c ≡ false
        → suc (events_left (Service.pop_event w c).1) ≡ events_left c
    unfolding Service.is_queue_done Service.pop_event
    pop_event-bound c more =
        let y : World = (w.pop_event c.world).1 in
        rw (list-pop c.world) (
          omega (
            arith,
            size-pop c.world more,
            work_of-same w memory (list c.world) c.world y (λ q. load-pop q c.world),
          ))

    process_event-bound :
        (fuel : ℕ) (c : Context w) {d : Context w}
        → Service.is_queue_done w c ≡ false
        → process_event w fuel sta_ord c ≡ ok d
        → suc (events_left d) ≤ events_left c
    unfolding process_event Service.still_having Service.generate_next_request
    process_event-bound fuel c {d} more h =
        let popped_left = pop_event-bound c more in
        let c' : Context w = (Service.pop_event w c).1 in
        elim (Result-cases (booking_request (Service.pop_event w c).0)) [
          | inl (f, e) ↦ absurd (ground arith)
          | inr (popped, e) ↦
              elim (Result-cases (Manager.still_having w c'.world popped.generator_key sta_ord)) [
                | inl (f, e') ↦ absurd (ground arith)
                | inr ((false, status), e') ↦
                    let same : c' ≡ d = ground arith in
                    subst (λ v. suc (events_left v) ≤ events_left c) same
                      (omega (arith, popped_left))
                | inr ((true, status), e') ↦
                    elim (Result-cases (
                      Manager.generate_next_request w fuel c'.world c'.uniform_generator
                        popped.generator_key sta_ord)) [
                          | inl (f, e'') ↦ absurd (ground arith)
                          | inr ((next, y, g), e'') ↦
                              let z : Context w = record { world = y; uniform_generator = g } in
                              let same : z ≡ d = ground arith in
                              let less : events_left z ≤ events_left c' =
                                bound-generate_next_request w memory keeps queue fuel c'.world
                                  c'.uniform_generator popped.generator_key e'' in
                              subst (λ v. suc (events_left v) ≤ events_left c) same
                                (omega (arith, popped_left, less))
                        ]
              ]
        ]

    -- Let the event service be a memory for the streams, leave them where they are and keep a
    -- queue. Under the statistics order, on as many rounds as there are events in the queue and
    -- requests left of the streams, the loop over the events ends: a fault of the code ends it, or
    -- the queue is done, and the events shown and those left are together no more than before, so
    -- it shows no more events than were in the queue or left to generate.
    pub process_events_end :
        (rounds fuel n : ℕ) (c : Context w)
        → events_left c ≤ rounds
        → ((f : Fault) × (process_events w rounds fuel sta_ord n c ≡ err f) × (f ≢ out_of_fuel))
          ⊎ ((m : ℕ) × (d : Context w) × (process_events w rounds fuel sta_ord n c ≡ ok (m, d))
              × (Service.is_queue_done w d ≡ true)
              × (n ≤ m)
              × (m + events_left d ≤ n + events_left c))
    unfolding process_events Service.is_queue_done
    process_events_end zero fuel n c h =
        let done : Service.is_queue_done w c ≡ true = ground (arith, done-size c.world) in
        inr (n, c, rw (process_events, done) refl, done, omega arith, omega arith)
    process_events_end (suc rounds) fuel n c h = elim (Bool-cases (Service.is_queue_done w c)) [
      | inl done ↦ inr (n, c, rw (process_events, done) refl, done, omega arith, omega arith)
      | inr more ↦ elim (Result-cases (process_event w fuel sta_ord c)) [
        | inl (f, e) ↦ inl (
          f,
          rw (process_events, more, e) refl,
          λ q. (process_event-HasEnded fuel c).not_fuel (e ∙ ap err q),
        )
        | inr (c', e) ↦
            let less = process_event-bound fuel c more e in
            elim (process_events_end rounds fuel (suc n) c' (omega (arith, less))) [
              | inl (f, e', k) ↦ inl (f, rw (process_events, more, e, e') refl, k)
              | inr (m, d, e', done, low, high) ↦ inr (
                m,
                d,
                rw (process_events, more, e, e') refl,
                done,
                omega arith,
                omega (arith, less),
              )
            ]
      ]
    ]

    started-bound :
        (fuel : ℕ) (c : Context w) {n : ℤ} {d : Context w}
        → Service.generate_first_requests w fuel c sta_ord ≡ ok (n, d)
        → events_left d ≤ events_left c
    unfolding Service.generate_first_requests
    started-bound fuel c {n} {d} h =
        elim (Result-cases
          (Manager.generate_first_requests w fuel c.world c.uniform_generator sta_ord)) [
            | inl (f, e) ↦ absurd (ground arith)
            | inr ((m, y, g), e) ↦
                let same : y ≡ d.world = ground arith in
                subst (λ v. bound w memory keeps queue v ≤ events_left c) same
                  (bound-generate_first_requests w memory keeps queue fuel c.world
                    c.uniform_generator e)
          ]

    -- Let the event service be a memory for the streams, leave them where they are and keep a
    -- queue. Under the statistics order, on as many rounds as there are events in the queue and
    -- requests left of the streams when it begins, a run ends: a fault of the code ends it, or it
    -- answers, and has shown no more events than those.
    pub run_end :
        (rounds fuel : ℕ) (c : Context w)
        → events_left c ≤ rounds
        → ((f : Fault) × (run w rounds fuel sta_ord c ≡ err f) × (f ≢ out_of_fuel))
          ⊎ ((actual : ℤ) × (shown : ℕ) × (d : Context w) × (run w rounds fuel sta_ord c
                ≡ ok (actual, shown, d))
              × (shown ≤ events_left c))
    unfolding run
    run_end rounds fuel c h =
        elim (Result-cases (Service.generate_first_requests w fuel c sta_ord)) [
          | inl (f, e) ↦ inl (f, rw e refl, λ q. (started-HasEnded fuel c).not_fuel (e ∙ ap err q))
          | inr ((actual, started), e) ↦
              let less = started-bound fuel c e in
              elim (process_events_end rounds fuel 0 started (omega (arith, less))) [
                | inl (f, e', k) ↦ inl (f, rw (e, e') refl, k)
                | inr (m, d, e', done, low, high) ↦
                    inr (actual, m, Service.reset w d, rw (e, e') refl, omega (arith, less))
              ]
        ]
