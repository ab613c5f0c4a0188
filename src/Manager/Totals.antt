-- ===== src/Manager/Totals.antt =====
-- The numbers of requests that `generateFirstRequests` and `generateNextRequest` report
-- (trademgen/command/DemandManager.cpp).
use Prim.Native.String.{String}
use trademgen.Prelude.{
  ℕ, ◌≡◌, ◌↔◌, refl, sym, ap, ◌∙◌, subst, ◌⊎◌, inl, inr, true, some, List, [], ◌∷◌, map, arith,
  Bool-cases, Option-cases, ok, Result-cases,
}
use trademgen.Prelude.Int.{ℤ, pos, ◌+ℤ◌, ◌-ℤ◌}
use trademgen.Platform.{Platform}
use trademgen.Demand.{key_string}
use trademgen.Stream.{DemandStream, DemandGenerationMethod, set_bool_first_date_time_request}
use trademgen.Stream
use trademgen.Stream.Choice.{draw_variate}
use trademgen.Stream.Request
use trademgen.Stream.Request.{BookingRequest, generate_time}
use trademgen.Stream.Frame.{generate_time-SameSetup}
use trademgen.Stream.Draws.{generate_next_request_effect}
use trademgen.Events.{EventService, IsMemory, HasStatus, booking, bkg_req}
use trademgen.Manager.{
  is_before_departure, enqueue, generate_next_request, first_request, first_requests,
  generate_first_requests,
}

module _ ⦃p : Platform⦄ where
  open p use {Generator, date, time_of_day, date_lt, date_eq, duration_lt}

  -- The request's date is before the departure's, or the same with an earlier time.
  abbrev pub ComesBefore : BookingRequest → Type 0
  ComesBefore r =
      (date_lt (date r.request_date_time) r.preferred_departure_date ≡ true)
      ⊎ ((date_eq r.preferred_departure_date (date r.request_date_time) ≡ true)
          × (duration_lt (time_of_day r.request_date_time) r.preferred_departure_time ≡ true))

  is_before_departure-ComesBefore :
      (r : BookingRequest) → (is_before_departure r ≡ true) ↔ ComesBefore r
  unfolding is_before_departure
  is_before_departure-ComesBefore r = (λ h. ground arith, λ h. ground arith)

  abbrev total : DemandStream → ℤ
  total s = s.total_number_of_requests_to_be_generated

  abbrev pub sum_from : ℤ → List ℤ → ℤ
  sum_from a [] = a
  sum_from a (n ∷ ns) = sum_from (a +ℤ n) ns

  draw_variate-total : (s : DemandStream) → total (draw_variate s).1 ≡ total s
  unfolding draw_variate
  draw_variate-total s = refl

  request-total :
      (fuel : ℕ) (s : DemandStream) (generator : Generator) (method : DemandGenerationMethod)
      {r : BookingRequest} {t : DemandStream} {generator' : Generator}
      → Request.generate_next_request fuel s generator method ≡ ok (r, t, generator')
      → total t ≡ total s
  request-total fuel s generator method {r} {t} h =
      let (time, u, timed, _, e) = generate_next_request_effect fuel s generator method h in
      let same = generate_time-SameSetup fuel method (draw_variate s).1 timed in
      ap total e ∙ same.total ∙ draw_variate-total s

  module _ (w : EventService) where
    open w use {World, Pointer, find, list, load, store, add_event, update_status, actual_total}

    -- The totals of the streams of a list, in the list's order.
    abbrev pub totals : List Pointer → World → List ℤ
    totals qs x = map (λ q. total (load q x)) qs

    KeepsTotals : World → World → Type 0
    KeepsTotals x y = (q : Pointer) → total (load q y) ≡ total (load q x)

    module _ (memory : IsMemory w) where
      open memory use {load_store, load-add_event, load-update_status}

      store-KeepsTotals :
          (r : Pointer) (s : DemandStream) (x : World)
          → total s ≡ total (load r x)
          → KeepsTotals x (store r s x)
      unfolding KeepsTotals
      store-KeepsTotals r s x h q = elim (load_store q r s x) [
        | inl (same, e) ↦ ap total e ∙ h ∙ ap (λ v. total (load v x)) (sym same)
        | inr e ↦ ap total e
      ]

      enqueue-KeepsTotals : (r : BookingRequest) (x : World) → KeepsTotals x (enqueue w r x)
      unfolding KeepsTotals enqueue
      enqueue-KeepsTotals r x q = elim (Bool-cases (is_before_departure r)) [
        | inl t ↦ rw t (ap total (load-add_event q (booking r) x))
        | inr f ↦ rw f (ap total (load-update_status q bkg_req (actual_total bkg_req x -ℤ pos 1) x))
      ]

      KeepsTotals-trans : (x y z : World) → KeepsTotals x y → KeepsTotals y z → KeepsTotals x z
      unfolding KeepsTotals
      KeepsTotals-trans x y z h k q = k q ∙ h q

      -- What `generateNextRequest` does when it answers.
      pub next_request_parts :
          (fuel : ℕ) (x : World) (generator : Generator) (key : String)
          (method : DemandGenerationMethod) {r : BookingRequest} {y : World}
          {generator' : Generator}
          → generate_next_request w fuel x generator key method ≡ ok (r, y, generator')
          → (q : Pointer) × (s : DemandStream) × (find key x ≡ some q)
            × (Request.generate_next_request fuel (load q x) generator method
                ≡ ok (r, s, generator'))
            × (y ≡ enqueue w r (store q s x))
      unfolding generate_next_request
      next_request_parts fuel x generator key method h = elim (Option-cases (find key x)) [
        | inl e ↦ absurd (ground arith)
        | inr (q, e) ↦
            elim (Result-cases (Request.generate_next_request fuel (load q x) generator method)) [
              | inl (f, e') ↦ absurd (ground arith)
              | inr ((r, s, g), e') ↦ (q, s, e, ground arith, ground arith)
            ]
      ]

      next_request-KeepsTotals :
          (fuel : ℕ) (x : World) (generator : Generator) (key : String)
          (method : DemandGenerationMethod) {r : BookingRequest} {y : World}
          {generator' : Generator}
          → generate_next_request w fuel x generator key method ≡ ok (r, y, generator')
          → KeepsTotals x y
      next_request-KeepsTotals fuel x generator key method {r} h =
          let (q, s, _, generated, e) = next_request_parts fuel x generator key method h in
          subst (KeepsTotals x) (sym e) (
            KeepsTotals-trans x (store q s x) (enqueue w r (store q s x))
              (store-KeepsTotals q s x (request-total fuel (load q x) generator method generated))
              (enqueue-KeepsTotals r (store q s x)))

      first_request-KeepsTotals :
          (fuel : ℕ) (q : Pointer) (method : DemandGenerationMethod) (x : World)
          (generator : Generator) {y : World} {generator' : Generator}
          → first_request w fuel q method x generator ≡ ok (y, generator')
          → KeepsTotals x y
      unfolding first_request set_bool_first_date_time_request
      first_request-KeepsTotals fuel q method x generator {y} h =
          let s = set_bool_first_date_time_request (load q x) true in
          let x' : World = store q s x in
          let kept : KeepsTotals x x' = store-KeepsTotals q s x refl in
          elim (Bool-cases (Stream.still_having s method)) [
            | inr f ↦ let e : x' ≡ y = ground arith in subst (KeepsTotals x) e kept
            | inl t ↦
                elim (Result-cases
                  (generate_next_request w fuel x' generator (key_string s.key) method)) [
                    | inl (f, e) ↦ absurd (ground arith)
                    | inr ((r, z, g), e) ↦
                        let e' : z ≡ y = ground arith in
                        KeepsTotals-trans x x' y kept (
                          subst (KeepsTotals x') e' (
                            next_request-KeepsTotals fuel x' generator (key_string s.key) method e))
                  ]
          ]

      totals-KeepsTotals :
          (qs : List Pointer) (x y : World) → KeepsTotals x y → totals qs y ≡ totals qs x
      unfolding KeepsTotals
      totals-KeepsTotals [] x y k = refl
      totals-KeepsTotals (q ∷ qs) x y k = ground (arith, k q, totals-KeepsTotals qs x y k)

      first_requests-sum :
          (fuel : ℕ) (qs : List Pointer) (method : DemandGenerationMethod) (sum : ℤ) (x : World)
          (generator : Generator) {n : ℤ} {y : World} {generator' : Generator}
          → first_requests w fuel qs method sum x generator ≡ ok (n, y, generator')
          → n ≡ sum_from sum (totals qs x)
      unfolding first_requests
      first_requests-sum fuel [] method sum x generator h = ground arith
      first_requests-sum fuel (q ∷ qs) method sum x generator h =
          elim (Result-cases (first_request w fuel q method x generator)) [
            | inl (f, e) ↦ absurd (cc (rw e at h))
            | inr ((z, g), e) ↦
                first_requests-sum fuel qs method (sum +ℤ total (load q x)) z g (rw e at h)
                ∙ ap (sum_from (sum +ℤ total (load q x))) (
                    totals-KeepsTotals qs x z
                      (first_request-KeepsTotals fuel q method x generator e))
          ]

      module _ (status : HasStatus w) where
        open status use {actual-update, actual-store}

        -- Let the event service be a memory for the streams, and its progress status hold what it
        -- was last set to. If `generateFirstRequests` answers a number, it is the sum of the
        -- totals that the streams of the list had before the call, and it is the actual total of
        -- booking requests after the call, whichever of the first requests were queued and
        -- whichever came too late.
        pub generate_first_requests_sum :
            (fuel : ℕ) (x : World) (generator : Generator) (method : DemandGenerationMethod) {n : ℤ}
            {y : World} {generator' : Generator}
            → generate_first_requests w fuel x generator method ≡ ok (n, y, generator')
            → (n ≡ sum_from (pos 0) (totals (list x) x)) × (actual_total bkg_req y ≡ n)
        unfolding generate_first_requests
        generate_first_requests_sum fuel x generator method {n} {y} h =
            elim (Result-cases (first_requests w fuel (list x) method (pos 0) x generator)) [
              | inl (f, e) ↦ absurd (ground arith)
              | inr ((m, z, g), e) ↦
                  let same : m ≡ n = ground arith in
                  let set : update_status bkg_req m z ≡ y = ground arith in
                  (
                    sym same ∙ first_requests-sum fuel (list x) method (pos 0) x generator e,
                    ap (actual_total bkg_req) (sym set) ∙ actual-update bkg_req m z ∙ same,
                  )
            ]

        -- Let the event service be a memory for the streams, and its progress status hold what it
        -- was last set to. If `generateNextRequest` answers, the request is the one that the
        -- stream found under the key generates, and that stream is stored as the generation
        -- leaves it. Where the date of the request lies before its departure date, or is that
        -- date, with a time before the preferred departure time, its event is added, and nothing
        -- else changes. Where it is neither, no event is added: the status of the booking
        -- requests alone is set, to an actual total of one less.
        pub generate_next_request_outcome :
            (fuel : ℕ) (x : World) (generator : Generator) (key : String)
            (method : DemandGenerationMethod) {r : BookingRequest} {y : World}
            {generator' : Generator}
            → generate_next_request w fuel x generator key method ≡ ok (r, y, generator')
            → (q : Pointer) × (s : DemandStream) × (find key x ≡ some q)
              × (Request.generate_next_request fuel (load q x) generator method
                  ≡ ok (r, s, generator'))
              × ((ComesBefore r × (y ≡ add_event (booking r) (store q s x)))
                  ⊎ ((¬ ComesBefore r)
                      × (y ≡ update_status bkg_req (actual_total bkg_req x -ℤ pos 1) (store q s x))
                      × (actual_total bkg_req y ≡ actual_total bkg_req x -ℤ pos 1)))
        unfolding enqueue
        generate_next_request_outcome fuel x generator key method {r} {y} h =
            let (q, s, known, generated, e) = next_request_parts fuel x generator key method h in
            let before = is_before_departure-ComesBefore r in
            let left = actual-store bkg_req q s x in
            (
              q,
              s,
              known,
              generated,
              elim (Bool-cases (is_before_departure r)) [
                | inl t ↦ inl (before.0 t, ground arith)
                | inr f ↦
                    let set : y
                        ≡ update_status bkg_req (actual_total bkg_req x -ℤ pos 1) (store q s x) =
                      ground (arith, left) in
                    inr (
                      λ c. let t : is_before_departure r ≡ true = before.1 c in cc,
                      set,
                      ap (actual_total bkg_req) set
                          ∙ actual-update bkg_req (actual_total bkg_req x -ℤ pos 1) (store q s x),
                    )
              ],
            )
