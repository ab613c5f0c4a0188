-- ===== src/Manager/Work.antt =====
-- The work that is left: what the queue holds and what the streams of the list may still generate
-- under the statistics order.
use Prim.Native.String.{String}
use trademgen.Prelude.{
  ℕ, suc, ◌+◌, ◌≤◌, ◌≡◌, refl, sym, ap, ◌∙◌, subst, inl, inr, true, false, List, [], ◌∷◌, arith,
  Bool-cases, ok, Result-cases,
}
use trademgen.Prelude.Int.{ℤ, pos, le_ℤ, pos_part, ◌-ℤ◌}
use trademgen.Platform.{Platform}
use trademgen.Stream.{
  DemandStream, sta_ord, remaining, still_having, set_bool_first_date_time_request,
}
use trademgen.Stream.Choice.{draw_variate}
use trademgen.Stream.Counting.{IsCounted, statistics_order-IsCounted}
use trademgen.Stream.Timing.{statistics_order}
use trademgen.Stream.Request
use trademgen.Stream.Request.{BookingRequest, generate_time}
use trademgen.Stream.Draws.{generate_next_request_effect}
use trademgen.Events.{EventService, IsMemory, IsQueue, KeepsStreams, IsAmong, booking, bkg_req}
use trademgen.Manager.{
  is_before_departure, enqueue, generate_next_request, first_request, first_requests,
  generate_first_requests,
}
use trademgen.Demand.{key_string}
use trademgen.Manager.Totals.{next_request_parts}

module _ ⦃p : Platform⦄ where
  open p use {Real, Generator, DateTime}

  -- The number of requests left of a stream.
  abbrev pub left : DemandStream → ℕ
  left s = pos_part (remaining s)

  counted-left :
      (s t : DemandStream)
      → IsCounted s t
      → le_ℤ (remaining s) (pos 0) ≡ false
      → left s ≡ suc (left t)
  unfolding ◌-ℤ◌
  counted-left s t c m = ground (arith, c.total, c.counter)

  statistics_order-left :
      (s : DemandStream) {time : DateTime} {t : DemandStream}
      → statistics_order s ≡ ok (time, t)
      → left s ≡ suc (left t)
  unfolding statistics_order
  statistics_order-left s {time} {t} h =
      counted-left s t (statistics_order-IsCounted s h)
        (elim (Bool-cases (le_ℤ (remaining s) (pos 0))) [
          | inl more ↦ absurd (ground arith)
          | inr more ↦ more
        ])

  pub request-left :
      (fuel : ℕ) (s : DemandStream) (g : Generator) {r : BookingRequest} {t : DemandStream}
      {g' : Generator}
      → Request.generate_next_request fuel s g sta_ord ≡ ok (r, t, g')
      → left s ≡ suc (left t)
  unfolding generate_time draw_variate
  request-left fuel s g h =
      let (time, u, timed, _, e) = generate_next_request_effect fuel s g sta_ord h in
      statistics_order-left (draw_variate s).1 timed ∙ ap (λ v. suc (left v)) (sym e)

  module _ (w : EventService) (memory : IsMemory w) where
    open w use {World, Pointer, find, list, load, store, add_event, update_status, actual_total}
    open memory use {load_store, load-store_same, load-add_event, load-update_status}

    abbrev pub work_of : List Pointer → World → ℕ
    work_of [] x = 0
    work_of (q ∷ qs) x = left (load q x) + work_of qs x

    pub work_of-same :
        (qs : List Pointer) (x y : World)
        → ((q : Pointer) → load q y ≡ load q x)
        → work_of qs y ≡ work_of qs x
    work_of-same [] x y h = refl
    work_of-same (q ∷ qs) x y h = rw (h q) (ap (λ v. left (load q x) + v) (work_of-same qs x y h))

    left-store :
        (q r : Pointer) (s : DemandStream) (x : World)
        → left s ≤ left (load r x)
        → left (load q (store r s x)) ≤ left (load q x)
    left-store q r s x h = elim (load_store q r s x) [
      | inl (same, e) ↦ rw (e, same) h
      | inr e ↦ rw e (omega arith)
    ]

    pub work_of-store :
        (qs : List Pointer) (r : Pointer) (s : DemandStream) (x : World)
        → left s ≤ left (load r x)
        → work_of qs (store r s x) ≤ work_of qs x
    work_of-store [] r s x h = omega arith
    work_of-store (q ∷ qs) r s x h = omega (arith, left-store q r s x h, work_of-store qs r s x h)

    pub work_of-store_lt :
        (qs : List Pointer) (r : Pointer) (s : DemandStream) (x : World)
        → IsAmong r qs
        → suc (left s) ≡ left (load r x)
        → suc (work_of qs (store r s x)) ≤ work_of qs x
    work_of-store_lt [] r s x among h = absurd among
    work_of-store_lt (q ∷ qs) r s x (inl same) h =
        let here : left (load q (store r s x)) ≡ left s =
          ap left (subst (λ v. load v (store r s x) ≡ s) same (load-store_same r s x)) in
        let there : left (load r x) ≡ left (load q x) = ap (λ v. left (load v x)) same in
        omega (arith, here, there, work_of-store qs r s x (omega arith))
    work_of-store_lt (q ∷ qs) r s x (inr among) h =
        omega (arith, left-store q r s x (omega arith), work_of-store_lt qs r s x among h)

    module _ (keeps : KeepsStreams w) (queue : IsQueue w) where
      open keeps use {list-store, list-add_event, list-update_status, find-list}
      open queue use {size, size-add_event, size-store, size-update_status}

      -- The events in the queue and those that may still come.
      abbrev pub bound : World → ℕ
      bound x = size x + work_of (list x) x

      pub bound-update_status : (n : ℤ) (x : World) → bound (update_status bkg_req n x) ≡ bound x
      bound-update_status n x =
          rw (size-update_status bkg_req n x, list-update_status bkg_req n x)
            (ap (λ v. size x + v)
              (work_of-same (list x) x (update_status bkg_req n x)
                (λ q. load-update_status q bkg_req n x)))

      bound-enqueue : (r : BookingRequest) (x : World) → bound (enqueue w r x) ≤ suc (bound x)
      unfolding enqueue
      bound-enqueue r x = elim (Bool-cases (is_before_departure r)) [
        | inl t ↦
            rw (t, size-add_event (booking r) x, list-add_event (booking r) x)
              (omega (
                arith,
                work_of-same (list x) x (add_event (booking r) x)
                    (λ q. load-add_event q (booking r) x),
              ))
        | inr f ↦ rw f (omega (arith, bound-update_status (actual_total bkg_req x -ℤ pos 1) x))
      ]

      -- A request that is stored and queued leaves no more work than there was.
      pub bound-generate_next_request :
          (fuel : ℕ) (x : World) (g : Generator) (key : String) {r : BookingRequest} {y : World}
          {g' : Generator}
          → generate_next_request w fuel x g key sta_ord ≡ ok (r, y, g')
          → bound y ≤ bound x
      bound-generate_next_request fuel x g key {r} {y} h =
          let (q, s, known, generated, e) = next_request_parts w memory fuel x g key sta_ord h in
          let less : suc (work_of (list x) (store q s x)) ≤ work_of (list x) x =
            work_of-store_lt (list x) q s x (find-list key q x known)
              (sym (request-left fuel (load q x) g generated)) in
          let stored : suc (bound (store q s x)) ≤ bound x =
            rw (size-store q s x, list-store q s x) (omega (arith, less)) in
          rw e (omega (arith, stored, bound-enqueue r (store q s x)))

      first_request-bound :
          (fuel : ℕ) (q : Pointer) (x : World) (g : Generator) {y : World} {g' : Generator}
          → first_request w fuel q sta_ord x g ≡ ok (y, g')
          → bound y ≤ bound x
      unfolding first_request set_bool_first_date_time_request
      first_request-bound fuel q x g {y} h =
          let s = set_bool_first_date_time_request (load q x) true in
          let z : World = store q s x in
          let stored : bound z ≤ bound x =
            rw (size-store q s x, list-store q s x)
              (omega (arith, work_of-store (list x) q s x (omega arith))) in
          elim (Bool-cases (still_having s sta_ord)) [
            | inr f ↦ let e : z ≡ y = ground arith in subst (λ v. bound v ≤ bound x) e stored
            | inl t ↦
                elim (Result-cases (generate_next_request w fuel z g (key_string s.key) sta_ord)) [
                  | inl (f, e) ↦ absurd (ground arith)
                  | inr ((r, v, g'), e) ↦
                      let same : v ≡ y = ground arith in
                      subst (λ v. bound v ≤ bound x) same
                        (omega (
                          arith,
                          stored,
                          bound-generate_next_request fuel z g (key_string s.key) e,
                        ))
                ]
          ]

      first_requests-bound :
          (fuel : ℕ) (qs : List Pointer) (sum : ℤ) (x : World) (g : Generator) {n : ℤ} {y : World}
          {g' : Generator}
          → first_requests w fuel qs sta_ord sum x g ≡ ok (n, y, g')
          → bound y ≤ bound x
      unfolding first_requests
      first_requests-bound fuel [] sum x g {n} {y} h =
          let same : x ≡ y = ground arith in subst (λ v. bound v ≤ bound x) same (omega arith)
      first_requests-bound fuel (q ∷ qs) sum x g h =
          elim (Result-cases (first_request w fuel q sta_ord x g)) [
            | inl (f, e) ↦ absurd (cc (rw e at h))
            | inr ((z, k), e) ↦ omega (
              arith,
              first_request-bound fuel q x g e,
              first_requests-bound fuel qs _ z k (rw e at h),
            )
          ]

      -- Nor do the first requests.
      pub bound-generate_first_requests :
          (fuel : ℕ) (x : World) (g : Generator) {n : ℤ} {y : World} {g' : Generator}
          → generate_first_requests w fuel x g sta_ord ≡ ok (n, y, g')
          → bound y ≤ bound x
      unfolding generate_first_requests
      bound-generate_first_requests fuel x g {n} {y} h =
          elim (Result-cases (first_requests w fuel (list x) sta_ord (pos 0) x g)) [
            | inl (f, e) ↦ absurd (ground arith)
            | inr ((m, z, k), e) ↦
                let same : update_status bkg_req m z ≡ y = ground arith in
                subst (λ v. bound v ≤ bound x) same
                  (omega (
                    arith,
                    bound-update_status m z,
                    first_requests-bound fuel (list x) (pos 0) x g e,
                  ))
          ]
