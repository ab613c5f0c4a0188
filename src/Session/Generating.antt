-- ===== src/Session/Generating.antt =====
-- The command that generates all requests of a stream (trademgen/ui/cmdline/trademgen.cpp), under
-- the statistics order.
use Prim.Native.String.{String}
use trademgen.Prelude.{
  ℕ, zero, suc, ◌+◌, ◌≤◌, ◌≡◌, refl, sym, ap, ◌∙◌, subst, ◌≢◌, ◌⊎◌, inl, inr, Bool, true, false,
  some, List, arith, Bool-cases, Fault, out_of_fuel, ok, err, Result-cases,
}
use trademgen.Prelude.Int.{pos, ◌-ℤ◌}
use trademgen.Platform.{Platform}
use trademgen.Stream
use trademgen.Stream.{DemandStream, DemandGenerationMethod, sta_ord, remaining}
use trademgen.Stream.Request.{BookingRequest}
use trademgen.Events.{EventService, IsMemory, KeepsStreams, booking, bkg_req}
use trademgen.Manager
use trademgen.Manager.{is_before_departure, enqueue, ProgressStatus}
use trademgen.Manager.Totals.{next_request_parts}
use trademgen.Manager.Fuel.{generate_next_request-HasEnded}
use trademgen.Manager.Work.{left, request-left}
use trademgen.Service
use trademgen.Service.{Context}
use trademgen.Session.{Terminal, to_string, no_more_text, all_text, generate_requests, generate_all}

-- What is printed at the end, by the number of requests that were left.
abbrev pub end_text : Terminal → ℕ → String → String
end_text t zero key = no_more_text key
end_text t (suc n) key = all_text t (suc n) key

module _ ⦃p : Platform⦄ where
  pub left-zero : (s : DemandStream) → Stream.still_having s sta_ord ≡ false → left s ≡ 0
  unfolding Stream.still_having
  left-zero s h = ground arith

  pub left-positive : (s : DemandStream) → Stream.still_having s sta_ord ≡ true → 1 ≤ left s
  unfolding Stream.still_having
  left-positive s h = ground arith

  module _ (w : EventService) (memory : IsMemory w) (keeps : KeepsStreams w) where
    open w use {World, Pointer, find, load, store, add_event, update_status, actual_total}
    open memory use {load-store_same, load-add_event, load-update_status}
    open keeps use {find-store, find-add_event, find-update_status}

    pub enqueue_keeps :
        (r : BookingRequest) (x : World) (q : Pointer) (key : String)
        → (load q (enqueue w r x) ≡ load q x) × (find key (enqueue w r x) ≡ find key x)
    unfolding enqueue
    enqueue_keeps r x q key = elim (Bool-cases (is_before_departure r)) [
      | inl t ↦ rw t (load-add_event q (booking r) x, find-add_event key (booking r) x)
      | inr f ↦ rw f (
          let n = actual_total bkg_req x -ℤ pos 1 in
          (load-update_status q bkg_req n x, find-update_status key bkg_req n x))
    ]

    -- A request of the stream with the key is one less of that stream.
    pub next_request_left :
        (fuel : ℕ) (c : Context w) (key : String) (q : Pointer) {r : BookingRequest} {d : Context w}
        → find key c.world ≡ some q
        → Service.generate_next_request w fuel c key sta_ord ≡ ok (r, d)
        → (find key d.world ≡ some q) × (left (load q c.world) ≡ suc (left (load q d.world)))
    unfolding Service.generate_next_request
    next_request_left fuel c key q {r} {d} known h =
        elim (Result-cases
          (Manager.generate_next_request w fuel c.world c.uniform_generator key sta_ord)) [
            | inl (f, e) ↦ absurd (ground arith)
            | inr ((r', y, g), e) ↦
                let (q', s, known', generated, made) =
                  next_request_parts w memory fuel c.world c.uniform_generator key sta_ord e in
                let same : q' ≡ q = ground arith in
                let there : y ≡ d.world = ground arith in
                let (loaded, found) = enqueue_keeps r' (store q' s c.world) q key in
                let stored : load q (store q' s c.world) ≡ s =
                  subst (λ v. load v (store q' s c.world) ≡ s) same
                    (load-store_same q' s c.world) in
                (
                  ap (find key) (sym there ∙ made) ∙ found ∙ find-store key q' s c.world ∙ known,
                  ap (λ v. left (load v c.world)) (sym same)
                      ∙ request-left fuel (load q' c.world) c.uniform_generator generated
                      ∙ ap (λ v. suc (left v))
                          (sym (ap (load q) (sym there ∙ made) ∙ loaded ∙ stored)),
                )
          ]

    pub still_having-known :
        (c : Context w) (key : String) (q : Pointer) (method : DemandGenerationMethod)
        → find key c.world ≡ some q
        → (status : ProgressStatus) × (Service.still_having w c key method
            ≡ ok (Stream.still_having (load q c.world) method, status))
    unfolding Service.still_having Manager.still_having
    still_having-known c key q method known =
        let s = load q c.world in
        (
          record {
            current = s.random_generation_context.number_of_requests_generated_so_far;
            expected = s.demand_distribution.mean_number_of_requests;
            actual = s.total_number_of_requests_to_be_generated;
          },
          rw known refl,
        )

    module _ (t : Terminal) (fuel : ℕ) where
      next_request-not_fuel :
          (c : Context w) (key : String) {f : Fault}
          → Service.generate_next_request w fuel c key sta_ord ≡ err f
          → f ≢ out_of_fuel
      unfolding Service.generate_next_request
      next_request-not_fuel c key {f} h same =
          elim (Result-cases
            (Manager.generate_next_request w fuel c.world c.uniform_generator key sta_ord)) [
              | inl (f', e) ↦
                  (generate_next_request-HasEnded w fuel c.world c.uniform_generator key).not_fuel
                    (e ∙ ap err (let e' : f' ≡ f = ground arith in e' ∙ same))
              | inr (r, e) ↦ absurd (ground arith)
            ]

      -- The loop, from a stream that has as many requests left as it says.
      requests_end :
          (rounds : ℕ) (key : String) (q : Pointer) (n : ℕ) (c : Context w)
          → find key c.world ≡ some q
          → left (load q c.world) ≤ rounds
          → (b : Bool) → Stream.still_having (load q c.world) sta_ord ≡ b
          → ((f : Fault) × (generate_requests w t sta_ord fuel rounds key b n c ≡ err f)
              × (f ≢ out_of_fuel))
            ⊎ ((d : Context w) × (generate_requests w t sta_ord fuel rounds key b n c
                  ≡ ok (n + left (load q c.world), d))
                × (find key d.world ≡ some q)
                × (Stream.still_having (load q d.world) sta_ord ≡ false))
      unfolding generate_requests
      requests_end rounds key q n c known enough false more =
          let none_left = left-zero (load q c.world) more in
          inr (c, ap (λ v. ok (v, c)) (omega (arith, none_left)), known, more)
      requests_end zero key q n c known enough true more =
          absurd (omega (arith, left-positive (load q c.world) more))
      requests_end (suc rounds) key q n c known enough true more =
          elim (Result-cases (Service.generate_next_request w fuel c key sta_ord)) [
            | inl (f, e) ↦ inl (f, rw e refl, next_request-not_fuel c key e)
            | inr ((r, c'), e) ↦
                let (known', less) = next_request_left fuel c key q known e in
                let (status, e') = still_having-known c' key q sta_ord known' in
                elim (requests_end rounds key q (suc n) c' known' (omega (arith, less)) _ refl) [
                  | inl (f, e'', k) ↦ inl (f, rw (e, e') e'', k)
                  | inr (d, e'', known'', over) ↦ inr (
                    d,
                    rw (e, e') (e'' ∙ ap (λ v. ok (v, d)) (omega (arith, less))),
                    known'',
                    over,
                  )
                ]
          ]

      end_text-positive :
          (n m : ℕ) (key : String) → 1 ≤ n → m ≡ n → end_text t n key ≡ all_text t m key
      end_text-positive zero m key h same = absurd (omega arith)
      end_text-positive (suc n) m key h same = ap (λ v. all_text t v key) (sym same)

      pub has_stream-known :
          (c : Context w) (key : String) (q : Pointer)
          → find key c.world ≡ some q
          → Service.has_demand_stream w c key ≡ true
      unfolding Service.has_demand_stream
      has_stream-known c key q known = rw (Service.has_demand_stream, known) refl

      -- Let the event service be a memory for the streams and leave them where they are, let the
      -- tokens name a stream, and let there be as many rounds as requests left of it. Under the
      -- statistics order `generate_all_br` is ended by a fault of the code, or it answers, reports
      -- as many events as there were requests left of the stream, or that there were none, and the
      -- stream, which the tokens still name, has no more to generate.
      pub generate_all_end :
          (rounds : ℕ) (tokens : List String) (q : Pointer) (c : Context w)
          → find (to_string tokens) c.world ≡ some q
          → left (load q c.world) ≤ rounds
          → ((f : Fault) × (generate_all w t sta_ord fuel rounds tokens c ≡ err f)
              × (f ≢ out_of_fuel))
            ⊎ ((d : Context w) × (generate_all w t sta_ord fuel rounds tokens c
                  ≡ ok (end_text t (left (load q c.world)) (to_string tokens), d))
                × (find (to_string tokens) d.world ≡ some q)
                × (Stream.still_having (load q d.world) sta_ord ≡ false))
      unfolding generate_all
      generate_all_end rounds tokens q c known enough =
          let key = to_string tokens in
          let has = has_stream-known c key q known in
          let (status, e) = still_having-known c key q sta_ord known in
          elim (Bool-cases (Stream.still_having (load q c.world) sta_ord)) [
            | inr over ↦
                inr (c, rw (has, e, over, left-zero (load q c.world) over) refl, known, over)
            | inl more ↦ elim (requests_end rounds key q 0 c known enough true more) [
              | inl (f, e', k) ↦ inl (f, rw (has, e, more, e') refl, k)
              | inr (d, e', known', over) ↦ inr (
                d,
                rw (has, e, more, e')
                    (ap (λ v. ok (v, d))
                      (sym (
                        end_text-positive (left (load q c.world)) _ key
                          (left-positive (load q c.world) more) (omega arith)))),
                known',
                over,
              )
            ]
          ]
