-- ===== src/Session/Total.antt =====
-- The command that generates all requests (trademgen/ui/cmdline/trademgen.cpp) on a stream whose
-- distributions are complete.
use Prim.Native.String.{String}
use trademgen.Prelude.{
  ℕ, zero, suc, ◌≤◌, ◌≡◌, refl, sym, ap, ◌∙◌, subst, inl, inr, Bool, true, false, some, List, arith,
  Bool-cases, ok,
}
use trademgen.Platform.{Platform}
use trademgen.Stream
use trademgen.Stream.{DemandStream, sta_ord}
use trademgen.Stream.Draws.{generate_next_request_effect}
use trademgen.Stream.Choice.{draw_variate}
use trademgen.Stream.Request
use trademgen.Stream.Request.{BookingRequest}
use trademgen.Stream.Frame.{generate_time-SameSetup}
use trademgen.Stream.Total.{IsComplete, generate_next_request-total}
use trademgen.Events.{EventService, IsMemory, KeepsStreams}
use trademgen.Manager
use trademgen.Manager.{enqueue}
use trademgen.Manager.Work.{left}
use trademgen.Service
use trademgen.Service.{Context}
use trademgen.Session.{Terminal, to_string, generate_requests, generate_all}
use trademgen.Session.Generating.{
  left-positive, next_request_left, still_having-known, enqueue_keeps, end_text, has_stream-known,
  generate_all_end,
}

module _ ⦃p : Platform⦄ where
  open p use {Generator}

  -- A request leaves the characteristics of the stream.
  request-characteristics :
      (fuel : ℕ) (s : DemandStream) (g : Generator) {r : BookingRequest} {t : DemandStream}
      {g' : Generator}
      → Request.generate_next_request fuel s g sta_ord ≡ ok (r, t, g')
      → t.demand_characteristics ≡ s.demand_characteristics
  unfolding draw_variate
  request-characteristics fuel s g h =
      let (time, u, timed, _, e) = generate_next_request_effect fuel s g sta_ord h in
      let same = generate_time-SameSetup fuel sta_ord (draw_variate s).1 timed in
      ap (λ v. v.demand_characteristics) e ∙ same.characteristics

  module _ (w : EventService) (memory : IsMemory w) (keeps : KeepsStreams w) where
    open w use {World, Pointer, find, load, store}
    open memory use {load-store_same}

    request_answers :
        (fuel : ℕ) (c : Context w) (key : String) (q : Pointer)
        → find key c.world ≡ some q
        → IsComplete (load q c.world).demand_characteristics
        → Stream.still_having (load q c.world) sta_ord ≡ true
        → (r : BookingRequest × Context w) × (Service.generate_next_request w fuel c key sta_ord
            ≡ ok r)
          × IsComplete (load q r.1.world).demand_characteristics
    unfolding Service.generate_next_request Manager.generate_next_request
    request_answers fuel c key q known complete more =
        let ((r, s, g), e) =
          generate_next_request-total fuel (load q c.world) c.uniform_generator complete more in
        let x = store q s c.world in
        let kept : (load q (enqueue w r x)).demand_characteristics
            ≡ (load q c.world).demand_characteristics =
          ap (λ v. v.demand_characteristics)
            ((enqueue_keeps w memory keeps r x q key).0 ∙ load-store_same q s c.world)
          ∙ request-characteristics fuel (load q c.world) c.uniform_generator e in
        (
          (r, record { world = enqueue w r x; uniform_generator = g }),
          rw (known, e) refl,
          subst IsComplete (sym kept) complete,
        )

    module _ (t : Terminal) (fuel : ℕ) where
      requests_answer :
          (rounds : ℕ) (key : String) (q : Pointer) (n : ℕ) (c : Context w)
          → find key c.world ≡ some q
          → IsComplete (load q c.world).demand_characteristics
          → left (load q c.world) ≤ rounds
          → (b : Bool) → Stream.still_having (load q c.world) sta_ord ≡ b
          → (r : ℕ × Context w) × (generate_requests w t sta_ord fuel rounds key b n c ≡ ok r)
      unfolding generate_requests
      requests_answer rounds key q n c known complete enough false more = ((n, c), refl)
      requests_answer zero key q n c known complete enough true more =
          absurd (omega (arith, left-positive (load q c.world) more))
      requests_answer (suc rounds) key q n c known complete enough true more =
          let ((r, c'), e, complete') = request_answers fuel c key q known complete more in
          let (known', less) = next_request_left w memory keeps fuel c key q known e in
          let (status, e') = still_having-known w memory keeps c' key q sta_ord known' in
          let (answered, e'') =
            requests_answer rounds key q (suc n) c' known' complete' (omega (arith, less)) _ refl in
          (answered, rw (e, e') e'')

      -- Let the event service be a memory for the streams and leave them where they are, let the
      -- tokens name a stream, let its distributions have a value for whatever is drawn, and let
      -- there be as many rounds as requests left of it. Then `generate_all_br` under the
      -- statistics order answers: it reports as many events as there were requests left of the
      -- stream, or that there were none, and the stream, which the tokens still name, has no more
      -- to generate.
      pub generate_all_total :
          (rounds : ℕ) (tokens : List String) (q : Pointer) (c : Context w)
          → find (to_string tokens) c.world ≡ some q
          → IsComplete (load q c.world).demand_characteristics
          → left (load q c.world) ≤ rounds
          → (d : Context w) × (generate_all w t sta_ord fuel rounds tokens c
              ≡ ok (end_text t (left (load q c.world)) (to_string tokens), d))
            × (find (to_string tokens) d.world ≡ some q)
            × (Stream.still_having (load q d.world) sta_ord ≡ false)
      unfolding generate_all
      generate_all_total rounds tokens q c known complete enough =
          elim (generate_all_end w memory keeps t fuel rounds tokens q c known enough) [
            | inr done ↦ done
            | inl (f, e, k) ↦
                let key = to_string tokens in
                let has = has_stream-known w memory keeps t fuel c key q known in
                let (status, e') = still_having-known w memory keeps c key q sta_ord known in
                absurd (elim (Bool-cases (Stream.still_having (load q c.world) sta_ord)) [
                  | inr over ↦ cc (rw (has, e', over) at e)
                  | inl more ↦
                      let (r, answered) =
                        requests_answer rounds key q 0 c known complete enough true more in
                      cc (rw (has, e', more, answered) at e)
                ])
          ]
