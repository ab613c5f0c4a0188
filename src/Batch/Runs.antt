-- ===== src/Batch/Runs.antt =====
-- The runs of trademgen/batches/trademgen_generateDemand.cpp, fewer than 2 ^ 32 - 1, end under the
-- statistics order, on rounds that do not depend on how often the loop over the events is cut short.
use Prim.Native.Nat.{◌%◌, ◌^◌}
use trademgen.Prelude.{
  true, false, ◌-◌, ◌<◌, leb, ℕ, zero, suc, ◌+◌, ◌≤◌, ◌≡◌, refl, sym, ap, ◌∙◌, ◌≢◌, inl, inr, List,
  [], ◌∷◌, arith, Bool-cases, out_of_fuel, Result, ok, err, ◌>>=◌, Result-cases, HasEnded,
  ok-HasEnded, err-HasEnded,
}
use trademgen.Prelude.Int.{ℤ}
use trademgen.Platform.{Platform}
use trademgen.Stream.{DemandGenerationMethod, sta_ord}
use trademgen.Events.{EventService, IsMemory, IsQueue, KeepsStreams}
use trademgen.Service
use trademgen.Service.{Context}
use trademgen.Batch.{process_event, process_events, run, runs, generate_demand}
use trademgen.Batch.Ends.{run_end, events_left}

-- A result that every number of rounds from some one on gives, and that is not a loop cut short.
abbrev pub Ends : {T : Type 0} → (ℕ → Result T) → Type 0
Ends {T} f =
    (bound : ℕ) × (r : Result T) × (r ≢ err out_of_fuel)
    × ((rounds : ℕ) → bound ≤ rounds → f rounds ≡ r)

pub Ends-ok : {T : Type 0} (a : T) → Ends (λ rounds. ok a)
Ends-ok a = (0, ok a, λ q. cc, λ rounds h. refl)

pub Ends-bind :
    {T S : Type 0} (f : ℕ → Result T) (g : ℕ → T → Result S)
    → Ends f
    → ((a : T) → Ends (λ rounds. g rounds a))
    → Ends (λ rounds. f rounds >>= g rounds)
Ends-bind f g (bound, err e, k, first) others = (
  bound,
  err e,
  λ q. k (let same : e ≡ out_of_fuel = ground arith in ap err same),
  λ rounds h. rw (first rounds h) refl,
)
Ends-bind f g (bound, ok a, k, first) others =
    let (bound', r, k', rest) = others a in
    (bound + bound', r, k', λ rounds h. rw (first rounds (omega arith)) (rest rounds (omega arith)))

module _ ⦃p : Platform⦄ (w : EventService) where
  process_events_more :
      (rounds more fuel : ℕ) (method : DemandGenerationMethod) (shown : ℕ) (c : Context w)
      → rounds ≤ more
      → HasEnded (process_events w rounds fuel method shown c)
      → process_events w more fuel method shown c ≡ process_events w rounds fuel method shown c
  unfolding process_events Service.is_queue_done
  process_events_more zero zero fuel method shown c h e = refl
  process_events_more zero (suc more) fuel method shown c h e =
      elim (Bool-cases (Service.is_queue_done w c)) [
        | inl done ↦ rw (process_events, done) refl
        | inr not_done ↦ absurd (e.not_fuel (rw (process_events, not_done) refl))
      ]
  process_events_more (suc rounds) zero fuel method shown c h e = absurd (omega arith)
  process_events_more (suc rounds) (suc more) fuel method shown c h e =
      elim (Bool-cases (Service.is_queue_done w c)) [
        | inl done ↦ rw (process_events, done) refl
        | inr not_done ↦ elim (Result-cases (process_event w fuel method c)) [
          | inl (f, fails) ↦ rw (process_events, not_done, fails) refl
          | inr (c', passes) ↦
              let rest : process_events w (suc rounds) fuel method shown c
                  ≡ process_events w rounds fuel method (suc shown) c' =
                rw (process_events, not_done, passes) refl in
              let rest' : process_events w (suc more) fuel method shown c
                  ≡ process_events w more fuel method (suc shown) c' =
                rw (process_events, not_done, passes) refl in
              rest'
              ∙ process_events_more rounds more fuel method (suc shown) c' (omega arith)
                  (record { not_fuel = λ q. e.not_fuel (rest ∙ q) })
              ∙ sym rest
        ]
      ]

  run_more :
      (rounds more fuel : ℕ) (method : DemandGenerationMethod) (c : Context w)
      → rounds ≤ more
      → HasEnded (run w rounds fuel method c)
      → run w more fuel method c ≡ run w rounds fuel method c
  unfolding run
  run_more rounds more fuel method c h e =
      elim (Result-cases (Service.generate_first_requests w fuel c method)) [
        | inl (f, fails) ↦ rw fails refl
        | inr ((actual, started), passes) ↦
            let same =
              process_events_more rounds more fuel method 0 started h
                (record { not_fuel = λ q. e.not_fuel (rw (passes, q) refl) }) in
            rw (passes, same) refl
      ]

  -- A given number of runs.
  counted_runs : (n rounds fuel : ℕ) → Context w → Result (List ℤ × Context w)
  unfolding run
  counted_runs zero rounds fuel c = ok ([], c)
  counted_runs (suc n) rounds fuel c = run w rounds fuel sta_ord c >>= λ r.
      counted_runs n rounds fuel (r.2) >>= λ o. ok (r.0 ∷ o.0, o.1)

  -- An index that does not wrap around counts the runs that are left.
  runs-counted_runs :
      (left turns rounds fuel idx n : ℕ) (c : Context w)
      → left ≤ turns
      → idx + left ≡ suc n
      → n < 2 ^ 32 - 1
      → runs w turns rounds fuel sta_ord idx n c ≡ counted_runs left rounds fuel c
  unfolding runs counted_runs
  runs-counted_runs zero zero rounds fuel idx n c h here few =
      let last : leb idx n ≡ false = ground arith in rw (runs, last) refl
  runs-counted_runs zero (suc turns) rounds fuel idx n c h here few =
      let last : leb idx n ≡ false = ground arith in rw (runs, last) refl
  runs-counted_runs (suc left) zero rounds fuel idx n c h here few = absurd (omega arith)
  runs-counted_runs (suc left) (suc turns) rounds fuel idx n c h here few =
      let more : leb idx n ≡ true = ground arith in
      let fits : (idx + 1) % 2 ^ 32 ≡ idx + 1 = omega arith in
      elim (Result-cases (run w rounds fuel sta_ord c)) [
        | inl (f, fails) ↦ rw (runs, more, fails) refl
        | inr (r, passes) ↦
            let rest =
              runs-counted_runs left turns rounds fuel (idx + 1) n (r.2) (omega arith) (omega arith)
                few in
            rw (runs, more, passes, fits, rest) refl
      ]

  module _ (memory : IsMemory w) (keeps : KeepsStreams w) (queue : IsQueue w) where
    run-Ends : (fuel : ℕ) (c : Context w) → Ends (λ rounds. run w rounds fuel sta_ord c)
    run-Ends fuel c =
        let bound = events_left w memory keeps queue c in
        let ended : HasEnded (run w bound fuel sta_ord c) =
          elim (run_end w memory keeps queue bound fuel c (omega arith)) [
            | inl (f, e, k) ↦ rw e (err-HasEnded f k)
            | inr (actual, shown, d, e, less) ↦ rw e (ok-HasEnded (actual, shown, d))
          ] in
        (
          bound,
          run w bound fuel sta_ord c,
          ended.not_fuel,
          λ rounds h. run_more bound rounds fuel sta_ord c h ended,
        )

    counted_runs-Ends : (n fuel : ℕ) (c : Context w) → Ends (λ rounds. counted_runs n rounds fuel c)
    unfolding counted_runs
    counted_runs-Ends zero fuel c = Ends-ok ([], c)
    counted_runs-Ends (suc n) fuel c =
        Ends-bind (λ rounds. run w rounds fuel sta_ord c) _ (run-Ends fuel c)
          (λ r.
            Ends-bind (λ rounds. counted_runs n rounds fuel (r.2)) _
              (counted_runs-Ends n fuel (r.2)) (λ o. Ends-ok (r.0 ∷ o.0, o.1)))

    runs-Ends :
        (n fuel : ℕ) (c : Context w)
        → n < 2 ^ 32 - 1
        → Ends (λ rounds. runs w rounds rounds fuel sta_ord 1 n c)
    runs-Ends n fuel c few =
        let (bound, r, k, ends) = counted_runs-Ends n fuel c in
        (
          bound + n,
          r,
          k,
          λ rounds h.
              runs-counted_runs n rounds rounds fuel 1 n c (omega arith) (omega arith) few
              ∙ ends rounds (omega arith),
        )

    -- Let the event service be a memory for the streams, leave them where they are and keep a
    -- queue. Then runs of the batch under the statistics order end, where there are fewer than
    -- 2 ^ 32 - 1 of them: from some number of rounds on, neither the loop over the runs nor those
    -- over the events are cut short, and the runs give the same result, a fault of the code or the
    -- numbers that the statistics take.
    pub generate_demand_end :
        (n fuel : ℕ) (c : Context w)
        → n < 2 ^ 32 - 1
        → (bound : ℕ) × (r : Result (ℤ × List ℤ × Context w)) × (r ≢ err out_of_fuel)
          × ((rounds : ℕ) → bound ≤ rounds → generate_demand w n rounds fuel sta_ord c ≡ r)
    unfolding generate_demand
    generate_demand_end n fuel c few =
        Ends-bind (λ rounds. runs w rounds rounds fuel sta_ord 1 n c) _ (runs-Ends n fuel c few)
          (λ o. Ends-ok _)
