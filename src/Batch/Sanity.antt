-- ===== src/Batch/Sanity.antt =====
-- The sanity check of the batch (trademgen/batches/trademgen_generateDemand.cpp) on the requests that
-- the Poisson process draws (trademgen/bom/DemandStream.cpp): a next request is not lower.
use trademgen.Prelude.{ℕ, zero, suc, ◌≡◌, refl, sym, ap, ◌∙◌, ◌⊎◌, inl, inr, true, false, arith, ok}
use trademgen.Prelude.Int.{ℤ, pos, ◌≤ℤ◌, ◌-ℤ◌, lt_ℤ, -ℤ_parts}
use trademgen.Platform.{Platform, IsOrdered}
use trademgen.Platform.Order.{◌≼◌, nought, ≼_trans, not-lt-≼, IsTimed}
use trademgen.Attribute.Continuous
use trademgen.Attribute.Continuous.{ContinuousDistribution, real_scalar}
use trademgen.Stream.{DemandStream, poi_pro, still_having}
use trademgen.Stream.Choice.{draw_variate}
use trademgen.Stream.Timing.{convert_float_into_duration, departure_date_time, poisson_process}
use trademgen.Stream.Request.{BookingRequest, generate_time, generate_next_request}
use trademgen.Stream.Frame.{SameSetup, generate_time-SameSetup}
use trademgen.Stream.Draws.{generate_next_request_effect}
use trademgen.Stream.Duration.{convert_float_into_duration_mono}
use trademgen.Stream.Outcome.{poisson_process_outcome}
use trademgen.Stream.Poisson.{last_bound, IsUnderWay, round-start}
use trademgen.Stream.Order.{RisingFrom, poisson_process_advances}
use trademgen.Batch.{is_lower}

-- A difference is not negative.
difference_nonneg : (a b : ℤ) → a ≤ℤ b → lt_ℤ (b -ℤ a) (pos 0) ≡ false
difference_nonneg a b h = ground (arith, -ℤ_parts b a)

module _ ⦃p : Platform⦄ (laws : IsOrdered) (timed : IsTimed) (v c : p.Real)
    (es : ContinuousDistribution p.Real) (rising : RisingFrom c es) where
  open p use {Real, Generator, DateTime, later, elapsed, total_milliseconds, of_int, neg}

  -- Before its first request, and about to start between the first point and the bound, or under
  -- way.
  abbrev pub IsReady : DemandStream → Type 0
  IsReady s =
      IsUnderWay v c es s
      ⊎ ((s.first_date_time_request ≡ true)
          × ((x : Real) × (Continuous.get_value s.demand_characteristics.arrival_pattern
                  (of_int (pos 0))
                ≡ ok x)
              × IsUnderWay v c es
                  (record s { date_time_last_request = x; first_date_time_request = false })))

  later_not_lower :
      (d : DateTime) (a b : Real)
      → a ≼ b
      → lt_ℤ
          (total_milliseconds (
            elapsed
              (later d (convert_float_into_duration b))
              (later d (convert_float_into_duration a))))
          (pos 0)
        ≡ false
  later_not_lower d a b h =
      rw (timed.difference d (convert_float_into_duration b) (convert_float_into_duration a))
        (difference_nonneg _ _ (convert_float_into_duration_mono laws timed a b h))

  first_call :
      (fuel : ℕ) (s : DemandStream) (x : Real)
      → s.first_date_time_request ≡ true
      → Continuous.get_value s.demand_characteristics.arrival_pattern (of_int (pos 0)) ≡ ok x
      → poisson_process fuel s
        ≡ poisson_process fuel
            (record s { date_time_last_request = x; first_date_time_request = false })
  unfolding poisson_process
  first_call zero s x first known = refl
  first_call (suc fuel) s x first known = rw (round-start s x first known)

  ready_advances :
      (fuel : ℕ) (s : DemandStream) {time : DateTime} {t : DemandStream}
      → IsReady s
      → nought ≼ s.demand_distribution.mean_number_of_requests
      → poisson_process fuel s ≡ ok (time, t)
      → IsUnderWay v c es t
  ready_advances fuel s (inl w) mean h =
      (poisson_process_advances laws timed v c es rising fuel s w mean h).0
  ready_advances fuel s (inr (first, (x, known, w))) mean h =
      (poisson_process_advances laws timed v c es rising fuel
        (record s { date_time_last_request = x; first_date_time_request = false }) w mean
        (sym (first_call fuel s x first known) ∙ h)).0

  -- A call whose last request is at the time of the request before.
  second_not_lower :
      (fuel : ℕ) (s : DemandStream) {time : DateTime} {t : DemandStream}
      → IsUnderWay v c es s
      → nought ≼ s.demand_distribution.mean_number_of_requests
      → poisson_process fuel s ≡ ok (time, t)
      → lt_ℤ
          (total_milliseconds (
            elapsed time (
              later
                (departure_date_time s)
                (convert_float_into_duration s.date_time_last_request))))
          (pos 0)
        ≡ false
  second_not_lower fuel s {time} {t} w mean h = elim (poisson_process_outcome fuel s h) [
    | inl ended ↦ rw ended.after_departure (
        later_not_lower (departure_date_time s) s.date_time_last_request (neg last_bound)
          (≼_trans laws _ last_bound _ (not-lt-≼ laws _ _ w.before_bound) timed.minus_one))
    | inr request ↦ rw request.on_time (
        later_not_lower (departure_date_time s) s.date_time_last_request t.date_time_last_request
          (poisson_process_advances laws timed v c es rising fuel s w mean h).1)
  ]

  -- The generator of the demand characteristics has no part in it.
  IsUnderWay-variates :
      (n : Generator) (s : DemandStream)
      → IsUnderWay v c es s
      → IsUnderWay v c es (record s { demand_characteristics_random_generator = n })
  IsUnderWay-variates n s w = record {
    pattern = w.pattern;
    ascending = w.ascending;
    stops = w.stops;
    started = w.started;
    after_first = w.after_first;
    before_bound = w.before_bound;
  }

  pub IsReady-variates :
      (n : Generator) (s : DemandStream)
      → IsReady s
      → IsReady (record s { demand_characteristics_random_generator = n })
  IsReady-variates n s (inl w) = inl (IsUnderWay-variates n s w)
  IsReady-variates n s (inr (first, (x, known, w))) =
      inr (first, (x, known, IsUnderWay-variates n _ w))

  -- A request, and what it leaves for the next one.
  pub record Follows (s t : DemandStream) (r : BookingRequest) : Type 0 where
    pub way : IsUnderWay v c es t
    pub mean :
        t.demand_distribution.mean_number_of_requests
        ≡ s.demand_distribution.mean_number_of_requests
    pub on_time :
        still_having t poi_pro ≡ true
        → r.request_date_time
          ≡ later (departure_date_time t) (convert_float_into_duration t.date_time_last_request)

  pub generate_next_request-Follows :
      (fuel : ℕ) (s : DemandStream) (g : Generator) {r : BookingRequest} {t : DemandStream}
      {g' : Generator}
      → IsReady s
      → nought ≼ s.demand_distribution.mean_number_of_requests
      → generate_next_request fuel s g poi_pro ≡ ok (r, t, g')
      → Follows s t r
  unfolding generate_time draw_variate still_having
  generate_next_request-Follows fuel s g {r} {t} ready mean h =
      let (time, x, timed_at, for, left) = generate_next_request_effect fuel s g poi_pro h in
      let same : SameSetup (draw_variate s).1 x = generate_time-SameSetup fuel poi_pro _ timed_at in
      let way : IsUnderWay v c es x =
        ready_advances fuel (draw_variate s).1 (IsReady-variates _ s ready) mean timed_at in
      rw left (record {
        way = IsUnderWay-variates _ x way;
        mean = ap (λ d. d.mean_number_of_requests) same.distribution;
        on_time = λ more. elim (poisson_process_outcome fuel (draw_variate s).1 timed_at) [
          | inl ended ↦ absurd (ground (arith, ended.flag))
          | inr request ↦
              for.request_date_time
              ∙ request.on_time
              ∙ ap
                  (λ k.
                    later (departure_date_time (record x { key = k }))
                      (convert_float_into_duration x.date_time_last_request))
                  (sym same.key)
        ];
      })

  module _ (fuel fuel' : ℕ) (s t : DemandStream) (g g' g1 g2 : Generator) {r r' : BookingRequest}
      {u : DemandStream} (ready : IsReady s)
      (mean : nought ≼ s.demand_distribution.mean_number_of_requests)
      (drawn : generate_next_request fuel s g poi_pro ≡ ok (r, t, g1))
      (goes_on : still_having t poi_pro ≡ true)
      (drawn' : generate_next_request fuel' t g' poi_pro ≡ ok (r', u, g2)) where
    -- Let the doubles be ordered, their operations monotone after rounding, exponential variates not
    -- negative, and durations exact. Let the keys of the arrival pattern ascend, one of them equal
    -- the bound where the generation stops, the shares not fall and the mean not be negative. Of two
    -- requests that a stream, ready for its first request or under way, generates by the Poisson
    -- process one after the other, where it still has requests after the first one, the second is
    -- not lower, as the sanity check of the batch asks; and the stream is under way with the same
    -- mean, ready for the next request.
    pub next_request_not_lower :
        (is_lower r' r ≡ false)
        × IsUnderWay v c es u
        × (u.demand_distribution.mean_number_of_requests
            ≡ s.demand_distribution.mean_number_of_requests)
    unfolding is_lower generate_time draw_variate
    next_request_not_lower =
        let first = generate_next_request-Follows fuel s g ready mean drawn in
        let mean' : nought ≼ t.demand_distribution.mean_number_of_requests = rw (first.mean) mean in
        let second = generate_next_request-Follows fuel' t g' (inl first.way) mean' drawn' in
        let (time, x, timed_at, for, left) =
          generate_next_request_effect fuel' t g' poi_pro drawn' in
        (
          rw (first.on_time goes_on, for.request_date_time)
              (second_not_lower fuel' (draw_variate t).1 (IsUnderWay-variates _ t first.way) mean'
                timed_at),
          second.way,
          second.mean ∙ first.mean,
        )
