-- ===== src/Stream/Order.antt =====
-- The requests of a stream come in the order of their times: `generateTimeOfRequestPoissonProcess`
-- (trademgen/bom/DemandStream.cpp).
use trademgen.Prelude.{
  ℕ, zero, suc, ◌≡◌, sym, ◌∙◌, inl, inr, true, false, Option, none, some, [], ◌∷◌, arith,
  Bool-cases, Result, ok, Result-cases,
}
use trademgen.Platform.{Platform, IsOrdered}
use trademgen.Platform.Order.{◌≼◌, nought, ≼_trans, ≼_refl, lt-≼, IsTimed}
use trademgen.Attribute.Continuous
use trademgen.Attribute.Continuous.{ContinuousDistribution, real_scalar}
use trademgen.Attribute.Continuous.Bound.{Segment, segment_from, slope}
use trademgen.Stream.{DemandStream, increment_counter}
use trademgen.Stream.Timing.{draw, poisson_round, poisson_process}
use trademgen.Stream.Poisson.{
  last_bound, IsUnderWay, neighbours, upper_known, slope_at, slope_known, draw_moves,
}
use trademgen.Stream.Frame.{poisson_round-SameSetup}

module _ ⦃p : Platform⦄ where
  open p use {Real, DateTime, of_int, lt, eq, add, sub, mul, div, later, exponential}

  -- The shares of the points do not fall.
  abbrev pub RisingFrom : Real → ContinuousDistribution Real → Type 0
  RisingFrom c [] = Unit
  RisingFrom c ((w, d) ∷ es) = (c ≼ d) × RisingFrom d es

  segment_from-shares :
      (key v c : Real) (es : ContinuousDistribution Real) {g : Segment Real}
      → RisingFrom c es
      → segment_from key v c es ≡ some g
      → g.low_share ≼ g.high_share
  segment_from-shares key v c [] r h = cc
  segment_from-shares key v c ((w, d) ∷ es) {g} (up, r) h = elim (Bool-cases (lt key w)) [
    | inl t ↦ ground (arith)
    | inr f ↦ segment_from-shares key w d es r (rw f at h)
  ]

  module _ (laws : IsOrdered) (timed : IsTimed) (v c : Real) (es : ContinuousDistribution Real)
      (rising : RisingFrom c es) where
    open laws use {lt_trans, lt_cotrans, le-eq-not-lt, eq-def}
    open timed use {sub_nonneg, mul_nonneg, div_nonneg, add_grows, variate}

    slope_nonneg :
        (g : Segment Real) {x : Real}
        → g.low_share ≼ g.high_share
        → g.low ≼ g.high
        → slope g ≡ ok x
        → nought ≼ x
    slope_nonneg g up apart h =
        let whole : nought ≼ div (sub g.high_share g.low_share) (sub g.high g.low) =
          div_nonneg _ _ (sub_nonneg _ _ up) (sub_nonneg _ _ apart) in
        ground arith

    module _ (s : DemandStream) (w : IsUnderWay v c es s)
        (apart : eq s.date_time_last_request last_bound ≡ false)
        (mean : nought ≼ s.demand_distribution.mean_number_of_requests) where
      rate_nonneg :
          {x : Real}
          → Continuous.get_derivative_value s.demand_characteristics.arrival_pattern
              s.date_time_last_request
            ≡ ok x
          → nought ≼ mul x s.demand_distribution.mean_number_of_requests
      rate_nonneg h =
          let (g, known, from, round) = neighbours laws v c es s w apart in
          let apart_keys : lt g.low g.high ≡ true =
            ground
              (arith, lt_cotrans s.date_time_last_request g.low g.high round.above_key, round) in
          mul_nonneg _ _
            (slope_nonneg g (segment_from-shares _ v c es rising from)
              (lt-≼ laws g.low g.high apart_keys) (sym (slope_at laws v c es s w apart) ∙ h))
            mean

      -- A request that is drawn lies in the interval, not before the last one.
      draw_request :
          {time : DateTime} {u : DemandStream}
          → draw s ≡ ok (some time, u)
          → IsUnderWay v c es u × (s.date_time_last_request ≼ u.date_time_last_request)
      unfolding draw increment_counter
      draw_request {time} {u} h =
          let (g, known, from, round) = neighbours laws v c es s w apart in
          let upper = upper_known laws v c es s w apart in
          let inside : lt u.date_time_last_request g.high ≡ true = ground (arith, upper) in
          let (x, rate) = slope_known laws v c es s w apart in
          let rate_drawn =
            exponential (mul x s.demand_distribution.mean_number_of_requests)
              s.request_date_time_random_generator in
          let drawn : u.date_time_last_request ≡ add s.date_time_last_request rate_drawn.0 =
            ground (arith, upper) in
          let grows : s.date_time_last_request ≼ u.date_time_last_request =
            rw drawn (add_grows _ _ (variate _ _ (rate_nonneg rate))) in
          (
            record {
              pattern = ground (arith, w.pattern);
              ascending = w.ascending;
              stops = w.stops;
              started = ground (arith, w.started);
              after_first = ground (
                arith,
                lt_cotrans u.date_time_last_request s.date_time_last_request v,
                le-eq-not-lt s.date_time_last_request u.date_time_last_request,
                w.after_first,
              );
              before_bound =
                  ground (arith, lt_trans last_bound u.date_time_last_request g.high, round.within);
            },
            grows,
          )

      draw_moves_on :
          {u : DemandStream}
          → draw s ≡ ok (none, u)
          → IsUnderWay v c es u × (s.date_time_last_request ≼ u.date_time_last_request)
      unfolding draw
      draw_moves_on {u} h =
          let (g, known, from, round) = neighbours laws v c es s w apart in
          let upper = upper_known laws v c es s w apart in
          let moved : u.date_time_last_request ≡ g.high = ground (arith, upper) in
          ((draw_moves laws v c es s w apart h).0, rw moved (lt-≼ laws _ _ round.above_key))

    -- One round keeps the stream under way, and its last request does not go back.
    round_advances :
        (s : DemandStream)
        → IsUnderWay v c es s
        → nought ≼ s.demand_distribution.mean_number_of_requests
        → (o : Option DateTime) (u : DemandStream) → poisson_round s ≡ ok (o, u)
        → IsUnderWay v c es u × (s.date_time_last_request ≼ u.date_time_last_request)
    unfolding poisson_round
    round_advances s w mean o u h = elim (Bool-cases (eq s.date_time_last_request last_bound)) [
      | inl there ↦
          let last : u.date_time_last_request ≡ s.date_time_last_request =
            ground (arith, w.started) in
          (
            record {
              pattern = ground (arith, w.pattern, w.started);
              ascending = w.ascending;
              stops = w.stops;
              started = ground (arith, w.started);
              after_first = rw last w.after_first;
              before_bound = rw last w.before_bound;
            },
            rw last (≼_refl laws s.date_time_last_request),
          )
      | inr apart ↦
          let drawn : draw s ≡ ok (o, u) = ground (arith, w.started) in
          drawn_way s w apart mean o u drawn
    ]
      where
        drawn_way :
            (s : DemandStream) (w : IsUnderWay v c es s)
            → eq s.date_time_last_request last_bound ≡ false
            → nought ≼ s.demand_distribution.mean_number_of_requests
            → (o : Option DateTime) (u : DemandStream) → draw s ≡ ok (o, u)
            → IsUnderWay v c es u × (s.date_time_last_request ≼ u.date_time_last_request)
        drawn_way s w apart mean (some t) u h = draw_request s w apart mean h
        drawn_way s w apart mean none u h = draw_moves_on s w apart mean h

    pub poisson_process_advances :
        (fuel : ℕ) (s : DemandStream) {time : DateTime} {t : DemandStream}
        → IsUnderWay v c es s
        → nought ≼ s.demand_distribution.mean_number_of_requests
        → poisson_process fuel s ≡ ok (time, t)
        → IsUnderWay v c es t × (s.date_time_last_request ≼ t.date_time_last_request)
    unfolding poisson_process
    poisson_process_advances zero s w mean h = cc
    poisson_process_advances (suc fuel) s {time} {t} w mean h =
        elim (Result-cases (poisson_round s)) [
          | inl (f, e) ↦ cc (rw (e, poisson_process) at h)
          | inr ((none, u), e) ↦
              let (w', on) = round_advances s w mean none u e in
              let mean' : nought ≼ u.demand_distribution.mean_number_of_requests =
                rw ((poisson_round-SameSetup s e).distribution) mean in
              let (w'', on') =
                poisson_process_advances fuel u w' mean' (rw (e, poisson_process) at h) in
              (w'', ≼_trans laws _ _ _ on on')
          | inr ((some d, u), e) ↦
              let answer : Path (Result (DateTime × DemandStream)) (ok (d, u)) (ok (time, t)) =
                rw (e, poisson_process) at h in
              round_advances s w mean (some d) t (e ∙ cc)
        ]
