-- ===== src/Stream/Poisson.antt =====
-- The recursion of `generateTimeOfRequestPoissonProcess` (trademgen/bom/DemandStream.cpp): it ends,
-- and how.
use trademgen.Prelude.{
  ℕ, zero, suc, ◌<◌, ◌≡◌, refl, ap, ◌∙◌, inl, inr, true, false, Option, none, some, ◌∷◌, arith,
  Bool-cases, ok, Result-cases,
}
use trademgen.Prelude.Int.{pos}
use trademgen.Platform.{Platform, IsOrdered}
use trademgen.Demand.{default_last_lower_bound_arrival_pattern}
use trademgen.Attribute.Continuous
use trademgen.Attribute.Continuous.{ContinuousDistribution, ContinuousAttributeLite, real_scalar}
use trademgen.Attribute.Continuous.Bound.{
  Segment, segment_from, segment, slope, on_segment, get_upper_bound-init,
  get_derivative_value-init,
}
use trademgen.Attribute.Continuous.Ascending.{
  Ascending, Reaches, Encloses, count_above, count_above-lt, segment_from-Encloses,
}
use trademgen.Stream.{DemandStream}
use trademgen.Stream.Timing.{finish, draw, poisson_round, poisson_process}

module _ ⦃p : Platform⦄ where
  open p use {of_int, Real, DateTime, lt, eq, later}

  abbrev pub last_bound : Real
  last_bound = default_last_lower_bound_arrival_pattern

  -- An arrival pattern that starts at `v` and has a point at the bound where the generation stops,
  -- and a last request between the two.
  pub record IsUnderWay (v c : Real) (es : ContinuousDistribution Real) (s : DemandStream)
      : Type 0 where
    pub pattern : s.demand_characteristics.arrival_pattern ≡ Continuous.init ((v, c) ∷ es)
    pub ascending : Ascending ((v, c) ∷ es)
    pub stops : Reaches last_bound ((v, c) ∷ es)
    pub started : s.first_date_time_request ≡ false
    pub after_first : lt s.date_time_last_request v ≡ false
    pub before_bound : lt last_bound s.date_time_last_request ≡ false

  -- The first call goes on as if its start had been set before.
  pub round-start :
      (s : DemandStream) (x : Real)
      → s.first_date_time_request ≡ true
      → Continuous.get_value s.demand_characteristics.arrival_pattern (of_int (pos 0)) ≡ ok x
      → poisson_round s
        ≡ poisson_round (record s { date_time_last_request = x; first_date_time_request = false })
  unfolding poisson_round
  round-start s x first known = rw (first, known)

  module _ (laws : IsOrdered) (v c : Real) (es : ContinuousDistribution Real) where
    open laws use {lt_irrefl, lt_trans, lt_cotrans, eq-def}

    -- Under way and not at the bound, the last request has neighbours in the pattern.
    pub neighbours :
        (s : DemandStream)
        → IsUnderWay v c es s
        → eq s.date_time_last_request last_bound ≡ false
        → (g : Segment Real) × (segment s.date_time_last_request ((v, c) ∷ es) ≡ some g)
          × (segment_from s.date_time_last_request v c es ≡ some g)
          × Encloses last_bound s.date_time_last_request g
    neighbours s w apart =
        let last = s.date_time_last_request in
        let below : lt last last_bound ≡ true =
          ground (arith, eq-def last last_bound, w.before_bound) in
        let (g, known, round) =
          segment_from-Encloses laws last v c last_bound es w.ascending.1 (rest w.stops below) below
            w.after_first in
        (g, rw w.after_first known, known, round)
      where
        rest :
            Reaches last_bound ((v, c) ∷ es)
            → lt s.date_time_last_request last_bound ≡ true
            → Reaches last_bound es
        rest (inl same) below = absurd (
            ground (
              arith,
              eq-def v last_bound,
              lt_cotrans s.date_time_last_request v last_bound below,
              w.after_first,
            ))
        rest (inr r) below = r

    slope-total : (g : Segment Real) → lt g.low g.high ≡ true → (x : Real) × (slope g ≡ ok x)
    slope-total g up = elim (Result-cases (slope g)) [
      | inl (f, e) ↦ absurd (ground (arith, eq-def g.high g.low))
      | inr r ↦ r
    ]

    -- A draw under way succeeds, and where it gives no request it moves on to the upper neighbour.
    module _ (s : DemandStream) (w : IsUnderWay v c es s)
        (apart : eq s.date_time_last_request last_bound ≡ false) where
      pub upper_known :
          let g = (neighbours s w apart).0 in
          Continuous.get_upper_bound s.demand_characteristics.arrival_pattern
            s.date_time_last_request
          ≡ ok g.high
      upper_known =
          let (g, known, _, _) = neighbours s w apart in
          ap (λ a. Continuous.get_upper_bound a s.date_time_last_request) w.pattern
          ∙ get_upper_bound-init ((v, c) ∷ es) s.date_time_last_request
          ∙ ap (on_segment (λ g. ok g.high)) known

      pub slope_at :
          Continuous.get_derivative_value s.demand_characteristics.arrival_pattern
            s.date_time_last_request
          ≡ slope ((neighbours s w apart).0)
      slope_at =
          let (g, known, _, _) = neighbours s w apart in
          ap (λ a. Continuous.get_derivative_value a s.date_time_last_request) w.pattern
          ∙ get_derivative_value-init ((v, c) ∷ es) s.date_time_last_request
          ∙ ap (on_segment slope) known

      pub slope_known :
          (x : Real) × (Continuous.get_derivative_value s.demand_characteristics.arrival_pattern
              s.date_time_last_request
            ≡ ok x)
      slope_known =
          let (g, known, _, round) = neighbours s w apart in
          let (x, e) = slope-total g (
            ground
              (arith, lt_cotrans s.date_time_last_request g.low g.high round.above_key, round)) in
          (x, slope_at ∙ e)

      draw-total : (r : Option DateTime × DemandStream) × (draw s ≡ ok r)
      unfolding draw
      draw-total =
          let (x, e) = slope_known in
          elim (Result-cases (draw s)) [
            | inl (f, h) ↦ absurd (ground (arith, upper_known))
            | inr r ↦ r
          ]

      pub draw_moves :
          {u : DemandStream}
          → draw s ≡ ok (none, u)
          → IsUnderWay v c es u
            × (count_above u.date_time_last_request es < count_above s.date_time_last_request es)
      unfolding draw
      draw_moves {u} h =
          let (g, known, from, round) = neighbours s w apart in
          let moved : u.date_time_last_request ≡ g.high = ground (arith, upper_known) in
          (
            record {
              pattern = ground (arith, w.pattern);
              ascending = w.ascending;
              stops = w.stops;
              started = ground (arith, w.started);
              after_first = rw moved (
                  ground (
                    arith,
                    lt_trans s.date_time_last_request g.high v round.above_key,
                    w.after_first,
                  ));
              before_bound = rw moved round.within;
            },
            rw moved (count_above-lt laws s.date_time_last_request v c es g from round.above_key),
          )

    round_total :
        (s : DemandStream)
        → IsUnderWay v c es s
        → (r : Option DateTime × DemandStream) × (poisson_round s ≡ ok r)
          × (r.0 ≡ none
              → IsUnderWay v c es r.1
                × (count_above r.1.date_time_last_request es
                    < count_above s.date_time_last_request es))
    unfolding poisson_round
    round_total s w = elim (Bool-cases (eq s.date_time_last_request last_bound)) [
      | inl there ↦
          ((some (finish s).0, (finish s).1), ground (arith, w.started), λ n. absurd (ground arith))
      | inr apart ↦
          let (r, e) = draw-total s w apart in
          (r, ground (arith, w.started), λ n. draw_moves s w apart (e ∙ ap (λ o. ok (o, r.1)) n))
    ]

    -- The recursion ends: where the doubles are ordered, the keys of the arrival pattern ascend,
    -- one of them equals the bound where the generation stops, and the last request lies between
    -- the first key and that bound, the Poisson process answers on any fuel above the number of
    -- keys after the first one that lie above the last request.
    pub poisson_process_total :
        (fuel : ℕ) (s : DemandStream)
        → IsUnderWay v c es s
        → count_above s.date_time_last_request es < fuel
        → (r : DateTime × DemandStream) × (poisson_process fuel s ≡ ok r)
    unfolding poisson_process
    poisson_process_total zero s w h = elim h [ ]
    poisson_process_total (suc fuel) s w h =
        let ((o, u), e, moved) = round_total s w in
        rw (e, poisson_process) (answer (poisson_process_total fuel) o u moved)
      where
        answer :
            ((x : DemandStream)
              → IsUnderWay v c es x
              → count_above x.date_time_last_request es < fuel
              → (r : DateTime × DemandStream) × (poisson_process fuel x ≡ ok r))
            → (o : Option DateTime) (u : DemandStream)
            → (o ≡ none
                → IsUnderWay v c es u
                  × (count_above u.date_time_last_request es
                      < count_above s.date_time_last_request es))
            → (r : DateTime × DemandStream) × (elim o [
              | some t ↦ ok (t, u)
              | none ↦ poisson_process fuel u
            ]
                ≡ ok r)
        answer total (some t) u moved = ((t, u), refl)
        answer total none u moved = let (w', fewer) = moved refl in total u w' (omega arith)

    -- Let the doubles be ordered, the keys of the arrival pattern ascend, one of them equal the
    -- bound where the generation stops, and the value of the pattern at probability 0 lie between
    -- its first key and that bound. Then the first call of the Poisson process answers, on any
    -- fuel above the number of keys after the first one that lie above that value.
    pub poisson_process_first_total :
        (fuel : ℕ) (s : DemandStream) (x : Real)
        → s.first_date_time_request ≡ true
        → Continuous.get_value s.demand_characteristics.arrival_pattern (of_int (pos 0)) ≡ ok x
        → IsUnderWay v c es
            (record s { date_time_last_request = x; first_date_time_request = false })
        → count_above x es < fuel
        → (r : DateTime × DemandStream) × (poisson_process fuel s ≡ ok r)
    unfolding poisson_process
    poisson_process_first_total zero s x first known w h = elim h [ ]
    poisson_process_first_total (suc fuel) s x first known w h =
        let s' : DemandStream = record s {
          date_time_last_request = x;
          first_date_time_request = false;
        } in
        let same : poisson_round s ≡ poisson_round s' = round-start s x first known in
        let (r, e) = poisson_process_total (suc fuel) s' w h in (r, rw same e)
