-- ===== src/Stream/Counting.antt =====
-- How many requests the statistics order generates: `stillHavingRequestsToBeGenerated` and
-- `generateTimeOfRequestStatisticsOrder` (trademgen/bom/DemandStream.cpp).
use trademgen.Prelude.{
  ℕ, zero, suc, ◌≡◌, refl, ap, ◌∙◌, inl, inr, true, false, List, [], ◌∷◌, arith, if◌then◌else◌,
  length, assertion_failed, Result, ok, err, ◌>>=◌, Result-cases,
}
use trademgen.Prelude.Int.{pos, ◌-ℤ◌}
use trademgen.Platform.{Platform, IsOrdered}
use trademgen.Demand.{increment_generated_requests_counter}
use trademgen.Attribute.Continuous
use trademgen.Attribute.Continuous.{ContinuousDistribution, real_scalar}
use trademgen.Attribute.Continuous.Draw.{get_value-inverse, between}
use trademgen.Stream.{DemandStream, sta_ord, remaining, still_having, increment_counter}
use trademgen.Stream.Timing.{next_cumulative, statistics_order}

module _ ⦃p : Platform⦄ where
  open p use {Real, DateTime, lt}

  -- The arrival pattern of the stream was built from a map with an entry.
  abbrev pub HasPattern : DemandStream → Type 0
  HasPattern s =
      (v c : Real) × (es : ContinuousDistribution Real) × (s.demand_characteristics.arrival_pattern
        ≡ Continuous.init ((v, c) ∷ es))

  -- One call after the other, each on the stream that the last one left.
  pub draw_times : ℕ → DemandStream → Result (List DateTime × DemandStream)
  draw_times zero s = ok ([], s)
  draw_times (suc n) s = do
    first ← statistics_order s
    others ← draw_times n first.1
    ok (first.0 ∷ others.0, others.1)

  -- The requests that are left to generate, as the sign of the difference has it.
  statistics_order-assert :
      (s : DemandStream)
      → still_having s sta_ord ≡ false
      → statistics_order s ≡ err assertion_failed
  unfolding statistics_order still_having
  statistics_order-assert s h = rw h

  -- A counted request.
  pub record IsCounted (s t : DemandStream) : Type 0 where
    pub pattern :
        t.demand_characteristics.arrival_pattern ≡ s.demand_characteristics.arrival_pattern
    pub total :
        t.total_number_of_requests_to_be_generated ≡ s.total_number_of_requests_to_be_generated
    pub counter :
        t.random_generation_context.number_of_requests_generated_so_far
        ≡ suc s.random_generation_context.number_of_requests_generated_so_far

  pub statistics_order-IsCounted :
      (s : DemandStream) {time : DateTime} {t : DemandStream}
      → statistics_order s ≡ ok (time, t)
      → IsCounted s t
  unfolding statistics_order increment_counter increment_generated_requests_counter
  statistics_order-IsCounted s h = ground arith

  -- The sign of the difference decides.
  left-zero : (s : DemandStream) → remaining s ≡ pos 0 → still_having s sta_ord ≡ false
  unfolding still_having
  left-zero s left = rw left

  left-suc : (s : DemandStream) (n : ℕ) → remaining s ≡ pos (suc n) → still_having s sta_ord ≡ true
  unfolding still_having
  left-suc s n left = rw left (ground arith)

  left_next :
      (s t : DemandStream) (n : ℕ) → IsCounted s t → remaining s ≡ pos (suc n) → remaining t ≡ pos n
  unfolding ◌-ℤ◌
  left_next s t n counted left = ground arith

  HasPattern-subst : (s t : DemandStream) → IsCounted s t → HasPattern s → HasPattern t
  HasPattern-subst s t counted (v, c, es, e) = (v, c, es, counted.pattern ∙ e)

  module _ (laws : IsOrdered) where
    get_value-total :
        (s : DemandStream) (u : Real)
        → HasPattern s
        → (x : Real) × (Continuous.get_value s.demand_characteristics.arrival_pattern u ≡ ok x)
    get_value-total s u (v, c, es, e) =
        (if lt u c then v else between u v c es, rw e (get_value-inverse laws ((v, c) ∷ es) u))

    statistics_order_total :
        (s : DemandStream)
        → HasPattern s
        → still_having s sta_ord ≡ true
        → (r : DateTime × DemandStream) × (statistics_order s ≡ ok r)
    unfolding statistics_order still_having
    statistics_order_total s pattern more =
        let (x, e) = get_value-total s (next_cumulative s) pattern in
        elim (Result-cases (statistics_order s)) [ inl (f, h) ↦ absurd (ground arith) | inr r ↦ r ]

    -- Let the doubles be ordered, the arrival pattern be built from a map with an entry, and n be
    -- the number of requests that are left. Then n calls of the statistics order in a row succeed
    -- with n date-times, and after them no request is left: the stream says so, and a further call
    -- fails its assertion.
    pub draw_times_all :
        (n : ℕ) (s : DemandStream)
        → HasPattern s
        → remaining s ≡ pos n
        → (times : List DateTime) × (t : DemandStream) × (draw_times n s ≡ ok (times, t))
          × (length times ≡ n)
          × (still_having t sta_ord ≡ false)
          × (statistics_order t ≡ err assertion_failed)
    unfolding draw_times
    draw_times_all zero s pattern left =
        let over : still_having s sta_ord ≡ false = left-zero s left in
        ([], s, refl, refl, over, statistics_order-assert s over)
    draw_times_all (suc n) s pattern left =
        let ((time, t), e) = statistics_order_total s pattern (left-suc s n left) in
        let counted = statistics_order-IsCounted s e in
        let (times, u, e', len, over, stuck) =
          draw_times_all n t (HasPattern-subst s t counted pattern)
            (left_next s t n counted left) in
        (time ∷ times, u, rw (e, e'), ap suc len, over, stuck)
