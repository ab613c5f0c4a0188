-- ===== src/Batch/Sequence.antt =====
-- The requests of one stream, as the batch asks for them one after the other
-- (trademgen/batches/trademgen_generateDemand.cpp) from the Poisson process
-- (trademgen/bom/DemandStream.cpp).
use trademgen.Prelude.{
  ℕ, zero, suc, ◌≤◌, ◌<◌, ◌≡◌, refl, sym, ap, ◌∙◌, subst, ◌⊎◌, inl, inr, true, false, List, [], ◌∷◌,
  arith, Bool-cases, length, ok,
}
use trademgen.Platform.{Platform, IsOrdered}
use trademgen.Platform.Order.{◌≼◌, nought, IsTimed}
use trademgen.Attribute.Continuous.{ContinuousDistribution, real_scalar}
use trademgen.Attribute.Continuous.Ascending.{count_above}
use trademgen.Attribute.Categorical.Draw.{Grows}
use trademgen.Demand.{CharacteristicsInput, characteristics}
use trademgen.Stream.{DemandStream, poi_pro, still_having}
use trademgen.Stream.Request.{BookingRequest, generate_time, generate_next_request}
use trademgen.Stream.Poisson.{poisson_process_total, poisson_process_first_total}
use trademgen.Stream.Order.{RisingFrom}
use trademgen.Stream.Frame.{generate_time-SameSetup}
use trademgen.Stream.Draws.{generate_next_request_effect}
use trademgen.Stream.Choice.{draw_variate}
use trademgen.Stream.Total.{IsComplete, next, generate_next_request-timed}
use trademgen.Stream.Usable.{IsUsable, IsUsable-IsComplete}
use trademgen.Stream.Arriving.{IsArriving, first_value, first_known, first_way}
use trademgen.Batch.Requests.{draw_requests, InOrder, IsSequence, last_one, one_more}
use trademgen.Batch.Sanity.{
  IsReady, IsReady-variates, generate_next_request-Follows, next_request_not_lower,
}

module _ ⦃p : Platform⦄ where
  open p use {Real, Generator, DateTime, lt, of_int}

  count_above-length :
      (key : Real) (es : ContinuousDistribution Real) → count_above key es ≤ length es
  count_above-length key [] = omega arith
  count_above-length key ((v, c) ∷ es) = ground (arith, count_above-length key es)

  module _ (laws : IsOrdered) (timed : IsTimed) (grows : Grows) (i : CharacteristicsInput)
      (v c : Real) (es : ContinuousDistribution Real) (usable : IsUsable i)
      (arrives : IsArriving i.arrival_pattern v c es) (rising : RisingFrom c es) (fuel : ℕ)
      (enough : length es < fuel) where
    time_total :
        (s : DemandStream)
        → IsReady laws timed v c es rising s
        → (r : DateTime × DemandStream) × (generate_time fuel poi_pro s ≡ ok r)
    unfolding generate_time
    time_total s (inl w) =
        poisson_process_total laws v c es fuel s w
          (omega (arith, count_above-length s.date_time_last_request es))
    time_total s (inr (first, (x, known, w))) =
        poisson_process_first_total laws v c es fuel s x first known w
          (omega (arith, count_above-length x es))

    ready_total :
        (s : DemandStream) (g : Generator)
        → s.demand_characteristics ≡ characteristics i
        → IsReady laws timed v c es rising s
        → (r : BookingRequest × DemandStream × Generator) × (generate_next_request fuel s g poi_pro
            ≡ ok r)
    ready_total s g same ready =
        let (r, e) = time_total (next s) (IsReady-variates laws timed v c es rising _ s ready) in
        generate_next_request-timed fuel poi_pro s g
          (subst IsComplete (sym same) (IsUsable-IsComplete laws grows i usable)) e

    same_characteristics :
        (s : DemandStream) (g : Generator) {r : BookingRequest} {t : DemandStream} {g' : Generator}
        → generate_next_request fuel s g poi_pro ≡ ok (r, t, g')
        → t.demand_characteristics ≡ s.demand_characteristics
    unfolding draw_variate
    same_characteristics s g h =
        let (time, x, timed_at, for, left) = generate_next_request_effect fuel s g poi_pro h in
        ap (λ y. y.demand_characteristics) left
        ∙ (generate_time-SameSetup fuel poi_pro _ timed_at).characteristics

    later_requests :
        (n : ℕ) (s t : DemandStream) (g g' g1 : Generator) {r : BookingRequest}
        → s.demand_characteristics ≡ characteristics i
        → IsReady laws timed v c es rising s
        → nought ≼ s.demand_distribution.mean_number_of_requests
        → generate_next_request fuel s g poi_pro ≡ ok (r, t, g1)
        → still_having t poi_pro ≡ true
        → IsSequence fuel (r ∷ []) n t g'
    unfolding draw_requests
    later_requests zero s t g g' g1 same ready mean drawn goes_on = record {
      requests = [];
      left = t;
      generator = g';
      drawn = refl;
      in_order = tt;
      complete = inl refl;
    }
    later_requests (suc n) s t g g' g1 {r} same ready mean drawn goes_on =
        let first =
          generate_next_request-Follows laws timed v c es rising fuel s g ready mean drawn in
        let same' = same_characteristics s g drawn ∙ same in
        let ((r', u, g2), drawn') = ready_total t g' same' (inl first.way) in
        let mean' : nought ≼ t.demand_distribution.mean_number_of_requests = rw (first.mean) mean in
        let (not_lower, _, _) =
          next_request_not_lower laws timed v c es rising fuel fuel s t g g' g1 g2 ready mean drawn
            goes_on drawn' in
        elim (Bool-cases (still_having u poi_pro)) [
          | inl more ↦
              let later = later_requests n t u g' g2 g2 same' (inl first.way) mean' drawn' more in
              one_more fuel t g' (r ∷ []) drawn' n more
                (record {
                  requests = later.requests;
                  left = later.left;
                  generator = later.generator;
                  drawn = later.drawn;
                  in_order = (not_lower, later.in_order);
                  complete = later.complete;
                })
                (not_lower, later.in_order)
          | inr over ↦ last_one fuel t g' (r ∷ []) drawn' n over (not_lower, tt)
        ]

    first_requests :
        (n : ℕ) (s : DemandStream) (g : Generator)
        → s.demand_characteristics ≡ characteristics i
        → s.first_date_time_request ≡ true
        → nought ≼ s.demand_distribution.mean_number_of_requests
        → IsSequence fuel [] n s g
    unfolding draw_requests
    first_requests zero s g same first mean = record {
      requests = [];
      left = s;
      generator = g;
      drawn = refl;
      in_order = tt;
      complete = inl refl;
    }
    first_requests (suc n) s g same first mean =
        let ready : IsReady laws timed v c es rising s = inr (
          first,
          (
            first_value v c es,
            first_known laws grows i v c es usable arrives s same,
            first_way laws grows i v c es usable arrives s same,
          ),
        ) in
        let ((r, t, g'), drawn) = ready_total s g same ready in
        elim (Bool-cases (still_having t poi_pro)) [
          | inl more ↦
              let later = later_requests n s t g g' g' same ready mean drawn more in
              one_more fuel s g [] drawn n more later later.in_order
          | inr over ↦ last_one fuel s g [] drawn n over tt
        ]

    -- Let the doubles be ordered, their operations monotone after rounding, exponential variates
    -- not negative, durations exact, and adding a positive mass never lower a sum. Let a stream
    -- that has had no request be made of usable maps, whose arrival pattern ascends with shares
    -- that do not fall, has an entry at the bound where the generation stops, and has its value at
    -- probability 0 between its first key and that bound; let its mean not be negative. Then
    -- however many requests are asked for, one after the other while the stream has some, the
    -- Poisson process answers each on any fuel above the number of keys after the first one, each
    -- passes the sanity check of the batch against the one before it, and there are as many as were
    -- asked for unless the stream has no more.
    pub draw_requests_total :
        (n : ℕ) (s : DemandStream) (g : Generator)
        → s.demand_characteristics ≡ characteristics i
        → s.first_date_time_request ≡ true
        → nought ≼ s.demand_distribution.mean_number_of_requests
        → (requests : List BookingRequest) × (t : DemandStream) × (g' : Generator) × (draw_requests
              n fuel s g
            ≡ ok (requests, t, g'))
          × InOrder requests
          × ((length requests ≡ n) ⊎ ((still_having t poi_pro ≡ false) × (length requests ≤ n)))
    draw_requests_total n s g same first mean =
        let all = first_requests n s g same first mean in
        (all.requests, all.left, all.generator, all.drawn, all.in_order, all.complete)
