-- ===== src/Stream/Arriving.antt =====
-- When the Poisson process gives a whole request: `generateNextRequest` on a stream that is made of
-- the maps of a demand (trademgen/bom/DemandStream.cpp).
use trademgen.Prelude.{ℕ, ◌<◌, ◌≡◌, refl, sym, ap, ◌∙◌, subst, true, false, ◌∷◌, if◌then◌else◌, ok}
use trademgen.Prelude.Int.{pos}
use trademgen.Platform.{Platform, IsOrdered}
use trademgen.Attribute.Continuous
use trademgen.Attribute.Continuous.{ContinuousDistribution, real_scalar}
use trademgen.Attribute.Continuous.Draw.{get_value-inverse, between}
use trademgen.Attribute.Continuous.Ascending.{Ascending, Reaches, count_above}
use trademgen.Attribute.Categorical.Draw.{Grows}
use trademgen.Demand.{
  CharacteristicsInput, characteristics, default_last_lower_bound_arrival_pattern,
}
use trademgen.Stream.{DemandStream, poi_pro}
use trademgen.Stream.Request.{BookingRequest, generate_next_request, generate_time}
use trademgen.Stream.Poisson.{IsUnderWay, poisson_process_first_total}
use trademgen.Stream.Total.{IsComplete, next, generate_next_request-timed}
use trademgen.Stream.Usable.{IsUsable, IsUsable-IsComplete}

module _ ⦃p : Platform⦄ where
  open p use {Real, Generator, of_int, lt}

  -- The value of the map that begins with the point (`v`, `c`) at probability 0.
  abbrev pub first_value : Real → Real → ContinuousDistribution Real → Real
  first_value v c es = if lt (of_int (pos 0)) c then v else between (of_int (pos 0)) v c es

  -- The arrival pattern begins with the point (`v`, `c`), ascends, has an entry at the bound where
  -- the generation stops, and its value at probability 0 lies between the two.
  pub record IsArriving (m : ContinuousDistribution Real) (v c : Real)
      (es : ContinuousDistribution Real) : Type 0 where
    pub entries : m ≡ (v, c) ∷ es
    pub ascending : Ascending ((v, c) ∷ es)
    pub stops : Reaches default_last_lower_bound_arrival_pattern ((v, c) ∷ es)
    pub after_first : lt (first_value v c es) v ≡ false
    pub before_bound : lt default_last_lower_bound_arrival_pattern (first_value v c es) ≡ false

  module _ (laws : IsOrdered) (grows : Grows) (i : CharacteristicsInput) (v c : Real)
      (es : ContinuousDistribution Real) (usable : IsUsable i)
      (arrives : IsArriving i.arrival_pattern v c es) where
    pub arrivals_of :
        (s : DemandStream)
        → s.demand_characteristics ≡ characteristics i
        → s.demand_characteristics.arrival_pattern ≡ Continuous.init ((v, c) ∷ es)
    unfolding characteristics
    arrivals_of s same = ap (λ h. h.arrival_pattern) same ∙ ap Continuous.init arrives.entries

    pub first_known :
        (s : DemandStream)
        → s.demand_characteristics ≡ characteristics i
        → Continuous.get_value s.demand_characteristics.arrival_pattern (of_int (pos 0))
          ≡ ok (first_value v c es)
    first_known s same =
        ap (λ a. Continuous.get_value a (of_int (pos 0))) (arrivals_of s same)
        ∙ get_value-inverse laws ((v, c) ∷ es) (of_int (pos 0))

    -- What the first call of the Poisson process starts from.
    pub first_way :
        (s : DemandStream)
        → s.demand_characteristics ≡ characteristics i
        → IsUnderWay v c es (record s {
          date_time_last_request = first_value v c es;
          first_date_time_request = false;
        })
    first_way s same = record {
      pattern = arrivals_of s same;
      ascending = arrives.ascending;
      stops = arrives.stops;
      started = refl;
      after_first = arrives.after_first;
      before_bound = arrives.before_bound;
    }

    -- Let the doubles be ordered and adding a positive mass never lower a sum, and let the stream
    -- be made of usable maps, whose arrival pattern ascends, has an entry at the bound where the
    -- generation stops, and has its value at probability 0 between its first key and that bound.
    -- Then the first call generates a request by the Poisson process, on any fuel above the number
    -- of keys after the first one that lie above that value.
    pub first_request_total :
        (fuel : ℕ) (s : DemandStream) (generator : Generator)
        → s.demand_characteristics ≡ characteristics i
        → s.first_date_time_request ≡ true
        → count_above (first_value v c es) es < fuel
        → (r : BookingRequest × DemandStream × Generator) × (generate_next_request fuel s generator
              poi_pro
            ≡ ok r)
    unfolding generate_time
    first_request_total fuel s generator same first enough =
        let (r, e) =
          poisson_process_first_total laws v c es fuel (next s) (first_value v c es) first
            (first_known s same) (first_way (next s) same) enough in
        generate_next_request-timed fuel poi_pro s generator
          (subst IsComplete (sym same) (IsUsable-IsComplete laws grows i usable)) e
