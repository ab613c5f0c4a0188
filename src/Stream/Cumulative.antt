-- ===== src/Stream/Cumulative.antt =====
-- The cumulative probability of the statistics order: `generateTimeOfRequestStatisticsOrder`
-- (trademgen/bom/DemandStream.cpp).
use trademgen.Prelude.{◌≡◌, inl, inr, arith, Bool-cases, ok}
use trademgen.Prelude.Int.{ℤ, pos}
use trademgen.Platform.{Platform, IsOrdered}
use trademgen.Platform.Order.{◌≼◌, nought, unit, ≼_trans}
use trademgen.Demand.{increment_generated_requests_counter}
use trademgen.Stream.{DemandStream, remaining, increment_counter}
use trademgen.Stream.Timing.{order_factor, next_cumulative, statistics_order}

module _ ⦃p : Platform⦄ where
  open p use {Real, DateTime, decimal, of_int, lt, le, sub, mul, pow, div, uniform}

  -- Between 0 and 1.
  abbrev pub IsProbability : Real → Type 0
  IsProbability a = (nought ≼ a) × (a ≼ unit)

  -- What the formula needs of the arithmetic of `double`, whose operations are monotone after
  -- rounding and exact at these values.
  pub record IsMonotone : Type 0 where
    pub sub-anti : (a b c : Real) → a ≼ b → sub c b ≼ sub c a
    pub unit-sub_unit : nought ≼ sub unit unit
    pub unit-sub_nought : sub unit nought ≼ unit
    pub mul-IsProbability :
        (a b : Real) → IsProbability a → IsProbability b → (nought ≼ mul a b) × (mul a b ≼ a)
    pub pow_nonneg : (a b : Real) → nought ≼ a → nought ≼ pow a b
    pub small : IsProbability (decimal (pos 1) 6)
    -- A variate is a probability.
    pub variate : (g : p.Generator) → IsProbability (uniform g).0

  abbrev so_far : DemandStream → Real
  so_far s = s.random_generation_context.cumulative_probability_so_far

  module _ (laws : IsOrdered) (monotone : IsMonotone) where
    open laws use {lt_irrefl, lt_trans, lt_cotrans, le-eq-not-lt}
    open monotone use {
      sub-anti, unit-sub_unit, unit-sub_nought, mul-IsProbability, pow_nonneg, small, variate,
    }

    complement-IsProbability : (a : Real) → IsProbability a → IsProbability (sub unit a)
    complement-IsProbability a (low, high) = (
      ≼_trans laws _ _ _ unit-sub_unit (sub-anti a unit unit high),
      ≼_trans laws _ _ _ (sub-anti nought a unit low) unit-sub_nought,
    )

    order_factor-IsProbability :
        (u : Real) (count : ℤ) → IsProbability u → IsProbability (order_factor u count)
    unfolding order_factor
    order_factor-IsProbability u count v =
        let most : Real = sub unit (decimal (pos 1) 6) in
        let factor : Real = pow (sub unit u) (div unit (of_int count)) in
        let whole : IsProbability most = complement-IsProbability _ small in
        let least : nought ≼ factor = pow_nonneg _ _ (complement-IsProbability u v).0 in
        elim (Bool-cases (le most factor)) [
          | inl over ↦ rw over whole
          | inr under ↦
              let below : factor ≼ most = ground (
                arith,
                le-eq-not-lt most factor,
                le-eq-not-lt factor most,
                lt_trans factor most factor,
                lt_irrefl factor,
              ) in
              rw under (least, ≼_trans laws _ _ _ below whole.1)
        ]

    statistics_order-next_cumulative :
        (s : DemandStream) {time : DateTime} {t : DemandStream}
        → statistics_order s ≡ ok (time, t)
        → so_far t ≡ next_cumulative s
    unfolding statistics_order increment_counter increment_generated_requests_counter
    statistics_order-next_cumulative s h = ground arith

    next_cumulative_bounds :
        (s : DemandStream)
        → IsProbability (so_far s)
        → IsProbability (next_cumulative s) × (sub unit (sub unit (so_far s)) ≼ next_cumulative s)
    unfolding next_cumulative
    next_cumulative_bounds s v =
        let drawn : Real = (uniform s.request_date_time_random_generator).0 in
        let factor : Real = order_factor drawn (remaining s) in
        let complement : Real = sub unit (so_far s) in
        let whole = complement-IsProbability (so_far s) v in
        let part =
          mul-IsProbability complement factor whole
            (order_factor-IsProbability drawn (remaining s) (variate _)) in
        let product : IsProbability (mul complement factor) =
          (part.0, ≼_trans laws _ _ _ part.1 whole.1) in
        (complement-IsProbability _ product, sub-anti _ _ unit part.1)

    -- Let the doubles be ordered, their operations monotone, and each variate lie between 0 and 1.
    -- From a cumulative probability x between 0 and 1 a call of the statistics order that succeeds
    -- stores one between 0 and 1 again, and it is at least 1 - (1 - x): it does not fall, up to
    -- the rounding of its complement.
    pub statistics_order_cumulative :
        (s : DemandStream) {time : DateTime} {t : DemandStream}
        → IsProbability (so_far s)
        → statistics_order s ≡ ok (time, t)
        → IsProbability (so_far t) × (sub unit (sub unit (so_far s)) ≼ so_far t)
    statistics_order_cumulative s v h =
        rw (statistics_order-next_cumulative s h) (next_cumulative_bounds s v)
