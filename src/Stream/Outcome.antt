-- ===== src/Stream/Outcome.antt =====
-- What one call of `generateTimeOfRequestPoissonProcess` does to the stream
-- (trademgen/bom/DemandStream.cpp).
use trademgen.Prelude.{
  ℕ, zero, suc, ◌≡◌, ◌∙◌, ◌⊎◌, inl, inr, true, false, none, some, arith, Result, ok, Result-cases,
}
use trademgen.Platform.{Platform}
use trademgen.Demand.{
  default_last_lower_bound_arrival_pattern, increment_generated_requests_counter,
}
use trademgen.Attribute.Continuous.{real_scalar}
use trademgen.Stream.{DemandStream, poi_pro, still_having, increment_counter}
use trademgen.Stream.Timing.{
  convert_float_into_duration, departure_date_time, poisson_round, poisson_process,
}

module _ ⦃p : Platform⦄ where
  open p use {Real, DateTime, lt, eq, later, neg}

  abbrev counter : DemandStream → ℕ
  counter s = s.random_generation_context.number_of_requests_generated_so_far

  -- The end of the generation: the flag is down, no request is counted, and the date-time lies one
  -- day after the departure.
  pub record IsEnded (s t : DemandStream) (time : DateTime) : Type 0 where
    pub flag : still_having t poi_pro ≡ false
    pub at_bound : eq t.date_time_last_request default_last_lower_bound_arrival_pattern ≡ true
    pub not_counted : counter t ≡ counter s
    pub after_departure :
        time
        ≡ later
            (departure_date_time s)
            (convert_float_into_duration (neg default_last_lower_bound_arrival_pattern))

  -- A request: counted, the flag as before, and its date-time is that of the last request, which
  -- the stream remembers.
  pub record IsGenerated (s t : DemandStream) (time : DateTime) : Type 0 where
    pub flag : still_having t poi_pro ≡ still_having s poi_pro
    pub counted : counter t ≡ suc (counter s)
    pub on_time :
        time ≡ later (departure_date_time s) (convert_float_into_duration t.date_time_last_request)

  record IsMoved (s t : DemandStream) : Type 0 where
    pub flag : still_having t poi_pro ≡ still_having s poi_pro
    pub not_counted : counter t ≡ counter s
    pub key : t.key ≡ s.key

  round_outcome-none :
      (s : DemandStream) {t : DemandStream} → poisson_round s ≡ ok (none, t) → IsMoved s t
  unfolding poisson_round still_having increment_counter increment_generated_requests_counter
  round_outcome-none s h = ground arith

  round_outcome-some :
      (s : DemandStream) {time : DateTime} {t : DemandStream}
      → poisson_round s ≡ ok (some time, t)
      → IsEnded s t time ⊎ IsGenerated s t time
  unfolding poisson_round still_having increment_counter increment_generated_requests_counter
  round_outcome-some s h = ground arith

  -- A call of the Poisson process that answers either ends the generation, with the flag lowered,
  -- no request counted and a date-time one day after the departure, or it generates a request,
  -- with the flag as before, one request counted and the date-time of the last request that the
  -- stream remembers, however many daily rate intervals it passed over.
  pub poisson_process_outcome :
      (fuel : ℕ) (s : DemandStream) {time : DateTime} {t : DemandStream}
      → poisson_process fuel s ≡ ok (time, t)
      → IsEnded s t time ⊎ IsGenerated s t time
  unfolding poisson_process
  poisson_process_outcome zero s h = cc
  poisson_process_outcome (suc fuel) s {time} {t} h = elim (Result-cases (poisson_round s)) [
    | inl (f, e) ↦ cc (rw (e, poisson_process) at h)
    | inr ((none, u), e) ↦
        over s u (round_outcome-none s e) (poisson_process_outcome fuel u (rw e at h))
    | inr ((some d, u), e) ↦
        let answer : Path (Result (DateTime × DemandStream)) (ok (d, u)) (ok (time, t)) =
          rw (e, poisson_process) at h in
        round_outcome-some s (e ∙ cc)
  ]
    where
      over :
          (s u : DemandStream)
          → IsMoved s u
          → IsEnded u t time ⊎ IsGenerated u t time
          → IsEnded s t time ⊎ IsGenerated s t time
      over s u m (inl e) = inl (ground arith)
      over s u m (inr g) = inr (ground arith)
