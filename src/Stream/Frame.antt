-- ===== src/Stream/Frame.antt =====
-- What drawing the time of a request leaves alone (trademgen/bom/DemandStream.cpp).
use trademgen.Prelude.{
  ℕ, zero, suc, ◌≡◌, inl, inr, Option, none, some, arith, Result, ok, Result-cases,
}
use trademgen.Platform.{Platform}
use trademgen.Stream.{DemandStream, DemandGenerationMethod, sta_ord, poi_pro, other_method}
use trademgen.Stream.Timing.{start, draw, poisson_round, poisson_process, statistics_order}
use trademgen.Stream.Request.{generate_time}

module _ ⦃p : Platform⦄ where
  open p use {DateTime, eq}

  -- The set-up of the stream and the generator of the demand characteristics are the same.
  pub record SameSetup (s t : DemandStream) : Type 0 where
    pub key : t.key ≡ s.key
    pub characteristics : t.demand_characteristics ≡ s.demand_characteristics
    pub distribution : t.demand_distribution ≡ s.demand_distribution
    pub total :
        t.total_number_of_requests_to_be_generated ≡ s.total_number_of_requests_to_be_generated
    pub generator :
        t.demand_characteristics_random_generator ≡ s.demand_characteristics_random_generator
    pub pos_pro_mass : t.pos_pro_mass ≡ s.pos_pro_mass

  pub statistics_order-SameSetup :
      (s : DemandStream) {time : DateTime} {t : DemandStream}
      → statistics_order s ≡ ok (time, t)
      → SameSetup s t
  unfolding statistics_order
  statistics_order-SameSetup s h = ground arith

  start-SameSetup : (s : DemandStream) {t : DemandStream} → start s ≡ ok t → SameSetup s t
  unfolding start
  start-SameSetup s h = ground arith

  draw-SameSetup :
      (s : DemandStream) {o : Option DateTime} {t : DemandStream}
      → draw s ≡ ok (o, t)
      → SameSetup s t
  unfolding draw
  draw-SameSetup s h = ground arith

  SameSetup-trans : {s t u : DemandStream} → SameSetup s t → SameSetup t u → SameSetup s u
  SameSetup-trans h k = ground arith

  pub poisson_round-SameSetup :
      (s : DemandStream) {o : Option DateTime} {t : DemandStream}
      → poisson_round s ≡ ok (o, t)
      → SameSetup s t
  unfolding poisson_round
  poisson_round-SameSetup s h = ground arith

  poisson_process-SameSetup :
      (fuel : ℕ) (s : DemandStream) {time : DateTime} {t : DemandStream}
      → poisson_process fuel s ≡ ok (time, t)
      → SameSetup s t
  unfolding poisson_process
  poisson_process-SameSetup zero s h = cc
  poisson_process-SameSetup (suc fuel) s {time} {t} h = elim (Result-cases (poisson_round s)) [
    | inl (f, e) ↦ cc (rw (e, poisson_process) at h)
    | inr ((none, u), e) ↦
        SameSetup-trans (poisson_round-SameSetup s e) (poisson_process-SameSetup fuel u (rw e at h))
    | inr ((some d, u), e) ↦
        let same : SameSetup s u = poisson_round-SameSetup s e in
        let answer : Path (Result (DateTime × DemandStream)) (ok (d, u)) (ok (time, t)) =
          rw (e, poisson_process) at h in
        ground arith
  ]

  pub generate_time-SameSetup :
      (fuel : ℕ) (method : DemandGenerationMethod) (s : DemandStream) {time : DateTime}
      {t : DemandStream}
      → generate_time fuel method s ≡ ok (time, t)
      → SameSetup s t
  unfolding generate_time
  generate_time-SameSetup fuel sta_ord s h = statistics_order-SameSetup s h
  generate_time-SameSetup fuel poi_pro s h = poisson_process-SameSetup fuel s h
  generate_time-SameSetup fuel other_method s h = cc
