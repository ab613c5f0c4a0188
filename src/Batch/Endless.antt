-- ===== src/Batch/Endless.antt =====
-- The loop over the runs of trademgen/batches/trademgen_generateDemand.cpp at the last number of its
-- unsigned index.
use Prim.Native.Nat.{◌%◌, ◌^◌}
use trademgen.Prelude.{
  ℕ, zero, suc, ◌+◌, ◌-◌, ◌<◌, ◌≡◌, ◌≢◌, inl, inr, true, List, arith, leb, ok, Result-cases,
}
use trademgen.Prelude.Int.{ℤ}
use trademgen.Platform.{Platform}
use trademgen.Stream.{DemandGenerationMethod}
use trademgen.Events.{EventService}
use trademgen.Service.{Context}
use trademgen.Batch.{run, runs, generate_demand}

module _ ⦃p : Platform⦄ (w : EventService) where
  -- Every index is at most the number of runs.
  runs_endless :
      (turns rounds fuel : ℕ) (method : DemandGenerationMethod) (idx : ℕ) (c : Context w)
      (r : List ℤ × Context w)
      → idx < 2 ^ 32
      → runs w turns rounds fuel method idx (2 ^ 32 - 1) c ≢ ok r
  unfolding runs
  runs_endless zero rounds fuel method idx c r h q =
      let more : leb idx (2 ^ 32 - 1) ≡ true = ground arith in let cut = rw (runs, more) at q in cc
  runs_endless (suc turns) rounds fuel method idx c r h q =
      let more : leb idx (2 ^ 32 - 1) ≡ true = ground arith in
      elim (Result-cases (run w rounds fuel method c)) [
        | inl (f, fails) ↦ (let q' = rw (runs, more, fails) at q in cc)
        | inr (o, passes) ↦
            elim (Result-cases
              (runs w turns rounds fuel method ((idx + 1) % 2 ^ 32) (2 ^ 32 - 1) (o.2))) [
                | inl (f, fails) ↦ (let q' = rw (runs, more, passes, fails) at q in cc)
                | inr (o', ends) ↦
                    runs_endless turns rounds fuel method ((idx + 1) % 2 ^ 32) (o.2) o'
                      (omega arith) ends
              ]
      ]

  -- Asked for 2 ^ 32 - 1 runs, the batch never completes, by whatever method, and however many
  -- rounds and turns its loops are given: it is cut short, or ends in a fault of the code.
  pub generate_demand_endless :
      (rounds fuel : ℕ) (method : DemandGenerationMethod) (c : Context w)
      (r : ℤ × List ℤ × Context w)
      → generate_demand w (2 ^ 32 - 1) rounds fuel method c ≢ ok r
  unfolding generate_demand
  generate_demand_endless rounds fuel method c r q =
      elim (Result-cases (runs w rounds rounds fuel method 1 (2 ^ 32 - 1) c)) [
        | inl (f, fails) ↦ (let q' = rw fails at q in cc)
        | inr (o, ends) ↦ runs_endless rounds rounds fuel method 1 c o (omega arith) ends
      ]
