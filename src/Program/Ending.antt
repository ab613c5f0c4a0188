-- ===== src/Program/Ending.antt =====
-- The whole of trademgen/batches/trademgen_generateDemand.cpp under the statistics order, from the
-- options to the last run.
use Prim.Native.String.{String}
use Prim.Native.Nat.{◌^◌}
use trademgen.Prelude.{
  ◌<◌, ◌-◌, ℕ, ◌≤◌, ◌≡◌, refl, ap, ◌∙◌, ◌≢◌, inl, inr, Bool, true, false, none, some, List, arith,
  out_of_fuel, Result, ok, err, ◌>>=◌,
}
use trademgen.Platform.{Platform}
use trademgen.DemandStruct.{DemandStruct}
use trademgen.Prelude.Int.{ℤ}
use trademgen.Stream.{DemandGenerationMethod, sta_ord}
use trademgen.Events.{EventService, IsMemory, IsQueue, KeepsStreams}
use trademgen.Service.{Context}
use trademgen.Service.Building.{Stdair, ServiceContext, construct, parse_and_load}
use trademgen.Batch.{generate_demand}
use trademgen.Batch.Runs.{generate_demand_end}
use trademgen.Program.{Surroundings, Given, Configuration, or_default}
use trademgen.Program.Reading.{is_early, letter, chosen, read_batch_configuration_outcome}
use trademgen.Program.Main.{Files, fill_service, start_service, main_batch}

module _ ⦃p : Platform⦄ (w : EventService) (stdair : Stdair w) (text_lt : String → String → Bool)
    (files : Files) (staged : DemandStruct) where
  -- A service that is filled from the input file.
  pub start_service-parsed :
      (k : Configuration) (s : ServiceContext w)
      → k.is_builtin ≡ false
      → parse_and_load w stdair text_lt
          (files.exists_and_is_readable k.input_filename)
          (files.can_be_opened k.input_filename)
          (files.demands k.input_filename)
          staged
          (construct w stdair k.random_seed)
        ≡ ok (some s)
      → start_service w stdair text_lt files staged k ≡ ok s
  unfolding start_service fill_service
  start_service-parsed k s from_file loads = rw (from_file, loads) refl

  module _ (x : Surroundings) where
    -- Where a help, version or prefix option is given, `main` only prints.
    main_batch-early :
        (rounds fuel : ℕ) (g : Given) (c : Configuration)
        → is_early x g ≡ true
        → (text : String) × (main_batch w stdair text_lt files staged x rounds fuel g c
            ≡ ok (text, none))
    unfolding main_batch
    main_batch-early rounds fuel g c early = elim (read_batch_configuration_outcome x g c) [
      | inl (_, (r, reads, _)) ↦ (r.printed, rw reads refl)
      | inr (inl (method, r, full, _, _, _)) ↦ absurd (ground arith)
      | inr (inr (f, full, _, _)) ↦ absurd (ground arith)
    ]

    -- Otherwise it fills the service, and generates as many runs as the options ask for.
    main_batch-runs :
        (fuel : ℕ) (g : Given) (c : Configuration) (s : ServiceContext w)
        (method : DemandGenerationMethod)
        → is_early x g ≡ false
        → x.method_of (letter x g) ≡ ok method
        → start_service w stdair text_lt files staged (chosen x g method) ≡ ok s
        → (text : String) × ((rounds : ℕ)
            → main_batch w stdair text_lt files staged x rounds fuel g c ≡ (
                generate_demand w (or_default 1 g.draws) rounds fuel method s.context >>= λ o.
                ok (text, some o)))
    unfolding main_batch
    main_batch-runs fuel g c s method full known filled =
        elim (read_batch_configuration_outcome x g c) [
          | inl (early, _) ↦ absurd (ground arith)
          | inr (inr (f, _, fails, _)) ↦ absurd (ground arith)
          | inr (inl (method', r, _, known', reads, read)) ↦
              let as_known : method' ≡ method = ground arith in
              let same : r.configuration ≡ chosen x g method =
                read.configuration ∙ ap (chosen x g) as_known in
              (
                r.printed,
                λ rounds.
                    rw
                      (
                        reads,
                        ap (start_service w stdair text_lt files staged) same ∙ filled,
                        ap (λ k. k.random_runs) same,
                        ap (λ k. k.demand_generation_method) same,
                      )
                      refl,
              )
        ]

    module _ (memory : IsMemory w) (keeps : KeepsStreams w) (queue : IsQueue w) where
      -- Let the event service be a memory for the streams, leave them where they are and keep a
      -- queue. Let the options ask for the statistics order and not for the help, the version or the
      -- prefix, and for fewer than 2 ^ 32 - 1 runs, and let the service that they describe be
      -- filled. Then from some number of rounds on, the batch gives the same result, with neither
      -- the loop over the runs nor those over the events cut short: a fault of the code, or the generation of as many runs as the options ask for on that service.
      pub main_batch_end :
          (fuel : ℕ) (g : Given) (c : Configuration) (s : ServiceContext w)
          → is_early x g ≡ false
          → x.method_of (letter x g) ≡ ok sta_ord
          → start_service w stdair text_lt files staged (chosen x g sta_ord) ≡ ok s
          → or_default 1 g.draws < 2 ^ 32 - 1
          → (bound : ℕ) × (text : String) × (r : Result (ℤ × List ℤ × Context w)) × (r
              ≢ err out_of_fuel)
            × ((rounds : ℕ)
                → bound ≤ rounds
                → (generate_demand w (or_default 1 g.draws) rounds fuel sta_ord s.context ≡ r)
                  × (main_batch w stdair text_lt files staged x rounds fuel g c
                      ≡ (r >>= λ o. ok (text, some o))))
      main_batch_end fuel g c s full known filled few =
          let (text, runs) = main_batch-runs fuel g c s sta_ord full known filled in
          let (bound, r, k, ends) =
            generate_demand_end w memory keeps queue (or_default 1 g.draws) fuel s.context few in
          (
            bound,
            text,
            r,
            k,
            λ rounds h. (
              ends rounds h,
              runs rounds ∙ ap (λ e. e >>= λ o. ok (text, some o)) (ends rounds h),
            ),
          )
