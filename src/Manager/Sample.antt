-- ===== src/Manager/Sample.antt =====
-- The sample demand: `buildSampleBomStd` and `buildSampleBom` (trademgen/command/DemandManager.cpp).
use Prim.Native.String.{String}
use trademgen.Prelude.{Bool, bad_date, Result, ok, ◌>>=◌, or_fault}
use trademgen.Platform.{Platform}
use trademgen.Attribute.Categorical.{CategoricalAttributeLite}
use trademgen.Demand.{CharacteristicsInput, DemandDistribution, DemandStreamKey}
use trademgen.Stream.{DemandStream}
use trademgen.Events.{EventService, bkg_req}
use trademgen.Manager.Creation.{generate_seed, create_demand_stream}
use trademgen.Manager.SampleData.{
  literal, pos_of, sin_departure_time, bkk_departure_time, std_input, sample_input,
}

module _ ⦃p : Platform⦄ where
  open p use {Generator, Date, add, calendar_date}

  module _ (text_lt : String → String → Bool) where
    module _ (w : EventService) (default_pos : CategoricalAttributeLite String) where
      open w use {World, add_status}

      -- Two seeds, and a stream.
      unfoldable pub create_sample :
          DemandStreamKey
          → DemandDistribution
          → CharacteristicsInput
          → World × Generator
          → DemandStream × World × Generator
      unfolding generate_seed create_demand_stream
      create_sample key distribution input (x, shared) =
          let request_date_time_seed = generate_seed shared in
          let demand_characteristics_seed = generate_seed request_date_time_seed.1 in
          create_demand_stream w x key input distribution demand_characteristics_seed.1
            request_date_time_seed.0 demand_characteristics_seed.0 default_pos

      unfoldable pub build_sample_bom_std : World × Generator → Result (World × Generator)
      unfolding create_sample std_input
      build_sample_bom_std state = do
        departure ← or_fault bad_date (calendar_date 2011 2 14)
        let (stream, x, shared) =
            create_sample
              (record {
                origin = "SIN";
                destination = "BKK";
                preferred_departure_date = departure;
                preferred_cabin = "Y";
              })
              (record {
                mean_number_of_requests = literal 100 1;
                std_dev_number_of_requests = literal 10 1;
              })
              (std_input text_lt) state
        ok (add_status bkg_req stream.demand_distribution.mean_number_of_requests x, shared)

      -- The demand of each stream of the other sample.
      abbrev sixty : DemandDistribution
      sixty = record {
        mean_number_of_requests = literal 600 1;
        std_dev_number_of_requests = literal 40 1;
      }

      abbrev economy : String → String → Date → DemandStreamKey
      economy from to departure = record {
        origin = from;
        destination = to;
        preferred_departure_date = departure;
        preferred_cabin = "Y";
      }

      unfoldable pub build_sample_bom : World × Generator → Result (World × Generator)
      unfolding create_sample sample_input pos_of sin_departure_time bkk_departure_time
      build_sample_bom state = do
        departure ← or_fault bad_date (calendar_date 2010 2 8)
        let (sin_bkk, x1, shared1) =
            create_sample (economy "SIN" "BKK" departure) sixty
              (sample_input text_lt (pos_of text_lt "SIN" "BKK") sin_departure_time
                (literal 4000 1))
              state
        let (bkk_hkg, x2, shared2) =
            create_sample (economy "BKK" "HKG" departure) sixty
              (sample_input text_lt (pos_of text_lt "BKK" "HKG") bkk_departure_time
                (literal 4000 1))
              (x1, shared1)
        let (sin_hkg, x3, shared3) =
            create_sample (economy "SIN" "HKG" departure) sixty
              (sample_input text_lt (pos_of text_lt "SIN" "HKG") sin_departure_time
                (literal 7500 1))
              (x2, shared2)
        ok (
          add_status bkg_req
              (add
                (add sin_bkk.demand_distribution.mean_number_of_requests
                  bkk_hkg.demand_distribution.mean_number_of_requests)
                sin_hkg.demand_distribution.mean_number_of_requests)
              x3,
          shared3,
        )
