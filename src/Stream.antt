-- ===== src/Stream.antt =====
-- DemandStream (trademgen/bom/DemandStream.hpp and .cpp): its state, its set-up, the question
-- whether it still has requests, and its reset. `Timing` draws the time of a request, `Choice` its
-- other attributes, `Request` the whole of it.
pub mod Timing
pub mod Choice
pub mod Request
pub mod Frame
pub mod Draws
pub mod Counting
pub mod Poisson
pub mod Outcome
pub mod Cumulative
pub mod Fuel
pub mod Total
pub mod Usable
pub mod Arriving
pub mod Duration
pub mod Order
use Prim.Native.String.{String}
use trademgen.Prelude.{Bool, true, not}
use trademgen.Prelude.Int.{ℤ, pos, ◌-ℤ◌, le_ℤ}
use trademgen.Platform.{Platform}
use trademgen.Attribute.Categorical.{CategoricalAttributeLite}
use trademgen.Demand.{
  CharacteristicsInput, DemandCharacteristics, characteristics, DemandDistribution,
  RandomGenerationContext, increment_generated_requests_counter, reset_context, DemandStreamKey,
}

-- `stdair::DemandGenerationMethod::EN_DemandGenerationMethod`: the two values that the code names,
-- and any other.
pub data DemandGenerationMethod : Type 0 where
  sta_ord : DemandGenerationMethod
  poi_pro : DemandGenerationMethod
  other_method : DemandGenerationMethod

module _ ⦃p : Platform⦄ where
  open p use {Real, Generator, seeded, normal, floor, add, decimal}

  -- Every value that is stored as the total number of requests has been through `floor`, so the
  -- total is an integer, and it is negative where the normal variate was.
  pub record DemandStream : Type 0 where
    pub key : DemandStreamKey
    pub demand_characteristics : DemandCharacteristics
    pub demand_distribution : DemandDistribution
    pub total_number_of_requests_to_be_generated : ℤ
    pub random_generation_context : RandomGenerationContext
    pub request_date_time_random_generator : Generator
    pub demand_characteristics_random_generator : Generator
    pub pos_pro_mass : CategoricalAttributeLite String
    pub still_having_requests_to_be_generated : Bool
    pub first_date_time_request : Bool
    pub date_time_last_request : Real

  -- `init` on the shared generator.
  unfoldable pub init : DemandStream → Generator → DemandStream × Generator
  init s shared =
      let d = s.demand_distribution in
      let (number, shared') =
        normal d.mean_number_of_requests d.std_dev_number_of_requests shared in
      (
        record s {
          total_number_of_requests_to_be_generated = floor (add number (decimal (pos 5) 1));
          still_having_requests_to_be_generated = true;
          first_date_time_request = true;
        },
        shared',
      )

  unfoldable pub set_all :
      DemandStream
      → CharacteristicsInput
      → DemandDistribution
      → Generator
      → (request_date_time_seed demand_characteristics_seed : ℤ) → CategoricalAttributeLite String
      → DemandStream × Generator
  unfolding init
  set_all s input distribution shared request_date_time_seed demand_characteristics_seed
        default_pos =
      init
        (record s {
          demand_characteristics = characteristics input;
          demand_distribution = distribution;
          total_number_of_requests_to_be_generated = pos 0;
          request_date_time_random_generator = seeded request_date_time_seed;
          demand_characteristics_random_generator = seeded demand_characteristics_seed;
          pos_pro_mass = default_pos;
        })
        shared

  -- The number of requests not generated yet.
  abbrev pub remaining : DemandStream → ℤ
  remaining s =
      s.total_number_of_requests_to_be_generated
      -ℤ pos s.random_generation_context.number_of_requests_generated_so_far

  unfoldable pub still_having : DemandStream → DemandGenerationMethod → Bool
  still_having s sta_ord = not (le_ℤ (remaining s) (pos 0))
  still_having s _ = s.still_having_requests_to_be_generated

  unfoldable pub increment_counter : DemandStream → DemandStream
  increment_counter s = record s {
    random_generation_context = increment_generated_requests_counter s.random_generation_context;
  }

  unfoldable pub set_bool_first_date_time_request : DemandStream → Bool → DemandStream
  set_bool_first_date_time_request s b = record s { first_date_time_request = b }

  -- `reset` on the shared generator.
  unfoldable pub reset : DemandStream → Generator → DemandStream × Generator
  unfolding init
  reset s shared =
      init (record s { random_generation_context = reset_context s.random_generation_context })
        shared
