-- ===== src/Service/Building.antt =====
-- The construction of the service and the two ways to fill it: `parseAndLoad` and `buildSampleBom`
-- (trademgen/service/TRADEMGEN_Service.cpp). StdAir's own sample and the copy of its persistent tree
-- are another library's.
use Prim.Native.String.{String}
use trademgen.Prelude.{
  not_initialised, Bool, true, false, Option, none, some, if◌then◌else◌, Result, ok, err, ◌>>=◌,
}
use trademgen.Prelude.Int.{ℤ}
use trademgen.Platform.{Platform}
use trademgen.Attribute.Categorical
use trademgen.Attribute.Categorical.{CategoricalAttributeLite}
use trademgen.Demand.{create_pos_prob_mass}
use trademgen.DemandStruct.{DemandStruct}
use trademgen.Events.{EventService}
use trademgen.Manager.Sample
use trademgen.Parser.Line.{DemandFile, parse_demand_file}
use trademgen.Service.{Context}

module _ ⦃p : Platform⦄ (w : EventService) where
  open p use {seeded}
  open w use {World}

  -- A new event service on a new StdAir service, `buildSampleBom` of StdAir and its
  -- `clonePersistentBom`.
  pub record Stdair : Type 0 where
    pub new_services : World
    pub build_sample : World → World
    pub clone_persistent : World → World

  -- `TRADEMGEN_ServiceContext` with the flag of the owner and the default points of sale.
  pub record ServiceContext : Type 0 where
    pub context : Context w
    pub own_stdair_service : Bool
    pub pos_probability_mass : CategoricalAttributeLite String

  abbrev initial_context : World → Bool → ℤ → ServiceContext
  initial_context x own seed = record {
    context = record { world = x; uniform_generator = seeded seed };
    own_stdair_service = own;
    pos_probability_mass = Categorical.init create_pos_prob_mass;
  }

  -- The constructors with parameters of the log: the service owns its StdAir service.
  unfoldable pub construct : Stdair → ℤ → Option ServiceContext
  construct stdair seed = some (initial_context stdair.new_services true seed)

  -- The constructor on the services of another component.
  unfoldable pub construct_on : World → ℤ → Option ServiceContext
  construct_on x seed = some (initial_context x false seed)

  module _ (stdair : Stdair) where
    -- The pointer to the context may be null.
    unfoldable pub clone_persistent_bom : Option ServiceContext → Result (Option ServiceContext)
    clone_persistent_bom none = err not_initialised
    clone_persistent_bom (some s) =
        let c = s.context in
        ok (
          some (
            if s.own_stdair_service
            then record s { context = record c { world = stdair.clone_persistent c.world } }
            else s))

    -- The last step of both: the copy, where the StdAir service is owned.
    unfoldable pub clone_if_owned : ServiceContext → Result (Option ServiceContext)
    unfolding clone_persistent_bom
    clone_if_owned s = if s.own_stdair_service then clone_persistent_bom (some s) else ok (some s)

    module _ (text_lt : String → String → Bool) where
      -- The staging structure of the parser is a new one.
      unfoldable pub parse_and_load :
          (exists_and_is_readable can_be_opened : Bool)
          → DemandFile
          → DemandStruct
          → Option ServiceContext
          → Result (Option ServiceContext)
      unfolding parse_demand_file clone_if_owned
      parse_and_load exists_and_is_readable can_be_opened f staged none = err not_initialised
      parse_and_load exists_and_is_readable can_be_opened f staged (some s) = do
        let c = s.context
        (d, loaded) ←
            parse_demand_file text_lt w s.pos_probability_mass exists_and_is_readable can_be_opened
              f (staged, (c.world, c.uniform_generator))
        clone_if_owned
            (record s { context = record { world = loaded.0; uniform_generator = loaded.1 } })

      unfoldable pub build_sample_bom : Option ServiceContext → Result (Option ServiceContext)
      unfolding Sample.build_sample_bom clone_if_owned
      build_sample_bom none = err not_initialised
      build_sample_bom (some s) = do
        let c = s.context
        let built = if s.own_stdair_service then stdair.build_sample c.world else c.world
        (x, shared) ←
            Sample.build_sample_bom text_lt w s.pos_probability_mass (built, c.uniform_generator)
        clone_if_owned (record s { context = record { world = x; uniform_generator = shared } })
