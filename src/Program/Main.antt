-- ===== src/Program/Main.antt =====
-- `main` of trademgen/batches/trademgen_generateDemand.cpp and of trademgen/ui/cmdline/trademgen.cpp:
-- the options are read, the service is made and filled, and the demand is generated or the commands
-- are executed. The log and output files are left out.
use Prim.Native.String.{String}
use trademgen.Prelude.{
  ℕ, Bool, Option, none, some, List, ◌==◌, if◌then◌else◌, assertion_failed, Result, ok, ◌>>=◌,
  or_fault,
}
use trademgen.Prelude.Int.{ℤ}
use trademgen.Platform.{Platform}
use trademgen.DemandStruct.{DemandStruct}
use trademgen.Events.{EventService}
use trademgen.Parser.Line.{DemandFile}
use trademgen.Service.{Context}
use trademgen.Service.Building.{Stdair, ServiceContext, construct, parse_and_load, build_sample_bom}
use trademgen.Batch.{generate_demand}
use trademgen.Session.{Terminal, Line, interact}
use trademgen.Program.{Surroundings, Given, Configuration, early_return_status}
use trademgen.Program.Options.{read_batch_configuration, read_session_configuration}

module _ ⦃p : Platform⦄ where
  -- What the file system holds under a name, as the parser reads it.
  pub record Files : Type 0 where
    pub exists_and_is_readable : String → Bool
    pub can_be_opened : String → Bool
    pub demands : String → DemandFile

  module _ (w : EventService) (stdair : Stdair w) (text_lt : String → String → Bool) (files : Files)
      (staged : DemandStruct) where
    -- The sample, or the demands of the input file.
    unfoldable pub fill_service :
        Bool → String → Option (ServiceContext w) → Result (Option (ServiceContext w))
    unfolding build_sample_bom parse_and_load
    fill_service is_builtin filename s =
        if is_builtin
        then build_sample_bom w stdair text_lt s
        else (parse_and_load w stdair text_lt (files.exists_and_is_readable filename)
            (files.can_be_opened filename) (files.demands filename) staged s)

    -- A new service, filled as the options say. The methods of a service without context fail an
    -- assertion.
    unfoldable pub start_service : Configuration → Result (ServiceContext w)
    unfolding construct fill_service
    start_service k = do
      s ← fill_service k.is_builtin k.input_filename (construct w stdair k.random_seed)
      or_fault assertion_failed s

    -- What is printed, and what the generation gives where it is begun.
    abbrev pub Generated : Type 0
    Generated = String × Option (ℤ × List ℤ × Context w)

    unfoldable pub main_batch :
        Surroundings → (rounds fuel : ℕ) → Given → Configuration → Result Generated
    unfolding read_batch_configuration start_service generate_demand
    main_batch x rounds fuel g c = do
      (status, r) ← read_batch_configuration x g c
      if status == early_return_status then ok (r.printed, none) else do
        let k = r.configuration
        s ← start_service k
        generated ← generate_demand w k.random_runs rounds fuel k.demand_generation_method s.context
        ok (r.printed, some generated)

    -- The key that the help of the interactive program names.
    unfoldable pub default_demand_stream_key : Bool → String
    default_demand_stream_key is_builtin =
        if is_builtin then "SIN-BKK 2010-Feb-08 Y" else "SIN-BKK 2009-Feb-09 Y"

    unfoldable pub main_session :
        Surroundings
        → Terminal
        → (rounds fuel : ℕ) → List Line
        → Given
        → Configuration
        → Result (String × Option (Context w))
    unfolding read_session_configuration start_service default_demand_stream_key
    main_session x terminal rounds fuel lines g c = do
      (status, r) ← read_session_configuration x g c
      if status == early_return_status then ok (r.printed, none) else do
        let k = r.configuration
        s ← start_service k
        (printed, left) ←
            interact w terminal k.demand_generation_method fuel rounds
              (default_demand_stream_key k.is_builtin) lines r.printed s.context
        ok (printed, some left)
