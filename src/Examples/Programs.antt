-- ===== src/Examples/Programs.antt =====
-- The theorems on the programs, with options that ask for the statistics order and two runs.
use Prim.Native.Char.{code}
use Prim.Native.Nat.{◌^◌}
use Prim.Native.String.{String}
use trademgen.Prelude.{
  arith, ℕ, ◌≤◌, ◌≡◌, refl, ◌≢◌, ◌⊎◌, true, false, none, some, List, [], ◌∷◌, ◌-◌, ◌==◌,
  if◌then◌else◌, Fault, out_of_range, out_of_fuel, Result, ok, err, ◌>>=◌,
}
use trademgen.Prelude.Int.{ℤ, pos}
use trademgen.Stream.{DemandGenerationMethod, sta_ord, poi_pro, other_method}
use trademgen.Attribute.Categorical
use trademgen.Demand.{create_pos_prob_mass}
use trademgen.Service.{Context}
use trademgen.Service.Building.{ServiceContext, construct}
use trademgen.Service.Filling.{parse_and_load-Loads}
use trademgen.Parser.Loading.{tidy}
use trademgen.Batch.{generate_demand}
use trademgen.Batch.Endless.{generate_demand_endless}
use trademgen.Program.{
  Surroundings, Given, Configuration, Progress, or_default, early_return_status,
}
use trademgen.Program.Options.{read_batch_configuration}
use trademgen.Program.Reading.{is_early, letter, chosen, IsRead, read_batch_configuration_outcome}
use trademgen.Program.Main.{Files, start_service, main_batch}
use trademgen.Program.Ending.{start_service-parsed, main_batch_end}
use trademgen.Examples.Setting.{plain}
use trademgen.Examples.Services.{table, table-IsMemory, world}
use trademgen.Examples.Queues.{table-KeepsStreams, table-IsQueue}
use trademgen.Examples.Parsing.{text_lt, demand}
use trademgen.Examples.Files.{file, line-IsDistinct, unfinished_total, stdair}

-- The only letter known is that of the statistics order.
abbrev surroundings : Surroundings
surroundings = record {
  default_random_seed = pos 120_765_987;
  sample_dir = "/usr/share/stdair/samples";
  method_as_char = λ m. elim m [ sta_ord ↦ "S" | poi_pro ↦ "P" | other_method ↦ "L" ];
  method_of = λ letter. if code letter == 83 then ok sta_ord else err out_of_range;
  describe_method = λ m. "S";
  visible_options = "Allowed options:";
  package_name = "trademgen";
  package_version = "1.0";
  prefix_dir = "/usr";
  integer_text = λ n. "120765987";
  natural_text = λ n. "2";
}

abbrev given : Given
given = record {
  help = false;
  version = false;
  prefix = false;
  builtin = false;
  seed = none;
  draws = some 2;
  demand_generation = some "S";
  input = some "demand.csv";
  output = none;
  log = none;
}

abbrev before : Configuration
before = record {
  is_builtin = true;
  random_seed = pos 0;
  random_runs = 0;
  input_filename = "";
  output_filename = "";
  log_filename = "";
  demand_generation_method = poi_pro;
}

abbrev files : Files ⦃p = plain⦄
files = record {
  exists_and_is_readable = λ name. true;
  can_be_opened = λ name. true;
  demands = λ name. file;
}

abbrev new_service : ServiceContext ⦃p = plain⦄ table
new_service = record {
  context = record { world = world; uniform_generator = plain.seeded (pos 120_765_987) };
  own_stdair_service = true;
  pos_probability_mass = Categorical.init ⦃p = plain⦄ (create_pos_prob_mass ⦃p = plain⦄);
}

filled :
    (s : ServiceContext ⦃p = plain⦄ table) × (start_service ⦃p = plain⦄ table stdair text_lt files
        (tidy ⦃p = plain⦄ text_lt demand)
        (chosen surroundings given sta_ord)
      ≡ ok s)
unfolding construct or_default
filled =
    let (t, x, loads, _, _, _) =
      parse_and_load-Loads ⦃p = plain⦄ table stdair text_lt file (tidy ⦃p = plain⦄ text_lt demand)
        new_service ((_, _, refl, refl), ((_, _, refl, refl), tt))
        (line-IsDistinct, (line-IsDistinct, tt)) refl unfinished_total in
    (
      t,
      start_service-parsed ⦃p = plain⦄ table stdair text_lt files (tidy ⦃p = plain⦄ text_lt demand)
          (chosen surroundings given sta_ord) t refl loads,
    )

main_batch_end_example :
    (bound : ℕ) × (text : String) × (r : Result (ℤ × List ℤ × Context ⦃p = plain⦄ table)) × (r
      ≢ err out_of_fuel)
    × ((rounds : ℕ)
        → bound ≤ rounds
        → (generate_demand ⦃p = plain⦄ table 2 rounds 0 sta_ord filled.0.context ≡ r)
          × (main_batch ⦃p = plain⦄ table stdair text_lt files
                (tidy ⦃p = plain⦄ text_lt demand)
                surroundings
                rounds
                0
                given
                before
              ≡ (r >>= λ o. ok (text, some o))))
unfolding or_default
main_batch_end_example =
    main_batch_end ⦃p = plain⦄ table stdair text_lt files (tidy ⦃p = plain⦄ text_lt demand)
      surroundings table-IsMemory table-KeepsStreams table-IsQueue 0 given before filled.0 refl refl
      filled.1 (omega arith)

generate_demand_endless_example :
    generate_demand ⦃p = plain⦄ table (2 ^ 32 - 1) 3 0 sta_ord filled.0.context
    ≢ ok (pos 2, pos 2 ∷ [], filled.0.context)
generate_demand_endless_example =
    generate_demand_endless ⦃p = plain⦄ table 3 0 sta_ord filled.0.context
      (pos 2, pos 2 ∷ [], filled.0.context)

read_batch_configuration_outcome_example :
    ((is_early surroundings given ≡ true)
      × ((r : Progress) × (read_batch_configuration surroundings given before
            ≡ ok (early_return_status, r))
          × (r.errors ≡ "")))
    ⊎ (((method : DemandGenerationMethod) × (r : Progress) × (is_early surroundings given ≡ false)
          × (surroundings.method_of (letter surroundings given) ≡ ok method)
          × (read_batch_configuration surroundings given before ≡ ok (0, r))
          × IsRead surroundings given method r)
        ⊎ ((f : Fault) × (is_early surroundings given ≡ false)
            × (surroundings.method_of (letter surroundings given) ≡ err f)
            × (read_batch_configuration surroundings given before ≡ err f)))
read_batch_configuration_outcome_example =
    read_batch_configuration_outcome surroundings given before
