-- ===== src/Program/Options.antt =====
-- What Boost.Program_options stores of the options, with the default values, and
-- `readConfiguration` of trademgen/batches/trademgen_generateDemand.cpp and
-- trademgen/ui/cmdline/trademgen.cpp.
use Prim.Native.String.{String, ◌++◌ as str_append}
use trademgen.Prelude.{ℕ, true, false, Option, none, some, if◌then◌else◌, Result, ok, ◌>>=◌}
use trademgen.Stream.{poi_pro}
use trademgen.Program.{
  Surroundings, Given, Variables, Configuration, Progress, or_default, bound_to,
  early_return_status, print, print_value,
}

module _ (x : Surroundings) where
  -- The options of the batch and their default values.
  unfoldable pub batch_variables : Given → Variables
  unfolding or_default
  batch_variables g = record {
    has_help = g.help;
    has_version = g.version;
    has_prefix = g.prefix;
    has_builtin = g.builtin;
    seed = some (or_default x.default_random_seed g.seed);
    draws = some (or_default 1 g.draws);
    demand_generation = some (or_default (x.method_as_char poi_pro) g.demand_generation);
    input = some (or_default (str_append x.sample_dir "/demand01.csv") g.input);
    output = some (or_default "request.csv" g.output);
    log = some (or_default "trademgen_generateDemand.log" g.log);
  }

  -- Those of the interactive program, which has no option for the draws and the output.
  unfoldable pub session_variables : Given → Variables
  unfolding or_default
  session_variables g = record {
    has_help = g.help;
    has_version = g.version;
    has_prefix = g.prefix;
    has_builtin = g.builtin;
    seed = some (or_default x.default_random_seed g.seed);
    draws = none;
    demand_generation = some (or_default (x.method_as_char poi_pro) g.demand_generation);
    input = some (or_default (str_append x.sample_dir "/rds01/demand05.csv") g.input);
    output = none;
    log = some (or_default "trademgen.log" g.log);
  }

  -- `notify`: the variables that are bound to an option.
  unfoldable pub notify : Variables → Configuration → Configuration
  unfolding bound_to
  notify v c = record c {
    random_seed = bound_to v.seed c.random_seed;
    random_runs = bound_to v.draws c.random_runs;
    input_filename = bound_to v.input c.input_filename;
    output_filename = bound_to v.output c.output_filename;
    log_filename = bound_to v.log c.log_filename;
  }

  -- The text of an option that ends the program.
  unfoldable pub early_text : Variables → Option String
  early_text v =
      if v.has_help
      then some (str_append x.visible_options "\n")
      else if v.has_version
      then some
          (str_append x.package_name (str_append ", version " (str_append x.package_version "\n")))
      else if v.has_prefix
      then some (str_append "Installation prefix: " (str_append x.prefix_dir "\n"))
      else none

  unfoldable pub read_builtin : Variables → Progress → Progress
  unfolding print_value
  read_builtin v r =
      let c = r.configuration in
      let is_builtin = if v.has_builtin then true else c.is_builtin in
      print_value "The BOM should be built-in? " (if is_builtin then "yes" else "no")
        (record r { configuration = record c { is_builtin = is_builtin } })

  unfoldable pub read_input : Variables → Progress → Progress
  unfolding print_value
  read_input v r =
      let c = r.configuration in
      if c.is_builtin then r else elim v.input [
        | some f ↦
            print_value "Input filename is: " f
              (record r { configuration = record c { input_filename = f } })
        | none ↦ record r {
          errors =
              str_append r.errors
                "Either one among the -b/--builtin and -i/--input options must be specified\n";
        }
      ]

  unfoldable pub read_output : Variables → Progress → Progress
  unfolding print_value
  read_output v r = elim v.output [
    | some f ↦
        print_value "Output filename is: " f
          (record r { configuration = record (r.configuration) { output_filename = f } })
    | none ↦ r
  ]

  unfoldable pub read_log : Variables → Progress → Progress
  unfolding print_value
  read_log v r = elim v.log [
    | some f ↦
        print_value "Log filename is: " f
          (record r { configuration = record (r.configuration) { log_filename = f } })
    | none ↦ r
  ]

  -- The constructor of the method throws where the letter is not known.
  unfoldable pub read_method : Variables → Progress → Result Progress
  unfolding print_value
  read_method v r = elim v.demand_generation [
    | some letter ↦ x.method_of letter >>= λ method. ok (
        print_value "Date-time request generation method is: " (x.describe_method method)
          (record r {
            configuration = record (r.configuration) { demand_generation_method = method };
          }))
    | none ↦ ok r
  ]

  -- The default for the input, before the options are read, and after `notify`.
  unfoldable pub begin : Variables → Configuration → Progress
  unfolding notify
  begin v c = record {
    configuration = notify v (record c { is_builtin = false });
    printed = "";
    errors = "";
  }

  -- After the options that end the program: what both programs read.
  unfoldable pub read_rest : Variables → Progress → Result Progress
  unfolding read_builtin read_input read_output read_log read_method print_value
  read_rest v r = do
    r' ← read_method v (read_log v (read_output v (read_input v (read_builtin v r))))
    ok (
        print_value "The random generation seed is: " (x.integer_text r'.configuration.random_seed)
          r')

  -- `readConfiguration` of the batch: the status, and what the variables and the output become.
  unfoldable pub read_batch_configuration : Given → Configuration → Result (ℕ × Progress)
  unfolding batch_variables begin early_text read_rest print print_value
  read_batch_configuration g c =
      let v = batch_variables g in
      let r = begin v c in
      elim (early_text v) [
        | some text ↦ ok (early_return_status, print text r)
        | none ↦ read_rest v r >>= λ r'. ok (
          0,
          print_value "The number of runs is: " (x.natural_text r'.configuration.random_runs) r',
        )
      ]

  -- `readConfiguration` of the interactive program.
  unfoldable pub read_session_configuration : Given → Configuration → Result (ℕ × Progress)
  unfolding session_variables begin early_text read_rest print
  read_session_configuration g c =
      let v = session_variables g in
      let r = begin v c in
      elim (early_text v) [
        | some text ↦ ok (early_return_status, print text r)
        | none ↦ read_rest v r >>= λ r'. ok (0, r')
      ]
