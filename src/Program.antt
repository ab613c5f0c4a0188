-- ===== src/Program.antt =====
-- The options of the programs and what they fill, in `readConfiguration` and `main` of trademgen/batches/trademgen_generateDemand.cpp,
-- trademgen/ui/cmdline/trademgen.cpp and trademgen/batches/trademgen_with_db.cpp. How Boost reads the
-- command line and the configuration file is another library's: an option is given or not.
pub mod Options
pub mod Reading
pub mod Main
pub mod Ending
pub mod Words
pub mod Database
use Prim.Native.Char.{Char}
use Prim.Native.String.{String, ◌++◌ as str_append}
use trademgen.Prelude.{ℕ, Bool, true, false, Option, none, some, if◌then◌else◌, Result, ok, ◌>>=◌}
use trademgen.Prelude.Int.{ℤ}
use trademgen.Stream.{DemandGenerationMethod, poi_pro}

-- StdAir's default seed, directory of samples and generation methods, the texts of the build, the
-- description of the options, and numbers written to a stream.
pub record Surroundings : Type 0 where
  pub default_random_seed : ℤ
  pub sample_dir : String
  pub method_as_char : DemandGenerationMethod → Char
  pub method_of : Char → Result DemandGenerationMethod
  pub describe_method : DemandGenerationMethod → String
  pub visible_options : String
  pub package_name : String
  pub package_version : String
  pub prefix_dir : String
  pub integer_text : ℤ → String
  pub natural_text : ℕ → String

-- What is given on the command line or in the configuration file.
pub record Given : Type 0 where
  pub help : Bool
  pub version : Bool
  pub prefix : Bool
  pub builtin : Bool
  pub seed : Option ℤ
  pub draws : Option ℕ
  pub demand_generation : Option Char
  pub input : Option String
  pub output : Option String
  pub log : Option String

-- The variables map: `count` and `as` of the options.
pub record Variables : Type 0 where
  pub has_help : Bool
  pub has_version : Bool
  pub has_prefix : Bool
  pub has_builtin : Bool
  pub seed : Option ℤ
  pub draws : Option ℕ
  pub demand_generation : Option Char
  pub input : Option String
  pub output : Option String
  pub log : Option String

-- The variables of `main` that the options fill.
pub record Configuration : Type 0 where
  pub is_builtin : Bool
  pub random_seed : ℤ
  pub random_runs : ℕ
  pub input_filename : String
  pub output_filename : String
  pub log_filename : String
  pub demand_generation_method : DemandGenerationMethod

-- `default_value`: an option that is not given has its default.
unfoldable pub or_default {ℓ} : {T : Type ℓ} → T → Option T → T
or_default default none = default
or_default default (some a) = a

-- A variable that is bound to an option, as `notify` leaves it.
unfoldable pub bound_to {ℓ} : {T : Type ℓ} → Option T → T → T
bound_to none before = before
bound_to (some a) before = a

abbrev pub early_return_status : ℕ
early_return_status = 99

-- The variables, and what is written to the two output streams.
pub record Progress : Type 0 where
  pub configuration : Configuration
  pub printed : String
  pub errors : String

unfoldable pub print : String → Progress → Progress
print text r = record r { printed = str_append r.printed text }

-- A label, a value and the end of the line.
unfoldable pub print_value : String → String → Progress → Progress
unfolding print
print_value label value r = print (str_append label (str_append value "\n")) r
