-- ===== src/Program/Database.antt =====
-- `readConfiguration` and `main` of trademgen/batches/trademgen_with_db.cpp: the options with the
-- parameters of the database and the words of a query, the service, and the airlines of the database.
use Prim.Native.String.{String, ◌++◌ as str_append}
use text.Mathlib.Text.{◌==◌ as str_eq}
use trademgen.Prelude.{ℕ, Bool, Option, none, some, List, ◌==◌, if◌then◌else◌, Result, ok, ◌>>=◌}
use trademgen.Platform.{Platform}
use trademgen.DemandStruct.{DemandStruct}
use trademgen.Events.{EventService}
use trademgen.Service.Building.{Stdair}
use trademgen.Database.{Query, Soci, display_airline_list_from_db}
use trademgen.Program.{
  Surroundings, Given, Variables, Configuration, Progress, or_default, bound_to,
  early_return_status, print, print_value,
}
use trademgen.Program.Options.{early_text, read_builtin, read_input, read_log, begin}
use trademgen.Program.Words.{create_string_from_word_list}
use trademgen.Program.Main.{Files, start_service}

-- What is given of the options that only this program has.
pub record DatabaseGiven : Type 0 where
  pub given : Given
  pub user : Option String
  pub passwd : Option String
  pub host : Option String
  pub port : Option String
  pub dbname : Option String
  pub query : Option (List String)

-- `stdair::BasDBParams`, as `main` fills it.
pub record DatabaseParameters : Type 0 where
  pub user : String
  pub passwd : String
  pub host : String
  pub port : String
  pub dbname : String

-- The parameters of the database with their default values.
unfoldable pub database_parameters : DatabaseGiven → DatabaseParameters
unfolding or_default
database_parameters g = record {
  user = or_default "dsim" g.user;
  passwd = or_default "dsim" g.passwd;
  host = or_default "localhost" g.host;
  port = or_default "3306" g.port;
  dbname = or_default "sim_dsim" g.dbname;
}

module _ (x : Surroundings) (tokenise : String → List String) where
  -- The other options, with no number of draws, no method and no output file.
  unfoldable pub database_variables : Given → Variables
  unfolding or_default
  database_variables g = record {
    has_help = g.help;
    has_version = g.version;
    has_prefix = g.prefix;
    has_builtin = g.builtin;
    seed = some (or_default x.default_random_seed g.seed);
    draws = none;
    demand_generation = none;
    input = some (or_default (str_append x.sample_dir "/demand01.csv") g.input);
    output = none;
    log = some (or_default "trademgen_with_db.log" g.log);
  }

  -- The words of the query: those of the option, or of the string, which has a default.
  unfoldable pub query_words : String → DatabaseGiven → List String
  unfolding bound_to
  query_words query_string g =
      bound_to g.query
        (tokenise (if str_eq query_string "" then "my good old query" else query_string))

  -- The password is not printed.
  unfoldable pub print_parameters : DatabaseParameters → Progress → Progress
  unfolding print_value
  print_parameters d r = print_value "SQL database name is: " d.dbname (
      print_value "SQL database port number is: " d.port (
        print_value "SQL database host name is: " d.host
          (print_value "SQL database user name is: " d.user r)))

  -- `readConfiguration`: the status, the variables and the output, the parameters of the database and
  -- the query, which is the one before where the program ends early.
  unfoldable pub read_database_configuration :
      DatabaseGiven → Configuration → String → ℕ × Progress × DatabaseParameters × String
  unfolding database_variables begin early_text read_builtin read_input read_log print_parameters
      database_parameters print print_value query_words create_string_from_word_list
  read_database_configuration g c query_string =
      let v = database_variables g.given in
      let r = begin x v c in
      let d = database_parameters g in
      elim (early_text x v) [
        | some text ↦ (
          early_return_status,
          print text r,
          d,
          if str_eq query_string "" then "my good old query" else query_string,
        )
        | none ↦
            let shown = print_parameters d (read_log x v (read_input x v (read_builtin x v r))) in
            let query = create_string_from_word_list (query_words query_string g) in
            let seeded =
              print_value "The random generation seed is: "
                (x.integer_text shown.configuration.random_seed) shown in
            (0, print_value "The query string is: " query seeded, d, query)
      ]

module _ ⦃p : Platform⦄ (w : EventService) (stdair : Stdair w) (text_lt : String → String → Bool)
    (files : Files) (staged : DemandStruct) (x : Surroundings) (tokenise : String → List String)
    (soci : Soci) where
  open soci use {Session, Airline}

  -- What is printed, and the airlines that are logged where the service is made. The constructor
  -- opens the session on the database with its parameters.
  unfoldable pub main_with_db :
      (DatabaseParameters → Session)
      → (new_airline : Airline) (rounds : ℕ) → DatabaseGiven
      → Configuration
      → Result (String × Option (Query (List (ℕ × Airline))))
  unfolding read_database_configuration start_service display_airline_list_from_db
  main_with_db open_session new_airline rounds g c =
      let (status, r, d, _) = read_database_configuration x tokenise g c "" in
      if status == early_return_status then ok (r.printed, none) else do
        s ← start_service w stdair text_lt files staged r.configuration
        ok (r.printed, some (display_airline_list_from_db soci rounds (open_session d) new_airline))
