-- ===== src/Examples/Databases.antt =====
-- The theorems on the database and on the words of a query, at a table with two rows.
use Prim.Native.String.{String}
use trademgen.Prelude.{
  ℕ, zero, suc, ◌≡◌, refl, Bool, true, false, [], ◌∷◌, arith, ◌==◌, if◌then◌else◌,
}
use trademgen.Session.{to_string}
use trademgen.Program.Words.{create_string_from_word_list, create_string-to_string}
use trademgen.Database.{done, thrown, answered, Soci, display_airline_list_from_db}
use trademgen.Database.Rows.{display_airline_list_lem}

-- A statement is the number of the next row, and the third fetch throws.
abbrev row_at : ℕ → String → Bool × ℕ × String
row_at zero airline = (true, 1, "BA")
row_at (suc zero) airline = (true, 2, "SQ")
row_at (suc (suc n)) airline = (false, suc (suc n), airline)

abbrev soci : Soci
soci = record {
  Session = Unit;
  Statement = ℕ;
  Airline = String;
  statement_on = λ s. 0;
  begin_transaction = λ s. done s;
  commit = λ s. thrown "no transaction";
  fetch = λ n airline. if n == 2 then thrown "end of the rows" else done (row_at n airline);
  what_of_sql = λ text. text;
  prepare_airlines = λ session statement airline. answered (session, statement, airline);
  iterate_airlines = λ n airline. answered (row_at n airline);
}

display_airline_list_lem_example :
    display_airline_list_from_db soci 3 tt "" ≡ answered ((0, "BA") ∷ (1, "SQ") ∷ (2, "SQ") ∷ [])
display_airline_list_lem_example =
    display_airline_list_lem soci ("BA" ∷ "SQ" ∷ []) 3 tt tt 0 "" "" refl
      (1, refl, (2, refl, (2, refl))) (omega arith)

create_string-to_string_example :
    create_string_from_word_list ("my" ∷ "good" ∷ "old" ∷ "query" ∷ [])
    ≡ to_string ("my" ∷ "good" ∷ "old" ∷ "query" ∷ [])
create_string-to_string_example =
    create_string-to_string ("my" ∷ "good" ∷ "old" ∷ "query" ∷ []) (omega arith)
