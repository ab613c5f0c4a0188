-- ===== src/Database.antt =====
-- The access to the airlines of a database (trademgen/command/DBManager.cpp) and the list that the
-- service logs (`displayAirlineListFromDB` of trademgen/service/TRADEMGEN_Service.cpp). SOCI and
-- StdAir's own DBManagerForAirlines are other libraries.
pub mod Rows
pub mod Params
use Prim.Native.String.{String}
use trademgen.Prelude.{
  not_initialised, file_not_found, ℕ, zero, suc, ◌+◌, ◌-◌, ◌*◌, ◌/◌, ◌≤◌, ◌<◌, ◌≡◌, refl, sym, ap,
  ◌∙◌, subst, ◌≢◌, ◌↔◌, ◌⊎◌, inl, inr, Bool, true, false, not, ◌&&◌, ◌||◌, Option, none, some, List,
  [], ◌∷◌, ◌++◌, map, arith, ltb, leb, ◌==◌, if◌then◌else◌, Bool-cases, Option-cases, length,
  get_elem?, All, length-append, length-map, get_elem?-lt, Fault, out_of_range, index_out_of_range,
  code_duplication, assertion_failed, object_not_found, undefined_behaviour, bad_date, out_of_fuel,
  Result, ok, err, ◌>>=◌, ◌>>◌, check, or_fault, Result-cases,
}

-- A call of SOCI, which may throw a standard exception with that text.
pub data Attempt (T : Type 0) : Type 0 where
  done : T → Attempt T
  thrown : String → Attempt T

-- A call of this code: `stdair::SQLDatabaseException` is all that it throws. The loop that takes
-- its rounds as fuel may run out of it.
pub data Query (T : Type 0) : Type 0 where
  answered : T → Query T
  sql_database_exception : String → Query T
  unfinished : Query T

infixl 5 ◌>>=Q◌
abbrev pub ◌>>=Q◌ : {T S : Type 0} → Query T → (T → Query S) → Query S
answered a >>=Q f = f a
sql_database_exception text >>=Q f = sql_database_exception text
unfinished >>=Q f = unfinished

-- `catch (std::exception const&)`, around a call of SOCI.
unfoldable pub rethrown : {T : Type 0} → Attempt T → Query T
rethrown (done a) = answered a
rethrown (thrown text) = sql_database_exception text

pub record Soci : Type 1 where
  pub Session : Type 0
  pub Statement : Type 0
  pub Airline : Type 0
  -- `stdair::DBRequestStatement_T (session)`.
  pub statement_on : Session → Statement
  pub begin_transaction : Session → Attempt Session
  pub commit : Session → Attempt Session
  -- `fetch`: whether there is a row, with the airline that the statement is bound to.
  pub fetch : Statement → Airline → Attempt (Bool × Statement × Airline)
  -- `what` of a `stdair::SQLDatabaseException` of that text.
  pub what_of_sql : String → String
  -- The two functions of StdAir's DBManagerForAirlines.
  pub prepare_airlines : Session → Statement → Airline → Query (Session × Statement × Airline)
  pub iterate_airlines : Statement → Airline → Query (Bool × Statement × Airline)

module _ (soci : Soci) where
  open soci use {
    Session, Statement, Airline, statement_on, begin_transaction, commit, fetch, what_of_sql,
    prepare_airlines, iterate_airlines,
  }

  -- `catch (std::exception const&)`, around a call of this code.
  unfoldable pub rethrown_again : {T : Type 0} → Query T → Query T
  rethrown_again (answered a) = answered a
  rethrown_again (sql_database_exception text) = sql_database_exception (what_of_sql text)
  rethrown_again unfinished = unfinished

  -- The statement and its execution are in a comment: nothing is prepared.
  unfoldable pub prepare_select_on_airline_code_statement :
      Session → Statement → String → Airline → Query (Session × Statement × Airline)
  prepare_select_on_airline_code_statement session statement code airline =
      answered (session, statement, airline)

  unfoldable pub prepare_select_statement :
      Session → Statement → Airline → Query (Session × Statement × Airline)
  prepare_select_statement session statement airline = answered (session, statement, airline)

  -- The reset of the airline is in a comment.
  unfoldable pub iterate_on_statement :
      Statement → Airline → (should_do_reset : Bool) → Query (Bool × Statement × Airline)
  unfolding rethrown
  iterate_on_statement statement airline should_do_reset = rethrown (fetch statement airline)

  -- The update between the two ends of the transaction is in a comment.
  unfoldable pub update_airline_in_db : Session → Airline → Query Session
  unfolding rethrown
  update_airline_in_db session airline =
      rethrown (begin_transaction session) >>=Q λ begun. rethrown (commit begun)

  unfoldable pub retrieve_airline :
      Session → String → Airline → Query (Bool × Session × Statement × Airline)
  unfolding rethrown_again prepare_select_on_airline_code_statement iterate_on_statement
  retrieve_airline session code airline = rethrown_again (
      prepare_select_on_airline_code_statement session (statement_on session) code airline
      >>=Q λ prepared. iterate_on_statement prepared.1 prepared.2 true >>=Q λ first.
          iterate_on_statement first.1 first.2 false >>=Q λ second.
          answered (first.0, prepared.0, second.1, second.2))

  -- The loop of `displayAirlineListFromDB`, with the lines that are logged: a number and an airline
  -- each. The rounds are its fuel.
  unfoldable pub airline_lines : ℕ → ℕ → Statement → Airline → Query (List (ℕ × Airline))
  airline_lines zero idx statement airline = unfinished
  airline_lines (suc rounds) idx statement airline = iterate_airlines statement airline >>=Q λ next.
      elim next.0 [
        | true ↦ airline_lines rounds (suc idx) next.1 next.2 >>=Q λ lines.
            answered ((idx, next.2) ∷ lines)
        | false ↦ answered ((idx, next.2) ∷ [])
      ]

  -- `lAirline` is a new one. A service without context throws.
  unfoldable pub display_airline_list_from_db :
      ℕ → Session → (new_airline : Airline) → Query (List (ℕ × Airline))
  unfolding airline_lines
  display_airline_list_from_db rounds session new_airline =
      prepare_airlines session (statement_on session) new_airline >>=Q λ prepared.
      airline_lines rounds 0 prepared.1 prepared.2
