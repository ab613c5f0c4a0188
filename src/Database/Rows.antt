-- ===== src/Database/Rows.antt =====
-- What a table with so many rows gives: `retrieveAirline` of trademgen/command/DBManager.cpp and
-- `displayAirlineListFromDB` of trademgen/service/TRADEMGEN_Service.cpp.
use Prim.Native.String.{String}
use trademgen.Prelude.{
  ℕ, zero, suc, ◌<◌, ◌≡◌, refl, ◌⊎◌, inl, inr, Bool, true, false, List, [], ◌∷◌, ◌++◌, arith,
  length,
}
use trademgen.Database.{
  Attempt, done, thrown, answered, sql_database_exception, rethrown, Soci, retrieve_airline,
  airline_lines, display_airline_list_from_db,
}

Attempt-cases :
    {T : Type 0} (t : Attempt T) → ((text : String) × (t ≡ thrown text)) ⊎ ((a : T) × (t ≡ done a))
Attempt-cases (thrown text) = inl (text, refl)
Attempt-cases (done a) = inr (a, refl)

module _ (soci : Soci) where
  open soci use {
    Session, Statement, Airline, iterate_airlines, prepare_airlines, statement_on, fetch,
    what_of_sql,
  }

  -- The statement gives these rows one after the other, and then no more, which leaves the airline
  -- of the last one as it is.
  abbrev pub Gives : List Airline → Statement → Airline → Type 0
  Gives [] statement airline =
      (after : Statement) × (iterate_airlines statement airline ≡ answered (false, after, airline))
  Gives (row ∷ rows) statement airline =
      (after : Statement) × (iterate_airlines statement airline ≡ answered (true, after, row))
      × Gives rows after row

  -- Numbers from `idx` on.
  abbrev pub numbered : ℕ → List Airline → List (ℕ × Airline)
  numbered idx [] = []
  numbered idx (row ∷ rows) = (idx, row) ∷ numbered (suc idx) rows

  abbrev pub last_of : Airline → List Airline → Airline
  last_of airline [] = airline
  last_of airline (row ∷ rows) = last_of row rows

  airline_lines-Gives :
      (rows : List Airline) (rounds idx : ℕ) (statement : Statement) (airline : Airline)
      → Gives rows statement airline
      → length rows < rounds
      → airline_lines soci rounds idx statement airline
        ≡ answered (numbered idx (rows ++ (last_of airline rows ∷ [])))
  unfolding airline_lines
  airline_lines-Gives rows zero idx statement airline gives enough = absurd (omega arith)
  airline_lines-Gives [] (suc rounds) idx statement airline (after, e) enough = rw e refl
  airline_lines-Gives (row ∷ rows) (suc rounds) idx statement airline (after, e, gives) enough =
      let rest = airline_lines-Gives rows rounds (suc idx) after row gives (omega arith) in
      rw (e, airline_lines, rest) refl

  -- Let the statement that StdAir prepares give these rows, one after the other. On more rounds
  -- than there are rows, the service logs one line for each row, numbered from 0 on, and one line
  -- more: the last airline again, or the new one where there is no row.
  pub display_airline_list_lem :
      (rows : List Airline) (rounds : ℕ) (session session' : Session) (statement : Statement)
      (new_airline airline : Airline)
      → prepare_airlines session (statement_on session) new_airline
        ≡ answered (session', statement, airline)
      → Gives rows statement airline
      → length rows < rounds
      → display_airline_list_from_db soci rounds session new_airline
        ≡ answered (numbered 0 (rows ++ (last_of airline rows ∷ [])))
  unfolding display_airline_list_from_db
  display_airline_list_lem rows rounds session session' statement new_airline airline prepared gives
        enough =
      rw prepared (airline_lines-Gives rows rounds 0 statement airline gives enough)

  -- What a fetch throws comes out of `retrieveAirline` as a database exception with the text of
  -- another one, and otherwise the answer says whether the first of two fetches found a row.
  pub retrieve_airline_outcome :
      (session : Session) (code : String) (airline : Airline)
      → ((text : String) × ((fetch (statement_on session) airline ≡ thrown text)
            ⊎ ((found : Bool) × (statement : Statement) × (read : Airline) × (fetch
                    (statement_on session)
                    airline
                  ≡ done (found, statement, read))
                × (fetch statement read ≡ thrown text)))
          × (retrieve_airline soci session code airline
              ≡ sql_database_exception (what_of_sql text)))
        ⊎ ((found found' : Bool) × (statement statement' : Statement) × (read read' : Airline)
            × (fetch (statement_on session) airline ≡ done (found, statement, read))
            × (fetch statement read ≡ done (found', statement', read'))
            × (retrieve_airline soci session code airline
                ≡ answered (found, session, statement', read')))
  unfolding retrieve_airline rethrown
  retrieve_airline_outcome session code airline =
      elim (Attempt-cases (fetch (statement_on session) airline)) [
        | inl (text, e) ↦ inl (text, inl e, rw e refl)
        | inr ((found, statement, read), e) ↦ elim (Attempt-cases (fetch statement read)) [
          | inl (text, e') ↦
              inl (text, inr (found, statement, read, e, e'), rw (e, rethrown, e') refl)
          | inr ((found', statement', read'), e') ↦
              inr (
                found,
                found',
                statement,
                statement',
                read,
                read',
                e,
                e',
                rw (e, rethrown, e') refl,
              )
        ]
      ]
