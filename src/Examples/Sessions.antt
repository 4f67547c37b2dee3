-- ===== src/Examples/Sessions.antt =====
-- A session with one result, whose parameter is bound to two values.
use rsqlite.Prelude.{ℕ, ◌≡◌, refl, pos, true, false, none, List, [], ◌∷◌, ltb, length, codes, arith}
use rsqlite.Outcome.{ok, stop, invalid_connection}
use rsqlite.Params
use rsqlite.Params.{Param, validate_params, same_lengths}
use rsqlite.ResultImpl.Kept.{Safe}
use rsqlite.ResultImpl.{new_result}
use rsqlite.Connection.{connect, check_connection, conn}
use rsqlite.Session.{
  Session, connection_connect, connection_valid, connection_release, forget_connection,
  result_create, result_bind, result_fetch, result_column_info,
}
use rsqlite.Session.Counting.{live}
use rsqlite.Session.Shared.{IsShared}
use rsqlite.Session.Reaching.{Reached, start, also, creates, binds, Reached-IsShared}
use rsqlite.Session.Closing.{collect_results, collect_lem, connection_release_lem}
use rsqlite.Session.Calling.{result_calls-Safe}
use rsqlite.Session.Query.{Answered, query_lem}
use rsqlite.Session.BoundQuery.{MadeAnswered, bound_query_lem}
use rsqlite.Examples.{seven-IsSqliteColumn, plain_r, plain_r-IsRuntime, plain_boost}
use rsqlite.Examples.Connections.{plain_connection, plain_open, plain_arguments}
use rsqlite.Examples.Results.{two_rows, plain_rows, two_runs}

abbrev fresh : Session ℕ
fresh = record {
  con = plain_connection;
  uses = 1;
  destroyed = 0;
  pointer = true;
  results = [];
  statements = 0;
}

fresh-connected : connection_connect plain_open plain_arguments ≡ ok fresh
unfolding connection_connect connect
fresh-connected = refl

abbrev values : List Param
values = Params.int (pos 1 ∷ pos 2 ∷ []) ∷ []

abbrev asked : Session ℕ
asked = (result_create two_rows (codes "SELECT ?") fresh).1

abbrev bound : Session ℕ
bound = (result_bind two_rows 0 values asked).1

bound-Reached : Reached two_rows plain_r plain_boost fresh bound
bound-Reached = also (also start (creates fresh (codes "SELECT ?") refl)) (binds asked 0 values)

-- The result is there.
live-bound : live bound.results ≡ 1
unfolding result_create result_bind new_result check_connection conn
live-bound = refl

bound-valid : connection_valid bound ≡ true
unfolding result_create result_bind new_result check_connection conn connection_valid
bound-valid = refl

Reached-IsShared_example : IsShared bound
Reached-IsShared_example =
    Reached-IsShared two_rows plain_r plain_boost plain_open plain_arguments fresh bound
      fresh-connected bound-Reached

collect_lem_example :
    let end = forget_connection (collect_results (length bound.results) bound) in
    (end.statements ≡ 0) × ((end.destroyed ≡ 1) × ((end.con.closed ≡ 1) × (end.con.preserved ≡ 0)))
collect_lem_example =
    collect_lem two_rows plain_r plain_boost plain_open plain_arguments fresh bound fresh-connected
      bound-Reached

connection_release_lem_example :
    let next = (connection_release bound).1 in
    ((connection_release bound).0 ≡ ltb 0 (live bound.results))
    × ((connection_valid next ≡ false)
        × (((result_create two_rows (codes "SELECT 1") next).0 ≡ stop invalid_connection)
            × ((connection_release next ≡ (true, next))
                × ((next.results ≡ bound.results) × (next.statements ≡ bound.statements)))))
connection_release_lem_example =
    connection_release_lem two_rows plain_r plain_boost plain_open plain_arguments fresh bound
      (codes "SELECT 1") fresh-connected bound-Reached bound-valid

result_calls-Safe_example :
    Safe (result_bind two_rows 0 values bound).0
    × Safe (result_fetch two_rows plain_r plain_boost (λ i. false) 2 0 (pos 2) bound).0
    × Safe (result_column_info two_rows plain_r plain_boost (λ t. "integer") 0 bound).0
result_calls-Safe_example =
    result_calls-Safe two_rows plain_r plain_r-IsRuntime plain_boost
      (λ stmt j. seven-IsSqliteColumn) (λ i. false) plain_open plain_arguments fresh bound 0 2
      values (λ t. "integer") fresh-connected bound-Reached

-- The query of two rows, from its text to the release of its result.
query_lem_example :
    Answered plain_rows plain_r plain_r-IsRuntime plain_boost
      (λ stmt j. seven-IsSqliteColumn)
      (λ i. false)
      (λ i. refl)
      3
      0
      fresh
      0
      (1 ∷ 2 ∷ [])
      (result_create plain_rows (codes "SELECT 1") fresh)
query_lem_example =
    query_lem plain_rows plain_r plain_r-IsRuntime plain_boost (λ stmt j. seven-IsSqliteColumn)
      (λ i. false) (λ i. refl) fresh (codes "SELECT 1") 0 2 none (1 ∷ 2 ∷ []) 3 0 refl (omega arith)
      refl refl (refl, (refl, refl)) (omega arith)

-- The same for the two values, whose two runs give four rows.
bound_query_lem_example :
    MadeAnswered two_rows plain_r plain_r-IsRuntime plain_boost
      (λ stmt j. seven-IsSqliteColumn)
      (λ i. false)
      (λ i. refl)
      4
      0
      fresh
      0
      values
      (1 ∷ 2 ∷ 1 ∷ 2 ∷ [])
      (result_create two_rows (codes "SELECT ?") fresh)
bound_query_lem_example =
    bound_query_lem two_rows plain_r plain_r-IsRuntime plain_boost (λ stmt j. seven-IsSqliteColumn)
      (λ i. false) (λ i. refl) fresh (codes "SELECT ?") 0 none values
      ((1 ∷ 2 ∷ []) ∷ (1 ∷ 2 ∷ []) ∷ []) 4 0 refl (omega arith) refl
      (unfold validate_params same_lengths in refl) (λ h. cc) refl two_runs refl (omega arith)
