-- ===== src/Examples/Results.antt =====
-- A statement with one parameter that gives two rows for each value, and the theorems on results.
use rsqlite.Prelude.{
  ℕ, suc, inl, arith, ◌≡◌, ◌≢◌, ◌⊎◌, refl, pos, negsuc, true, false, none, [], ◌∷◌, ltb,
  if◌then◌else◌,
}
use rsqlite.Outcome.{ok}
use rsqlite.DataType.{DataType}
use rsqlite.Params
use rsqlite.Params.{validate_params, same_lengths, bind_value, int_value}
use rsqlite.ResultImpl.{
  Sqlite, ResultImpl, step, step_loop, step_run, step_done, bind_row, bind_params, bind, new_result,
}
use rsqlite.ResultImpl.Stepping.{step-Safe}
use rsqlite.ResultImpl.Kept.{IsFitting, Safe, Kept}
use rsqlite.ResultImpl.Binding.{bind-IsFitting}
use rsqlite.ResultImpl.Fetch.{fetch, fetch_rows}
use rsqlite.ResultImpl.Fetching.{Fetches, after_row, fetch_rows-Fetches}
use rsqlite.ResultImpl.Unlimited.{ends_within, unlimited-Fetches}
use rsqlite.ResultImpl.Answers.{Executes, Stands}
use rsqlite.ResultImpl.Delivering.{Delivers, fetch_rows-Delivers}
use rsqlite.ResultImpl.Serving.{Serves, bind-Serves, Started, new_result-Serves}
use rsqlite.ResultImpl.Typing.{Hands, fetch-Hands}
use rsqlite.Examples.{seven, seven-IsSqliteColumn, plain_r, plain_r-IsRuntime, plain_boost}

-- A statement is the number of the rows that it gave.
abbrev pub two_rows : Sqlite ℕ
two_rows = record {
  prepare_v2 = λ sql n. (0, 0, none);
  step = λ n. if ltb n 2 then (100, suc n) else (101, n);
  reset = λ n. 0;
  clear_bindings = λ n. n;
  bind = λ n j v. n;
  column_count = λ n. 1;
  column_name = λ n j. "a";
  bind_parameter_count = λ n. 1;
  bind_parameter_name = λ n j. none;
  total_changes = λ n. 0;
  column = λ n j. seven;
}

abbrev unbound : ResultImpl ℕ
unbound = record {
  stmt = 0;
  names = "a" ∷ [];
  nparams = 1;
  complete = false;
  ready = false;
  nrows = 0;
  total_changes_start = 0;
  params = [];
  group = 0;
  groups = 0;
  types = DataType.unknown ∷ [];
  with_alt_types = false;
}

-- The first value's rows are read, the second value's are not.
abbrev halfway : ResultImpl ℕ
halfway = record unbound {
  stmt = 2;
  ready = true;
  params = Params.int (pos 1 ∷ pos 2 ∷ []) ∷ [];
  groups = 2;
}

step-Safe_example : Safe (step two_rows halfway).0 × Kept halfway (step two_rows halfway).1
step-Safe_example = step-Safe two_rows halfway (refl, tt)

bind-IsFitting_example :
    Safe (bind two_rows (Params.int (pos 1 ∷ pos 2 ∷ []) ∷ []) unbound).0
    × IsFitting (bind two_rows (Params.int (pos 1 ∷ pos 2 ∷ []) ∷ []) unbound).1
    × (((unbound.nparams ≢ 0) × (1 ≡ unbound.nparams))
        ⊎ ((bind two_rows (Params.int (pos 1 ∷ pos 2 ∷ []) ∷ []) unbound).1 ≡ unbound))
bind-IsFitting_example =
    bind-IsFitting two_rows (Params.int (pos 1 ∷ pos 2 ∷ []) ∷ []) unbound
      (unfold validate_params same_lengths in refl) tt

-- The second value is bound, and gives a row.
step_halfway : (step two_rows halfway).1.group ≡ 1
unfolding step step_loop step_run step_done bind_row bind_params bind_value
step_halfway = refl

-- The first value gave one of its two rows.
abbrev begun : ResultImpl ℕ
begun = record halfway { stmt = 1; types = DataType.unknown ∷ [] }

fetch_rows-Fetches_example :
    Fetches two_rows plain_r plain_r-IsRuntime plain_boost
      (λ stmt j. seven-IsSqliteColumn)
      (λ i. false)
      2
      begun
      (fetch_rows two_rows plain_r plain_boost (λ i. false) 2 (pos 2) begun)
fetch_rows-Fetches_example =
    fetch_rows-Fetches two_rows plain_r plain_r-IsRuntime plain_boost
      (λ stmt j. seven-IsSqliteColumn) (λ i. false) 1 begun (refl, tt)

-- Without parameters left, the statement gives its two rows.
abbrev last_value : ResultImpl ℕ
last_value = record begun { group = 1 }

two_rows_end : ends_within two_rows plain_boost 2 last_value ≡ true
unfolding ends_within step step_loop step_run step_done bind_row after_row
two_rows_end = refl

unlimited-Fetches_example :
    Fetches two_rows plain_r plain_r-IsRuntime plain_boost
      (λ stmt j. seven-IsSqliteColumn)
      (λ i. false)
      2
      last_value
      (fetch_rows two_rows plain_r plain_boost (λ i. false) 2 (negsuc 0) last_value)
unlimited-Fetches_example =
    unlimited-Fetches two_rows plain_r plain_r-IsRuntime plain_boost
      (λ stmt j. seven-IsSqliteColumn) (λ i. false) 2 0 last_value (refl, tt) two_rows_end

-- Both values of the parameter are bound in turn, and three fetches cut the four rows.
pub two_runs :
    Executes two_rows (Params.int (pos 1 ∷ pos 2 ∷ []) ∷ []) 0 0 ((1 ∷ 2 ∷ []) ∷ (1 ∷ 2 ∷ []) ∷ [])
unfolding bind_value
two_runs = (
  0,
  2,
  (int_value (pos 1), refl, refl),
  (refl, (refl, refl)),
  (0, 2, (int_value (pos 2), refl, refl), (refl, (refl, refl)), tt),
)

bind-Serves_example :
    ((bind two_rows (Params.int (pos 1 ∷ pos 2 ∷ []) ∷ []) unbound).0 ≡ ok tt)
    × Serves two_rows plain_r plain_r-IsRuntime plain_boost
        (λ stmt j. seven-IsSqliteColumn)
        (λ i. false)
        (λ i. refl)
        (0 ∷ 1 ∷ 2 ∷ [])
        (1 ∷ 2 ∷ 1 ∷ 2 ∷ [])
        (bind two_rows (Params.int (pos 1 ∷ pos 2 ∷ []) ∷ []) unbound).1
bind-Serves_example =
    bind-Serves two_rows plain_r plain_r-IsRuntime plain_boost (λ stmt j. seven-IsSqliteColumn)
      (λ i. false) (λ i. refl) (Params.int (pos 1 ∷ pos 2 ∷ []) ∷ []) unbound
      ((1 ∷ 2 ∷ []) ∷ (1 ∷ 2 ∷ []) ∷ []) (0 ∷ 1 ∷ 2 ∷ [])
      (unfold validate_params same_lengths in refl) tt (λ h. cc) refl two_runs refl

-- The same statement without a parameter.
abbrev pub plain_rows : Sqlite ℕ
plain_rows = record two_rows { bind_parameter_count = λ n. 0 }

new_result-Serves_example :
    Started plain_rows plain_r plain_r-IsRuntime plain_boost
      (λ stmt j. seven-IsSqliteColumn)
      (λ i. false)
      (λ i. refl)
      (0 ∷ 4 ∷ [])
      (1 ∷ 2 ∷ [])
      (new_result plain_rows (83 ∷ []) false)
new_result-Serves_example =
    new_result-Serves plain_rows plain_r plain_r-IsRuntime plain_boost
      (λ stmt j. seven-IsSqliteColumn) (λ i. false) (λ i. refl) (83 ∷ []) false 0 2 none
      (1 ∷ 2 ∷ []) (0 ∷ 4 ∷ []) refl refl (refl, (refl, refl))

-- The first value gave its first row, and a fetch of all takes the other three.
begun-Stands : Stands two_rows begun (1 ∷ 2 ∷ 1 ∷ 2 ∷ [])
unfolding bind_value
begun-Stands = (
  refl,
  refl,
  record {
    rows = 2 ∷ [];
    end = 2;
    runs = (1 ∷ 2 ∷ []) ∷ [];
    yields = (refl, refl);
    executes = (0, 2, (int_value (pos 2), refl, refl), (refl, (refl, refl)), tt);
    count = refl;
    all_rows = refl;
  },
)

fetch_rows-Delivers_example :
    Delivers two_rows plain_r plain_r-IsRuntime plain_boost
      (λ stmt j. seven-IsSqliteColumn)
      (λ i. false)
      (λ i. refl)
      (1 ∷ 2 ∷ 1 ∷ 2 ∷ [])
      []
      begun
      (fetch_rows two_rows plain_r plain_boost (λ i. false) 5 (negsuc 0) begun)
fetch_rows-Delivers_example =
    fetch_rows-Delivers two_rows plain_r plain_r-IsRuntime plain_boost
      (λ stmt j. seven-IsSqliteColumn) (λ i. false) (λ i. refl) 5 (negsuc 0) begun
      (1 ∷ 2 ∷ 1 ∷ 2 ∷ []) (refl, tt) begun-Stands (inl (0, refl, omega arith))

fetch-Hands_example :
    Hands two_rows plain_r plain_r-IsRuntime plain_boost
      (fetch two_rows plain_r plain_boost (λ i. false) 5 (pos 2) begun)
fetch-Hands_example =
    fetch-Hands two_rows plain_r plain_r-IsRuntime plain_boost (λ i. false) 5 (pos 2) begun
