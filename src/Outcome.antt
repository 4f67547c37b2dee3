-- ===== src/Outcome.antt =====
-- Results of code that may raise an R error (`cpp11::stop`, `Rf_error`). The constructors on the
-- last line of Error are faults of C++ that the model makes visible instead of giving them a
-- meaning: an accessor such as INTEGER() on a vector of another type, an index past the end, a
-- 64-bit slot that is read as the other of its two views, a null pointer that is used, such as
-- fclose(NULL); and the bound on the rounds of a loop or a recursion.
use rsqlite.Prelude.{ℕ, List}

pub data Error : Type 0 where
  nyi nyi_default value_for_unknown : Error
  needs_no_parameters not_bound inactive_result invalid_result : Error
  wrong_parameter_count : ℕ → ℕ → Error
  wrong_parameter_length : ℕ → ℕ → Error
  only_raw_vectors unknown_parameter_type : Error
  sqlite_error interrupted : Error
  disconnected invalid_connection cannot_connect copy_failed copy_unfinished : Error
  no_separator : Error
  load_failed : List ℕ → Error
  wrong_columns : ℕ → ℕ → ℕ → Error
  null_file null_pointer wrong_vector_type out_of_bounds wrong_view out_of_fuel : Error

pub data Result {ℓ} (A : Type ℓ) : Type ℓ where
  ok : A → Result A
  stop : Error → Result A

infixl 5 ◌>>=◌
abbrev pub ◌>>=◌ {ℓ κ} : {A : Type ℓ} {B : Type κ} → Result A → (A → Result B) → Result B
ok a >>= f = f a
stop e >>= f = stop e
