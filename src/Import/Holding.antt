-- ===== src/Import/Holding.antt =====
-- What is held at the end of a part of RS_sqlite_import.
use rsqlite.Prelude.{ℕ, ◌≡◌, ◌≢◌, Bool, true, false, if◌then◌else◌}
use rsqlite.Outcome.{Error, Result, ok, stop, null_file, out_of_bounds, out_of_fuel}
use rsqlite.Exec.{Exec, continue}
use rsqlite.Import.Inserting.{holding}
use rsqlite.Import.{Held, Run}

-- The statement, the file and the columns, and the line.
abbrev pub busy : Bool → Held
busy line = record { stmt = true; file = true; columns = true; line = line }

-- After an error nothing is held. A fault, which ends the process, is only a read before an array,
-- and only if the line end, of `m` bytes, is not one byte; then the line is not held. The loop
-- never runs out of fuel.
abbrev pub Settled : ℕ → Error → Held → Type 0
Settled m e held = elim e [
  | out_of_bounds ↦ (held ≡ busy false) × (m ≢ 1)
  | null_file ↦ ⊥
  | out_of_fuel ↦ ⊥
  | _ ↦ held ≡ holding false
]

-- What is held at the end of a part that holds `h` if it succeeds.
abbrev pub Holds : {A Db : Type 0} → ℕ → Held → Result A × Run Db → Type 0
Holds m h (ok a, r) = r.held ≡ h
Holds m h (stop e, r) = Settled m e r.held

pub continue-Holds :
    {A B Db : Type 0} (m : ℕ) (h k : Held) (out : Result A × Run Db) (f : A → Exec (Run Db) B)
    → Holds m h out
    → ((a : A) (r : Run Db) → r.held ≡ h → Holds m k (f a r))
    → Holds m k (continue out.0 f out.1)
continue-Holds m h k (ok a, r) f p q = q a r p
continue-Holds m h k (stop e, r) f p q = p

pub if-Holds :
    {A Db : Type 0} (m : ℕ) (h : Held) (b : Bool) (x y : Result A × Run Db)
    → Holds m h x
    → Holds m h y
    → Holds m h (if b then x else y)
if-Holds m h true x y p q = p
if-Holds m h false x y p q = q

-- The same where the condition chooses among two parts.
pub choose-Holds :
    {A Db : Type 0} (m : ℕ) (h : Held) (b : Bool) (x y : Exec (Run Db) A) (r : Run Db)
    → Holds m h (x r)
    → Holds m h (y r)
    → Holds m h ((if b then x else y) r)
choose-Holds m h true x y r p q = p
choose-Holds m h false x y r p q = q
