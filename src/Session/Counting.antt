-- ===== src/Session/Counting.antt =====
-- The results that R has, counted.
use rsqlite.Prelude.{
  ℕ, zero, suc, ◌+◌, ◌≡◌, ap, Bool, true, false, Option, none, some, List, [], ◌∷◌, ◌++◌, arith,
}
use rsqlite.Storage.Blocks.{All}
use rsqlite.ResultImpl.{ResultImpl}
use rsqlite.ResultImpl.Kept.{IsFitting}
use rsqlite.Session.{lookup, put}

abbrev pub present : {A : Type 0} → Option A → ℕ
present none = 0
present (some a) = 1

-- The results that are not released.
abbrev pub live : {A : Type 0} → List (Option A) → ℕ
live [] = 0
live (o ∷ os) = present o + live os

abbrev pub held_by : Bool → ℕ
held_by true = 1
held_by false = 0

-- The parameters of a result fit, unless it is released.
abbrev pub FitsIfThere : {Stmt : Type 0} → Option (ResultImpl Stmt) → Type 0
FitsIfThere none = Unit {0}
FitsIfThere (some r) = IsFitting r

pub live-append :
    {A : Type 0} (os : List (Option A)) (a : A) → live (os ++ some a ∷ []) ≡ suc (live os)
live-append [] a = omega arith
live-append (o ∷ os) a = omega (arith, live-append os a)

pub live-put :
    {A : Type 0} (i : ℕ) (a : A) (new : Option A) (os : List (Option A))
    → lookup i os ≡ some a
    → suc (live (put i new os)) ≡ present new + live os
unfolding lookup put
live-put i a new [] e = absurd (cc e)
live-put zero a new (o ∷ os) e = omega (arith, ap present e)
live-put (suc i) a new (o ∷ os) e = omega (arith, live-put i a new os e)

module _ {Stmt : Type 0} where
  pub append-FitsIfThere :
      (os : List (Option (ResultImpl Stmt))) (r : ResultImpl Stmt)
      → All FitsIfThere os
      → IsFitting r
      → All FitsIfThere (os ++ some r ∷ [])
  append-FitsIfThere [] r h fit = (fit, tt)
  append-FitsIfThere (o ∷ os) r h fit = (h.0, append-FitsIfThere os r h.1 fit)

  pub put-FitsIfThere :
      (i : ℕ) (new : Option (ResultImpl Stmt)) (os : List (Option (ResultImpl Stmt)))
      → All FitsIfThere os
      → FitsIfThere new
      → All FitsIfThere (put i new os)
  unfolding put
  put-FitsIfThere i new [] h fit = tt
  put-FitsIfThere zero new (o ∷ os) h fit = (fit, h.1)
  put-FitsIfThere (suc i) new (o ∷ os) h fit = (h.0, put-FitsIfThere i new os h.1 fit)

  pub lookup-FitsIfThere :
      (i : ℕ) (os : List (Option (ResultImpl Stmt)))
      → All FitsIfThere os
      → FitsIfThere (lookup i os)
  unfolding lookup
  lookup-FitsIfThere i [] h = tt
  lookup-FitsIfThere zero (o ∷ os) h = h.0
  lookup-FitsIfThere (suc i) (o ∷ os) h = lookup-FitsIfThere i os h.1
