-- ===== src/ResultImpl/Rounds.antt =====
-- Whether the loop of fetch_rows() goes on, for a limit and without one.
use rsqlite.Prelude.{
  ℕ, zero, suc, ◌+◌, ◌≤◌, ◌<◌, ◌≡◌, refl, ap, ℤ, pos, negsuc, ltb_ℤ, Bool, true, false, ◌&&◌, ◌||◌,
  ◌%◌, ◌==◌, ◌⊎◌, inl, inr, List, [], ◌∷◌, map, length, take, arith,
}
use rsqlite.Outcome.{Result, ok, stop}
use rsqlite.Source.{Warning}
use rsqlite.DataFrame.{DbDataFrame, advance}
use rsqlite.ResultImpl.{Sqlite, ResultImpl}
use rsqlite.ResultImpl.Answers.{Stands}

-- The loop ends without an error, and the result stands at the rows `rest`.
abbrev pub Ends :
    {Stmt : Type 0}
    → Sqlite Stmt
    → List Stmt
    → Result (DbDataFrame × List Warning) × ResultImpl Stmt
    → Type 0
Ends sq rest (stop e, s) = ⊥
Ends sq rest (ok x, s) = Stands sq s rest

-- The fuel lasts: the fetch has no limit and there are at most `f` rows, or its limit is in `f`
-- rows.
abbrev pub Room : {A : Type 0} → ℕ → DbDataFrame → List A → Type 0
Room f df rows =
    ((m : ℕ) × (df.n_max ≡ negsuc m) × (length rows ≤ f)) ⊎ ((df.n_max ≡ pos (df.i + f)) × (0 < f))

pub advance-calm :
    (b : Bool) (df : DbDataFrame)
    → b ≡ false
    → advance b df
      ≡ ok (record df { i = suc df.i }, ltb_ℤ df.n_max (pos 0) || ltb_ℤ (pos (suc df.i)) df.n_max)
unfolding advance
advance-calm true df h = absurd (cc h)
advance-calm false df h = rw (none_due (suc df.i % 1024 == 0)) refl
  where
    none_due : (a : Bool) → (a && false) ≡ false
    none_due true = refl
    none_due false = refl

-- Whether advance() lets the loop go on.
abbrev pub asks_more : DbDataFrame → Bool
asks_more df = ltb_ℤ df.n_max (pos 0) || ltb_ℤ (pos (suc df.i)) df.n_max

pub asks_more_lem :
    {A : Type 0} (f : ℕ) (df : DbDataFrame) (t : A) (more : List A)
    → Room (suc f) df (t ∷ more)
    → (asks_more df ≡ false → f ≡ 0)
      × (asks_more df ≡ true → Room f (record df { i = suc df.i }) more)
asks_more_lem f df t more (inl (m, e, le)) =
    rw e ((λ h. absurd (cc h)), (λ h. inl (m, refl, omega (arith, le))))
asks_more_lem f df t more (inr (e, lt)) =
    rw e ((λ h. last df.i h), (λ h. inr (ap pos (omega arith), again df.i h)))
  where
    last :
        (i : ℕ)
        → (ltb_ℤ (pos (i + suc f)) (pos 0) || ltb_ℤ (pos (suc i)) (pos (i + suc f))) ≡ false
        → f ≡ 0
    last i h = ground arith

    again :
        (i : ℕ)
        → (ltb_ℤ (pos (i + suc f)) (pos 0) || ltb_ℤ (pos (suc i)) (pos (i + suc f))) ≡ true
        → 0 < f
    again i h = ground arith

-- Without a limit the fuel is at least the number of the rows; else it is the limit, which is not
-- 0.
abbrev pub Suffices : {A : Type 0} → ℕ → ℤ → List A → Type 0
Suffices f n_max rows =
    ((m : ℕ) × (n_max ≡ negsuc m) × (length rows ≤ f)) ⊎ ((n_max ≡ pos f) × (0 < f))

pub map-take :
    {A B : Type 0} (g : A → B) (n : ℕ) (xs : List A) → take n (map g xs) ≡ map g (take n xs)
map-take g zero xs = refl
map-take g (suc n) [] = refl
map-take g (suc n) (x ∷ xs) = ap (λ ys. g x ∷ ys) (map-take g n xs)
