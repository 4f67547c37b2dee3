-- ===== src/Column/Seen.antt =====
-- The set of types that a column has seen: std::set::insert and erase on a list that ascends.
use rsqlite.Prelude.{
  ℕ, ◌<◌, ◌≡◌, refl, ap, ◌∙◌, Bool, true, false, not, ◌&&◌, ◌||◌, List, [], ◌∷◌, ltb, ◌==◌,
  if◌then◌else◌, arith,
}
use rsqlite.DataType.{DataType, code, same_type}
use rsqlite.Storage.Blocks.{All}
use rsqlite.Column.{insert, erase}

-- Whether a type is in the set.
abbrev pub contains : DataType → List DataType → Bool
contains t [] = false
contains t (s ∷ seen) = same_type t s || contains t seen

abbrev pub IsAscending : List DataType → Type 0
IsAscending [] = Unit {0}
IsAscending (s ∷ seen) = All (λ t. code s < code t) seen × IsAscending seen

same_either : (t d s : ℕ) (c : Bool) → (d == s) ≡ true → (t == s || c) ≡ (t == d || (t == s || c))
same_either t d s c h = ground arith

or_swap : (a b c : Bool) → (a || (b || c)) ≡ (b || (a || c))
or_swap true true c = refl
or_swap true false c = refl
or_swap false b c = refl

pub contains-insert :
    (t d : DataType) (seen : List DataType)
    → contains t (insert d seen) ≡ (same_type t d || contains t seen)
unfolding insert
contains-insert t d [] = refl
contains-insert t d (s ∷ seen) =
    by_order (ltb (code d) (code s)) (same_type d s) refl (contains-insert t d seen)
  where
    by_order :
        (b e : Bool)
        → same_type d s ≡ e
        → contains t (insert d seen) ≡ (same_type t d || contains t seen)
        → contains t (if b then d ∷ s ∷ seen else if e then s ∷ seen else s ∷ insert d seen)
          ≡ (same_type t d || (same_type t s || contains t seen))
    by_order true e h more = refl
    by_order false true h more = same_either (code t) (code d) (code s) (contains t seen) h
    by_order false false h more =
        ap (λ c. same_type t s || c) more
        ∙ or_swap (same_type t s) (same_type t d) (contains t seen)

insert-All :
    (n : ℕ) (d : DataType) (seen : List DataType)
    → n < code d
    → All (λ t. n < code t) seen
    → All (λ t. n < code t) (insert d seen)
unfolding insert
insert-All n d [] h k = (h, tt)
insert-All n d (s ∷ seen) h k =
    by_order (ltb (code d) (code s)) (same_type d s) (insert-All n d seen h k.1)
  where
    by_order :
        (b e : Bool)
        → All (λ t. n < code t) (insert d seen)
        → All
            (λ t. n < code t)
            (if b then d ∷ s ∷ seen else if e then s ∷ seen else s ∷ insert d seen)
    by_order true e more = (h, k)
    by_order false true more = k
    by_order false false more = (k.0, more)

later : (a b : ℕ) → ltb a b ≡ false → (a == b) ≡ false → b < a
later a b h k = ground arith

earlier : (a b : ℕ) → ltb a b ≡ true → a < b
earlier a b h = ground arith

pub All-later :
    (m n : ℕ) (seen : List DataType)
    → m < n
    → All (λ t. n < code t) seen
    → All (λ t. m < code t) seen
All-later m n [] h k = tt
All-later m n (s ∷ seen) h k = (omega (arith, h, k.0), All-later m n seen h k.1)

pub insert-IsAscending :
    (d : DataType) (seen : List DataType) → IsAscending seen → IsAscending (insert d seen)
unfolding insert
insert-IsAscending d [] h = (tt, tt)
insert-IsAscending d (s ∷ seen) h =
    by_order (ltb (code d) (code s)) (same_type d s) refl refl (insert-IsAscending d seen h.1)
  where
    by_order :
        (b e : Bool)
        → ltb (code d) (code s) ≡ b
        → same_type d s ≡ e
        → IsAscending (insert d seen)
        → IsAscending (if b then d ∷ s ∷ seen else if e then s ∷ seen else s ∷ insert d seen)
    by_order true e k l more = (
      (
        earlier (code d) (code s) k,
        All-later (code d) (code s) seen (earlier (code d) (code s) k) h.0,
      ),
      h,
    )
    by_order false true k l more = h
    by_order false false k l more =
        (insert-All (code s) d seen (later (code d) (code s) k l) h.0, more)

pub contains-above :
    (n : ℕ) (t : DataType) (seen : List DataType)
    → code t ≡ n
    → All (λ s. n < code s) seen
    → contains t seen ≡ false
contains-above n t [] e h = refl
contains-above n t (s ∷ seen) e h =
    rw (unequal (code t) (code s) (omega (arith, e, h.0))) (contains-above n t seen e h.1)
  where
    unequal : (a b : ℕ) → a < b → (a == b) ≡ false
    unequal a b k = ground arith

pub contains-erase :
    (t d : DataType) (seen : List DataType)
    → IsAscending seen
    → contains t (erase d seen) ≡ (contains t seen && not (same_type t d))
unfolding erase
contains-erase t d [] h = refl
contains-erase t d (s ∷ seen) h = by_same (same_type d s) refl (contains-erase t d seen h.1)
  where
    gone :
        (a b e : ℕ) (c : Bool)
        → (b == e) ≡ true
        → (a ≡ e → c ≡ false)
        → c ≡ ((a == e || c) && not (a == b))
    gone a b e c k l = ground arith

    kept :
        (a b e : ℕ) (c : Bool)
        → (b == e) ≡ false
        → (a == e || (c && not (a == b))) ≡ ((a == e || c) && not (a == b))
    kept a b e c k = ground arith

    by_same :
        (b : Bool)
        → same_type d s ≡ b
        → contains t (erase d seen) ≡ (contains t seen && not (same_type t d))
        → contains t (if b then seen else s ∷ erase d seen)
          ≡ ((same_type t s || contains t seen) && not (same_type t d))
    by_same true k more =
        gone (code t) (code d) (code s) (contains t seen) k
          (λ e. contains-above (code s) t seen e h.0)
    by_same false k more =
        ap (λ c. same_type t s || c) more ∙ kept (code t) (code d) (code s) (contains t seen) k

erase-All :
    (n : ℕ) (d : DataType) (seen : List DataType)
    → All (λ t. n < code t) seen
    → All (λ t. n < code t) (erase d seen)
unfolding erase
erase-All n d [] k = tt
erase-All n d (s ∷ seen) k = by_same (same_type d s) (erase-All n d seen k.1)
  where
    by_same :
        (b : Bool)
        → All (λ t. n < code t) (erase d seen)
        → All (λ t. n < code t) (if b then seen else s ∷ erase d seen)
    by_same true more = k.1
    by_same false more = (k.0, more)

pub erase-IsAscending :
    (d : DataType) (seen : List DataType) → IsAscending seen → IsAscending (erase d seen)
unfolding erase
erase-IsAscending d [] h = tt
erase-IsAscending d (s ∷ seen) h = by_same (same_type d s) (erase-IsAscending d seen h.1)
  where
    by_same :
        (b : Bool) → IsAscending (erase d seen) → IsAscending (if b then seen else s ∷ erase d seen)
    by_same true more = h.1
    by_same false more = (erase-All (code s) d seen h.0, more)

-- A set without members is empty.
pub no_members : (seen : List DataType) → ((t : DataType) → contains t seen ≡ false) → seen ≡ []
no_members [] h = refl
no_members (s ∷ seen) h = absurd (self (code s) (contains s seen) (h s))
  where
    self : (a : ℕ) (c : Bool) → (a == a || c) ≡ false → ⊥
    self a c k = ground arith
