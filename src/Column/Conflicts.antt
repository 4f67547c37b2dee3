-- ===== src/Column/Conflicts.antt =====
-- The types that a column does not take in, by the set of types that it has seen.
use rsqlite.Prelude.{◌≡◌, refl, ap, ◌∙◌, Bool, true, false, not, ◌&&◌, ◌||◌, List, [], ◌∷◌, arith}
use rsqlite.DataType.{DataType, same_type}
use rsqlite.Source.{DataSource}
use rsqlite.Storage.{get_item_data_type}
use rsqlite.Column.{erase, conflicting_types}
use rsqlite.Column.Seen.{contains, IsAscending, contains-erase, erase-IsAscending}

-- Whether a cell has the type.
abbrev pub any_has : DataType → List DataSource → Bool
any_has t [] = false
any_has t (src ∷ srcs) = same_type t (get_item_data_type src) || any_has t srcs

-- The types that the final type takes in without a warning.
abbrev pub takes_in : DataType → DataType → Bool
takes_in dt t =
    same_type t dt
    || (same_type t DataType.bool
        || (same_type t DataType.unknown
            || (same_type t DataType.int
                && (same_type dt DataType.real || same_type dt DataType.int64))))

three_erased :
    (t dt : DataType) (seen : List DataType)
    → IsAscending seen
    → contains t (erase dt (erase DataType.bool (erase DataType.unknown seen))) ≡ (
        ((contains t seen && not (same_type t DataType.unknown)) && not (same_type t DataType.bool))
        && not (same_type t dt))
three_erased t dt seen h =
    let one = erase-IsAscending DataType.unknown seen h in
    let two = erase-IsAscending DataType.bool (erase DataType.unknown seen) one in
    contains-erase t dt (erase DataType.bool (erase DataType.unknown seen)) two
    ∙ ap (λ c. c && not (same_type t dt))
        (contains-erase t DataType.bool (erase DataType.unknown seen) one
          ∙ ap (λ c. c && not (same_type t DataType.bool))
              (contains-erase t DataType.unknown seen h))

three_erased-IsAscending :
    (dt : DataType) (seen : List DataType)
    → IsAscending seen
    → IsAscending (erase dt (erase DataType.bool (erase DataType.unknown seen)))
three_erased-IsAscending dt seen h =
    erase-IsAscending dt (erase DataType.bool (erase DataType.unknown seen)) (
      erase-IsAscending DataType.bool (erase DataType.unknown seen)
        (erase-IsAscending DataType.unknown seen h))

tidy :
    (c u b d i : Bool)
    → (((c && not u) && not b) && not d) ≡ (c && not (d || (b || (u || (i && false)))))
tidy c u b d i = ground arith

tidy_int :
    (c u b d i : Bool)
    → ((((c && not i) && not u) && not b) && not d) ≡ (c && not (d || (b || (u || (i && true)))))
tidy_int c u b d i = ground arith

-- A type conflicts if it was seen, unless the column's type takes it in.
pub contains-conflicting :
    (t dt : DataType) (seen : List DataType)
    → IsAscending seen
    → contains t (conflicting_types dt seen) ≡ (contains t seen && not (takes_in dt t))
unfolding conflicting_types
contains-conflicting t DataType.real seen h =
    three_erased t DataType.real (erase DataType.int seen) (erase-IsAscending DataType.int seen h)
    ∙ ap
        (λ c.
          ((c && not (same_type t DataType.unknown)) && not (same_type t DataType.bool))
          && not (same_type t DataType.real))
        (contains-erase t DataType.int seen h)
    ∙ tidy_int (contains t seen) (same_type t DataType.unknown) (same_type t DataType.bool)
        (same_type t DataType.real) (same_type t DataType.int)
contains-conflicting t DataType.int64 seen h =
    three_erased t DataType.int64 (erase DataType.int seen) (erase-IsAscending DataType.int seen h)
    ∙ ap
        (λ c.
          ((c && not (same_type t DataType.unknown)) && not (same_type t DataType.bool))
          && not (same_type t DataType.int64))
        (contains-erase t DataType.int seen h)
    ∙ tidy_int (contains t seen) (same_type t DataType.unknown) (same_type t DataType.bool)
        (same_type t DataType.int64) (same_type t DataType.int)
contains-conflicting t dt seen h =
    three_erased t dt seen h
    ∙ tidy (contains t seen) (same_type t DataType.unknown) (same_type t DataType.bool)
        (same_type t dt) (same_type t DataType.int)

pub regroup : (a b c : Bool) → (a || (b || c)) ≡ ((b || a) || c)
regroup true true c = refl
regroup true false c = refl
regroup false true c = refl
regroup false false c = refl

pub or_nil : (a : Bool) → (a || false) ≡ a
or_nil true = refl
or_nil false = refl

pub conflicting-IsAscending :
    (dt : DataType) (seen : List DataType)
    → IsAscending seen
    → IsAscending (conflicting_types dt seen)
unfolding conflicting_types
conflicting-IsAscending DataType.real seen h =
    three_erased-IsAscending DataType.real (erase DataType.int seen)
      (erase-IsAscending DataType.int seen h)
conflicting-IsAscending DataType.int64 seen h =
    three_erased-IsAscending DataType.int64 (erase DataType.int seen)
      (erase-IsAscending DataType.int seen h)
conflicting-IsAscending dt seen h = three_erased-IsAscending dt seen h
