-- ===== src/Column/Message.antt =====
-- What the warning of a column should say, by the types that conflict with its type.
use rsqlite.Prelude.{
  ℕ, ◌<◌, ◌≤◌, ◌≡◌, refl, sym, ap, ◌∙◌, Bool, true, false, ◌&&◌, ◌||◌, String, Option, none, some,
  List, [], ◌∷◌, ◌==◌, ==_refl, if◌then◌else◌, arith, Bool-cases, inl, inr,
}
use rsqlite.DataType.{DataType, code, same_type, same_type_iff}
use rsqlite.Storage.Blocks.{All}
use rsqlite.Column.{format_data_type, list_types}
use rsqlite.Column.Seen.{contains, IsAscending, All-later, contains-above, no_members}

-- All types, in the order of the enumeration.
abbrev pub every_type : List DataType
every_type =
    DataType.unknown ∷ DataType.bool ∷ DataType.int ∷ DataType.int64 ∷ DataType.real
    ∷ DataType.string ∷ DataType.blob ∷ DataType.date ∷ DataType.datetime ∷ DataType.datetimetz
    ∷ DataType.time ∷ []

abbrev pub those : (DataType → Bool) → List DataType → List DataType
those p [] = []
those p (t ∷ types) = if p t then t ∷ those p types else those p types

-- The name of a type in the warning; the types of dates and times have none.
abbrev pub type_name : DataType → String
type_name DataType.unknown = "unknown"
type_name DataType.bool = "boolean"
type_name DataType.int = "integer"
type_name DataType.int64 = "integer64"
type_name DataType.real = "real"
type_name DataType.string = "string"
type_name DataType.blob = "blob"
type_name DataType.date = "<unknown type>"
type_name DataType.datetime = "<unknown type>"
type_name DataType.datetimetz = "<unknown type>"
type_name DataType.time = "<unknown type>"

-- The names, with commas between them.
abbrev pub names : DataType → List DataType → List String
names t [] = type_name t ∷ []
names t (s ∷ types) = type_name t ∷ ", " ∷ names s types

-- The warning of a column with a name and a final type, by the types that conflict with it.
abbrev pub warning_of : String → DataType → List DataType → Option (List String)
warning_of name final [] = none
warning_of name final (t ∷ types) = some (
    "Column `"
    ∷ name
    ∷ "`: "
    ∷ "mixed type, first seen values of type "
    ∷ type_name final
    ∷ ", "
    ∷ "coercing other values of type "
    ∷ names t types)

pub format_data_type-name : (t : DataType) → format_data_type t ≡ type_name t
unfolding format_data_type
format_data_type-name DataType.date = refl
format_data_type-name DataType.datetime = refl
format_data_type-name DataType.datetimetz = refl
format_data_type-name DataType.time = refl
format_data_type-name t = refl

more_names :
    (t : DataType) (types : List DataType) → list_types false (t ∷ types) ≡ ", " ∷ names t types
unfolding list_types
more_names t [] = ap (λ x. ", " ∷ x ∷ []) (format_data_type-name t)
more_names t (s ∷ types) =
    ap (λ x. ", " ∷ x ∷ list_types false (s ∷ types)) (format_data_type-name t)
    ∙ ap (λ l. ", " ∷ type_name t ∷ l) (more_names s types)

pub list_types-names :
    (t : DataType) (types : List DataType) → list_types true (t ∷ types) ≡ names t types
unfolding list_types
list_types-names t [] = ap (λ x. x ∷ []) (format_data_type-name t)
list_types-names t (s ∷ types) =
    ap (λ x. x ∷ list_types false (s ∷ types)) (format_data_type-name t)
    ∙ ap (λ l. type_name t ∷ l) (more_names s types)

those-All :
    (n : ℕ) (p : DataType → Bool) (types : List DataType)
    → All (λ t. n < code t) types
    → All (λ t. n < code t) (those p types)
those-All n p [] h = tt
those-All n p (t ∷ types) h = by_test (p t) (those-All n p types h.1)
  where
    by_test :
        (b : Bool)
        → All (λ t. n < code t) (those p types)
        → All (λ t. n < code t) (if b then t ∷ those p types else those p types)
    by_test true more = (h.0, more)
    by_test false more = more

those-IsAscending :
    (p : DataType → Bool) (types : List DataType) → IsAscending types → IsAscending (those p types)
those-IsAscending p [] h = tt
those-IsAscending p (t ∷ types) h = by_test (p t) (those-IsAscending p types h.1)
  where
    by_test :
        (b : Bool)
        → IsAscending (those p types)
        → IsAscending (if b then t ∷ those p types else those p types)
    by_test true more = (those-All (code t) p types h.0, more)
    by_test false more = more

-- A member more, which is one of those or not.
kept : (b c d : Bool) → (b ≡ true → d ≡ true) → (b || (c && d)) ≡ ((b || c) && d)
kept true c d h = sym (h refl)
kept false c d h = refl

dropped : (b c d : Bool) → (b ≡ true → d ≡ false) → (c && d) ≡ ((b || c) && d)
dropped true true d h = refl
dropped true false d h = sym (h refl)
dropped false c d h = refl

contains-those :
    (p : DataType → Bool) (t : DataType) (types : List DataType)
    → contains t (those p types) ≡ (contains t types && p t)
contains-those p t [] = refl
contains-those p t (s ∷ types) = by_test (p s) refl (contains-those p t types)
  where
    as_p : (q : Bool) → p s ≡ q → same_type t s ≡ true → p t ≡ q
    as_p q r e = ap p ((same_type_iff t s).0 e) ∙ r

    by_test :
        (q : Bool)
        → p s ≡ q
        → contains t (those p types) ≡ (contains t types && p t)
        → contains t (if q then s ∷ those p types else those p types)
          ≡ ((same_type t s || contains t types) && p t)
    by_test true r more =
        ap (λ c. same_type t s || c) more
        ∙ kept (same_type t s) (contains t types) (p t) (as_p true r)
    by_test false r more = more ∙ dropped (same_type t s) (contains t types) (p t) (as_p false r)

contains-every : (t : DataType) → contains t every_type ≡ true
contains-every DataType.unknown = refl
contains-every t = refl

every_type-IsAscending : IsAscending every_type
every_type-IsAscending = ground arith

self : (a : ℕ) (c : Bool) → (a == a || c) ≡ true
self a c = ground arith

-- The first member of a set is not below that of a set with the same members.
not_below :
    (a b : DataType) (l m : List DataType)
    → IsAscending (b ∷ m)
    → contains a (a ∷ l) ≡ contains a (b ∷ m)
    → code b ≤ code a
not_below a b l m h e = ground (arith, above)
  where
    above : code a < code b → ⊥
    above k =
        let absent : contains a (b ∷ m) ≡ false =
          contains-above (code a) a (b ∷ m) refl (k, All-later (code a) (code b) m k h.0) in
        let present : contains a (a ∷ l) ≡ true = self (code a) (contains a l) in
        cc (absent, present, e)

unless_first : (b c d : Bool) → b ≡ false → (b || c) ≡ (b || d) → c ≡ d
unless_first true c d h e = absurd (cc h)
unless_first false c d h e = e

-- Sets with the same members are the same list.
same_members :
    (l m : List DataType)
    → IsAscending l
    → IsAscending m
    → ((t : DataType) → contains t l ≡ contains t m)
    → l ≡ m
same_members [] m h k e = sym (no_members m (λ t. sym (e t)))
same_members l [] h k e = no_members l e
same_members (a ∷ l) (b ∷ m) h k e =
    let low : code b ≤ code a = not_below a b l m k (e a) in
    let high : code a ≤ code b = not_below b a m l h (sym (e b)) in
    let same : code a ≡ code b = omega (arith, low, high) in
    let first : a ≡ b = (same_type_iff a b).0 (ap (λ n. n == code b) same ∙ ==_refl (code b)) in
    let rest : (t : DataType) → contains t l ≡ contains t m = λ t.
      elim (Bool-cases (same_type t a)) [
        | inl q ↦
            let here : code t ≡ code a = ap code ((same_type_iff t a).0 q) in
            contains-above (code a) t l here h.0
            ∙ sym (contains-above (code b) t m (here ∙ same) k.0)
        | inr q ↦
            unless_first (same_type t a) (contains t l) (contains t m) q
              (e t ∙ ap (λ s. same_type t s || contains t m) (sym first))
      ] in
    ap (λ s. s ∷ l) first ∙ ap (λ n. b ∷ n) (same_members l m h.1 k.1 rest)

-- A set is the list of those types that are in it.
pub as_those :
    (p : DataType → Bool) (l : List DataType)
    → IsAscending l
    → ((t : DataType) → contains t l ≡ p t)
    → l ≡ those p every_type
as_those p l h e =
    same_members l (those p every_type) h (those-IsAscending p every_type every_type-IsAscending)
      (λ t. e t ∙ sym (contains-those p t every_type ∙ ap (λ c. c && p t) (contains-every t)))
