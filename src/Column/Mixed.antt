-- ===== src/Column/Mixed.antt =====
-- What a column warns of at its end.
use rsqlite.Prelude.{
  ℕ, ◌≡◌, refl, sym, ap, ◌∙◌, ℤ, String, Option, none, some, true, not, ◌&&◌, ◌||◌, Bool-cases, inl,
  inr, List, [], ◌∷◌, ◌++◌,
}
use mathlib.Core.Path.{subst, ap₂}
use rsqlite.Outcome.{Result, ok, stop, ◌>>=◌}
use rsqlite.DataType.{DataType, same_type}
use rsqlite.Runtime.{Runtime}
use rsqlite.Source.{DataSource, Warning}
use rsqlite.Storage.{Appended, append_col, get_item_data_type}
use rsqlite.Column.{
  DbColumn, insert, conflicting_types, warn_type_conflicts, get_type, format_data_type, list_types,
  new_column, push_back, set_col_value, set_rows,
}
use rsqlite.Column.Seen.{contains, IsAscending, contains-insert, insert-IsAscending}
use rsqlite.Column.Message.{
  every_type, those, warning_of, format_data_type-name, list_types-names, as_those,
}
use rsqlite.Column.Conflicts.{
  any_has, takes_in, contains-conflicting, conflicting-IsAscending, regroup, or_nil,
}

module _ (rt : Runtime) where
  set_col_value-seen :
      (col next : DbColumn) (src : DataSource) (w : List Warning)
      → set_col_value rt col src ≡ ok (next, w)
      → next.data_types_seen ≡ insert (get_item_data_type src) col.data_types_seen
  unfolding set_col_value push_back
  set_col_value-seen col next src w run = by_append (append_col rt col.last src) run
    where
      seen : List DataType
      seen = insert (get_item_data_type src) col.data_types_seen

      pushed :
          (a : Appended)
          → (push_back (record col { data_types_seen = seen }) a).data_types_seen ≡ seen
      pushed a = elim (Bool-cases a.is_new) [ inl e ↦ rw e refl | inr e ↦ rw e refl ]

      by_append :
          (x : Result Appended)
          → ◌>>=◌ {B = DbColumn × List Warning} x
              (λ a. ok (push_back (record col { data_types_seen = seen }) a, a.warnings))
            ≡ ok (next, w)
          → next.data_types_seen ≡ seen
      by_append (ok a) e =
          let same : push_back (record col { data_types_seen = seen }) a ≡ next = cc e in
          sym (ap (λ (c : DbColumn). c.data_types_seen) same) ∙ pushed a
      by_append (stop e') e = absurd (cc e)

  set_rows-seen :
      (col end : DbColumn) (srcs : List DataSource) (w : List Warning)
      → IsAscending col.data_types_seen
      → set_rows rt col srcs ≡ ok (end, w)
      → IsAscending end.data_types_seen
        × ((t : DataType)
            → contains t end.data_types_seen ≡ (any_has t srcs || contains t col.data_types_seen))
  unfolding set_rows
  set_rows-seen col end [] w h run =
      let same : col ≡ end = cc run in
      (
        subst (λ (c : DbColumn). IsAscending c.data_types_seen) same h,
        λ t. ap (λ (c : DbColumn). contains t c.data_types_seen) (sym same),
      )
  set_rows-seen col end (src ∷ srcs) w h run =
      by_first (set_col_value rt col src) refl run
        (λ next w' h' run'. set_rows-seen next end srcs w' h' run')
    where
      by_rest :
          (next : DbColumn) (v : List Warning) (y : Result (DbColumn × List Warning))
          → set_rows rt next srcs ≡ y
          → ◌>>=◌ {B = DbColumn × List Warning} y (λ (last, more). ok (last, v ++ more))
            ≡ ok (end, w)
          → (w' : List Warning) × (set_rows rt next srcs ≡ ok (end, w'))
      by_rest next v (stop e') k e = absurd (cc e)
      by_rest next v (ok (last, more)) k e =
          let same : last ≡ end = cc e in (more, k ∙ ap (λ c. ok (c, more)) same)

      by_first :
          (x : Result (DbColumn × List Warning))
          → set_col_value rt col src ≡ x
          → ◌>>=◌ {B = DbColumn × List Warning} x (λ (next, warnings).
            set_rows rt next srcs >>= λ (last, more). ok (last, warnings ++ more))
            ≡ ok (end, w)
          → ((next : DbColumn) (w' : List Warning)
              → IsAscending next.data_types_seen
              → set_rows rt next srcs ≡ ok (end, w')
              → IsAscending end.data_types_seen
                × ((t : DataType)
                    → contains t end.data_types_seen
                      ≡ (any_has t srcs || contains t next.data_types_seen)))
          → IsAscending end.data_types_seen
            × ((t : DataType)
                → contains t end.data_types_seen ≡ (
                    (same_type t (get_item_data_type src) || any_has t srcs)
                    || contains t col.data_types_seen))
      by_first (stop e') k e more = absurd (cc e)
      by_first (ok (next, v)) k e more =
          let (w', rest) = by_rest next v (set_rows rt next srcs) refl e in
          let here = set_col_value-seen col next src v k in
          let (up, all) =
            more next w'
              (rw here (insert-IsAscending (get_item_data_type src) col.data_types_seen h)) rest in
          (
            up,
            λ t.
                all t
                ∙ ap (λ l. any_has t srcs || contains t l) here
                ∙ ap (λ c. any_has t srcs || c)
                    (contains-insert t (get_item_data_type src) col.data_types_seen)
                ∙ regroup (any_has t srcs) (same_type t (get_item_data_type src))
                    (contains t col.data_types_seen),
          )

  warning_lem :
      (col : DbColumn) (now : DataSource) (name : String)
      → warn_type_conflicts col now name
        ≡ warning_of name
            (get_type col now)
            (conflicting_types (get_type col now) col.data_types_seen)
  unfolding warn_type_conflicts
  warning_lem col now name = by_types (conflicting_types (get_type col now) col.data_types_seen)
    where
      message : String → List String → List String
      message final types =
          "Column `" ∷ name ∷ "`: " ∷ "mixed type, first seen values of type " ∷ final ∷ ", "
          ∷ "coercing other values of type " ∷ types

      by_types :
          (l : List DataType)
          → (elim l as (λ x. Option (List String)) [
            | [] ↦ none
            | t ∷ types ↦ some (
                "Column `"
                ∷ name
                ∷ "`: "
                ∷ "mixed type, first seen values of type "
                ∷ format_data_type (get_type col now)
                ∷ ", "
                ∷ "coercing other values of type "
                ∷ list_types true (t ∷ types))
          ])
            ≡ warning_of name (get_type col now) l
      by_types [] = refl
      by_types (t ∷ types) =
          ap₂ (λ x l. some (message x l)) (format_data_type-name (get_type col now))
            (list_types-names t types)

  -- The types that some cell had and that the column's type does not take in.
  abbrev pub mixed : DataType → List DataSource → List DataType
  mixed final srcs = those (λ t. any_has t srcs && not (takes_in final t)) every_type

  -- If rows were added to a new column, then at its end it warns with its name, the name of its
  -- type, and the names of all types, in the order of the enumeration and with commas between them,
  -- that some cell had and that the column's type does not take in; dates and times stand there as
  -- "<unknown type>". It does not warn if there is no such type. A type takes in itself, DT_UNKNOWN
  -- and DT_BOOL, and DT_INT64 and DT_REAL also DT_INT.
  pub warn_type_conflicts_lem :
      (dt : DataType) (n_max : ℤ) (j : ℕ) (srcs : List DataSource) (col : DbColumn)
      (w : List Warning) (now : DataSource) (name : String)
      → set_rows rt (new_column rt dt n_max j) srcs ≡ ok (col, w)
      → warn_type_conflicts col now name
        ≡ warning_of name (get_type col now) (mixed (get_type col now) srcs)
  warn_type_conflicts_lem dt n_max j srcs col w now name run =
      let (up, seen) =
        set_rows-seen (new_column rt dt n_max j) col srcs w (unfold new_column in tt) run in
      let final : DataType = get_type col now in
      warning_lem col now name
      ∙ ap (warning_of name final) (
          as_those (λ t. any_has t srcs && not (takes_in final t))
            (conflicting_types final col.data_types_seen)
            (conflicting-IsAscending final col.data_types_seen up)
            (λ t.
              contains-conflicting t final col.data_types_seen up
              ∙ ap (λ c. c && not (takes_in final t))
                  (seen t ∙ unfold new_column in or_nil (any_has t srcs))))
