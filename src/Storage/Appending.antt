-- ===== src/Storage/Appending.antt =====
-- append_col refines "one more row": whatever block the row goes to, the column shows it last.
use rsqlite.Prelude.{
  ℕ, ◌<◌, ◌≡◌, ◌≢◌, sym, ap, ◌∙◌, inl, inr, ℤ, false, true, none, some, Option, List, [], ◌∷◌, ◌++◌,
  map, length, lt→ltb, leb, Bool-cases, if◌then◌else◌, arith,
}
use mathlib.Core.List.{map-append}
use rsqlite.Outcome.{ok}
use rsqlite.DataType.{DataType}
use rsqlite.Runtime.{Slot, Runtime, IsRuntime}
use rsqlite.Source.{DataSource}
use rsqlite.Storage.{
  Storage, Appended, this, get_capacity, new_storage, append_null, append_data, append_col,
}
use rsqlite.Storage.Blocks.{
  IsBlock, IsTyped, next_type, fits, na_slot, value_slot, value_warnings, widen, widen-na_slot,
  shown, rows, has_view-na_slot, has_view-value_slot, next_type-ne-unknown,
}
use rsqlite.Storage.Rendering.{fill_default_value_lem}
use rsqlite.Storage.Growth.{outcome, append_data_lem, new_storage-IsBlock, new_storage-capacity}
use rsqlite.Storage.Widening.{stored}
use rsqlite.Storage.Writing.{
  cell, type_after, cell_warnings, shown_rows, IsAppended, type_after-value, cell_warnings-value,
  put_last, no_overflow, rows-put_last, put_last-IsBlock, past_end, rows-past_end, past_end-IsBlock,
}

module _ (rt : Runtime) where
  show_last :
      (final : DataType) (rs : List (Option Slot)) (r : Option Slot) (all : List (Option Slot))
      → all ≡ rs ++ (r ∷ [])
      → map (shown rt final) all ≡ map (shown rt final) rs ++ (shown rt final r ∷ [])
  show_last final rs r all e = rw (e, map-append)

  -- A NULL, stored or past the end.
  append_null_lem :
      (st : Storage) (src : DataSource)
      → IsBlock st
      → src.is_null ≡ true
      → (a : Appended) × (append_null st ≡ ok a) × IsAppended rt st src a
  append_null_lem st src good null = elim (Bool-cases (leb (get_capacity st) st.i)) [
    | inl full ↦ (
      this (past_end st) [],
      unfold append_null in ground arith,
      record {
        block = past_end-IsBlock st good (ground arith);
        type = unfold type_after in rw null;
        warnings = unfold cell_warnings in rw null;
        rows = λ final fit.
            unfold cell shown in
            rw null (
              show_last final (rows st) none (rows (past_end st))
                (rows-past_end st (ground arith)));
      },
    )
    | inr space ↦
        stored_null (λ e. absurd (omega (arith, ap length (good.empty e), room space))) (room space)
  ]
    where
      room : leb (get_capacity st) st.i ≡ false → st.i < get_capacity st
      room e = ground arith

      stored_null :
          st.dt ≢ DataType.unknown
          → st.i < get_capacity st
          → (a : Appended) × (append_null st ≡ ok a) × IsAppended rt st src a
      stored_null known h = (
        this (put_last st (na_slot st.dt)) [],
        unfold append_null in
            rw (
              lt→ltb st.i (get_capacity st) h,
              fill_default_value_lem st.block st.dt st.i known good.kind h,
            ),
        record {
          block = put_last-IsBlock st (na_slot st.dt) good known h (has_view-na_slot st.dt known);
          type = unfold type_after in rw null;
          warnings = unfold cell_warnings in rw null;
          rows = λ final fit.
              show_last final (rows st) (some (na_slot st.dt)) (rows (put_last st (na_slot st.dt)))
                (rows-put_last st (na_slot st.dt) h)
              ∙ ap (λ s. shown_rows rt final st ++ (s ∷ []))
                  (unfold cell shown in
                    rw null
                      (widen-na_slot rt st.dt final known (unfold type_after in (rw null at fit))));
        },
      )

  cell-value :
      (final dt : DataType) (src : DataSource)
      → src.is_null ≡ false
      → cell rt final dt src ≡ widen rt final (value_slot dt src)
  unfolding cell
  cell-value final dt src value =
      ap (λ b. if b then na_slot final else widen rt final (value_slot dt src)) value

  -- A value, in the block or as the first one of another.
  value_rows :
      (st : Storage) (src : DataSource) (final : DataType)
      → src.is_null ≡ false
      → st.i < get_capacity st
      → shown_rows rt final (stored st src)
        ≡ shown_rows rt final st ++ (cell rt final st.dt src ∷ [])
  unfolding shown
  value_rows st src final value h =
      show_last final (rows st) (some (value_slot st.dt src)) (rows (stored st src))
        (rows-put_last st (value_slot st.dt src) h)
      ∙ ap (λ s. shown_rows rt final st ++ (s ∷ [])) (sym (cell-value final st.dt src value))

  pub new_storage-rows :
      (final dt : DataType) (c : ℕ) (n : ℤ) → shown_rows rt final (new_storage rt dt c n) ≡ []
  unfolding rows new_storage
  new_storage-rows final dt c n =
      rw (no_overflow 0 (length (new_storage rt dt c n).block.slots) (omega arith))

module _ (rt : Runtime) (laws : IsRuntime rt) where
  append_value_lem :
      (st : Storage) (src : DataSource)
      → IsBlock st
      → src.is_null ≡ false
      → src.get_data_type ≢ DataType.unknown
      → (a : Appended) × (append_data rt 3 st src ≡ ok a) × IsAppended rt st src a
  append_value_lem st src good value typed = elim (append_data_lem rt laws st src good typed) [
    | inl (typed_block, h, same, e) ↦ (
      this (stored st src) (value_warnings st.dt src),
      e,
      record {
        block =
            put_last-IsBlock st (value_slot st.dt src) good typed_block h
              (has_view-value_slot st.dt src typed_block);
        type = sym (after ∙ same);
        warnings = sym (
            cell_warnings-value (type_after st.dt src) src value
            ∙ ap (λ d. value_warnings d src) (after ∙ same));
        rows = λ final fit.
            value_rows rt st src final value h
            ∙ ap (λ d. shown_rows rt final st ++ (cell rt final d src ∷ [])) (sym (after ∙ same));
      },
    )
    | inr (c, e) ↦ (outcome rt laws true next c st.n_max src, e, moved c)
  ]
    where
      next : DataType
      next = next_type st.dt src.get_data_type

      after : type_after st.dt src ≡ next
      after = type_after-value st.dt src value

      known : next ≢ DataType.unknown
      known = next_type-ne-unknown st.dt src.get_data_type typed

      moved : (c : ℕ) → IsAppended rt st src (outcome rt laws true next c st.n_max src)
      moved c =
          unfold new_storage in
          record {
            block =
                put_last-IsBlock (new_storage rt next c st.n_max) (value_slot next src)
                  (new_storage-IsBlock rt laws next c st.n_max) known
                  (new_storage-capacity rt laws next c st.n_max known)
                  (has_view-value_slot next src known);
            type = sym after;
            warnings = sym (
                cell_warnings-value (type_after st.dt src) src value
                ∙ ap (λ d. value_warnings d src) after);
            rows = λ final fit.
                value_rows rt (new_storage rt next c st.n_max) src final value
                  (new_storage-capacity rt laws next c st.n_max known)
                ∙ ap (λ l. l ++ (cell rt final next src ∷ []))
                    (new_storage-rows rt final next c st.n_max)
                ∙ ap (λ d. cell rt final d src ∷ []) (sym after);
          }

  when_null :
      (st : Storage) (src : DataSource) → src.is_null ≡ true → append_col rt st src ≡ append_null st
  unfolding append_col
  when_null st src e = ap (λ b. if b then append_null st else append_data rt 3 st src) e

  when_value :
      (st : Storage) (src : DataSource)
      → src.is_null ≡ false
      → append_col rt st src ≡ append_data rt 3 st src
  unfolding append_col
  when_value st src e = ap (λ b. if b then append_null st else append_data rt 3 st src) e

  -- append_col never fails, and makes one row of the cell after those that the column has.
  pub append_col_lem :
      (st : Storage) (src : DataSource)
      → IsBlock st
      → IsTyped src
      → (a : Appended) × (append_col rt st src ≡ ok a) × IsAppended rt st src a
  append_col_lem st src good typed = elim (Bool-cases src.is_null) [
    | inl null ↦
        let (a, e, r) = append_null_lem rt st src good null in (a, when_null st src null ∙ e, r)
    | inr value ↦
        let (a, e, r) = append_value_lem st src good value (typed value) in
        (a, when_value st src value ∙ e, r)
  ]

  -- For a well-formed block and a cell that has a type if it is not NULL, append_col does not fail.
  -- The block that it returns is well formed, has the type that the cell leads to, and shows, in a
  -- column of any type that takes this one in, the rows of before (none of them if it is a new
  -- block) and then the cell; the warnings are those of the conversion.
  pub append_col-row :
      (st : Storage) (src : DataSource) (final : DataType)
      → IsBlock st
      → IsTyped src
      → fits (type_after st.dt src) final ≡ true
      → (a : Appended) × (append_col rt st src ≡ ok a)
        × IsBlock a.storage
        × (a.storage.dt ≡ type_after st.dt src)
        × (a.warnings ≡ cell_warnings (type_after st.dt src) src)
        × (shown_rows rt final a.storage
            ≡ (if a.is_new then [] else shown_rows rt final st)
              ++ (cell rt final (type_after st.dt src) src ∷ []))
  append_col-row st src final good typed fit =
      let (a, e, r) = append_col_lem st src good typed in
      (a, e, r.block, r.type, r.warnings, r.rows final fit)
