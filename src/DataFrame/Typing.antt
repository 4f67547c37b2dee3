-- ===== src/DataFrame/Typing.antt =====
-- The R vectors of a data frame have the types that the result keeps for its columns.
use rsqlite.Prelude.{ℕ, ◌+◌, ◌≡◌, ◌≢◌, refl, ◌∙◌, List, [], ◌∷◌, ◌++◌, length, map}
use rsqlite.DataType.{DataType}
use rsqlite.Runtime.{
  Sexp, SexpType, Runtime, IsRuntime, Attribute, class_, tzone, nilsxp, lglsxp, intsxp, realsxp,
  strsxp, vecsxp,
}
use rsqlite.Source.{DataSource}
use rsqlite.Storage.{
  Storage, allocate, set_class, class_from_datatype, set_attribs_from_datatype,
  sexptype_from_datatype,
}
use rsqlite.Storage.Growth.{allocate-type, length-allocate}
use rsqlite.Storage.Shape.{
  IfOk, gave, bind-IfOk, IfOk-map, IsShaped, IsShaped-refl, IsShaped-trans, copy_to-IsShaped,
}
use rsqlite.Column.{DbColumn, copy_blocks, to_sexp, get_type, finalize}
use rsqlite.DataFrame.{Row, DbDataFrame, FrameData, to_sexps, get_data, column_types, finalize_cols}

module _ (rt : Runtime) (laws : IsRuntime rt) where
  copy_blocks-IsShaped :
      (blocks : List Storage) (x : Sexp) (dt : DataType) (pos : ℕ)
      → IfOk (IsShaped x) (copy_blocks rt blocks x dt pos)
  unfolding copy_blocks
  copy_blocks-IsShaped [] x dt pos = gave (IsShaped-refl x)
  copy_blocks-IsShaped (st ∷ blocks) x dt pos =
      bind-IfOk (copy_to-IsShaped rt st x dt pos) (λ (y, n) h.
        IfOk-map (copy_blocks-IsShaped blocks y dt (pos + n)) (λ z. IsShaped-trans x y z h))

  to_sexp-IsShaped :
      (col : DbColumn) (src : DataSource)
      → IfOk (IsShaped (allocate rt col.n (get_type col src))) (to_sexp rt col src)
  unfolding to_sexp
  to_sexp-IsShaped col src =
      copy_blocks-IsShaped (col.front ++ (col.last ∷ [])) (allocate rt col.n (get_type col src))
        (get_type col src) 0

  -- R's type for a column of each type: a number of 64 bits, a date and a time are doubles there.
  abbrev pub vector_type : DataType → SexpType
  vector_type DataType.unknown = nilsxp
  vector_type DataType.bool = lglsxp
  vector_type DataType.int = intsxp
  vector_type DataType.string = strsxp
  vector_type DataType.blob = vecsxp
  vector_type _ = realsxp

  as_vector_type : (dt : DataType) → sexptype_from_datatype dt ≡ vector_type dt
  unfolding sexptype_from_datatype
  as_vector_type DataType.int64 = refl
  as_vector_type dt = refl

  -- The attributes that R sees on a vector of `n` slots, by the type of the column. Those of a blob
  -- and of a time are what the packages blob and hms make of a vector without attributes.
  abbrev pub attributes_of : ℕ → DataType → List Attribute
  attributes_of n DataType.int64 = class_ ("integer64" ∷ []) ∷ []
  attributes_of n DataType.date = class_ ("Date" ∷ []) ∷ []
  attributes_of n DataType.datetime = tzone "UTC" ∷ class_ ("POSIXct" ∷ "POSIXt" ∷ []) ∷ []
  attributes_of n DataType.datetimetz = class_ ("POSIXct" ∷ "POSIXt" ∷ []) ∷ []
  attributes_of n DataType.blob =
      (rt.new_blob
        (record { type = vecsxp; slots = rt.alloc_vector vecsxp n; attributes = [] })).attributes
  attributes_of n DataType.time =
      (rt.new_hms
        (record { type = realsxp; slots = rt.alloc_vector realsxp n; attributes = [] })).attributes
  attributes_of n _ = []

  -- A vector of R for a column of type `dt` and `n` rows.
  pub record IsVector (n : ℕ) (dt : DataType) (x : Sexp) : Type 0 where
    pub type : x.type ≡ vector_type dt
    pub len : dt ≢ DataType.unknown → length x.slots ≡ n
    pub attributes : x.attributes ≡ attributes_of n dt

  allocate-attributes : (n : ℕ) (dt : DataType) → (allocate rt n dt).attributes ≡ attributes_of n dt
  unfolding allocate set_class class_from_datatype set_attribs_from_datatype sexptype_from_datatype
  allocate-attributes n DataType.int64 = refl
  allocate-attributes n _ = refl

  shaped-IsVector :
      (n : ℕ) (dt : DataType) (x : Sexp) → IsShaped (allocate rt n dt) x → IsVector n dt x
  shaped-IsVector n dt x h = record {
    type = h.type ∙ allocate-type rt laws n dt ∙ as_vector_type dt;
    len = λ known. h.len ∙ length-allocate rt laws n dt known;
    attributes = h.attributes ∙ allocate-attributes n dt;
  }

  -- A vector for each type.
  abbrev pub Typed : ℕ → List DataType → List Sexp → Type 0
  Typed n [] [] = Unit
  Typed n [] (x ∷ xs) = ⊥
  Typed n (dt ∷ types) [] = ⊥
  Typed n (dt ∷ types) (x ∷ xs) = IsVector n dt x × Typed n types xs

  to_sexps-Typed :
      (n : ℕ) (columns : List DbColumn) (row : Row)
      → let final = map (λ c. finalize c n) columns in
        IfOk (Typed n (map (λ (c : DbColumn). get_type c (row c.j)) final)) (to_sexps rt final row)
  unfolding to_sexps to_sexp copy_blocks finalize
  to_sexps-Typed n [] row = gave tt
  to_sexps-Typed n (col ∷ columns) row =
      bind-IfOk (to_sexp-IsShaped (finalize col n) (row col.j)) (λ x h.
        bind-IfOk (to_sexps-Typed n columns row)
          (λ xs hs. gave (shaped-IsVector n (get_type (finalize col n) (row col.j)) x h, hs)))

  -- What R gets has vectors of the types that are kept, with as many slots as the frame has
  -- rows.
  pub get_data-Typed :
      (df : DbDataFrame) (row : Row)
      → IfOk
          (λ (out : FrameData).
            (out.types ≡ column_types df row)
            × Typed out.frame.row_count out.types out.frame.columns)
          (get_data rt df row)
  unfolding get_data finalize_cols
  get_data-Typed df row = bind-IfOk (to_sexps-Typed df.i df.columns row) (λ xs h. gave (refl, h))
