-- ===== src/Storage/Growth.antt =====
-- append_col and what it calls: which block a value goes to.
use rsqlite.Prelude.{
  ℕ, suc, ◌≤◌, ◌<◌, ◌≡◌, ◌≢◌, refl, ap, ◌∙◌, ◌⊎◌, inl, inr, ℤ, Bool, false, true, [], length, leb,
  lt→not-leb, le→leb, Bool-cases, arith,
}
use rsqlite.Outcome.{Result, ok}
use rsqlite.DataType.{DataType, unknown-cases, not-unknown}
use rsqlite.Runtime.{Runtime, IsRuntime, nilsxp}
use rsqlite.Source.{DataSource}
use rsqlite.Storage.{
  Storage, Appended, this, sexptype_from_datatype, get_capacity, desired_capacity, get_new_capacity,
  allocate, new_storage, append_data_to_new, append_data_with, append_data,
}
use rsqlite.Storage.Blocks.{IsBlock, next_type, value_warnings}
use rsqlite.Storage.Widening.{
  stored, fetch_value_lem, stays, next_type-cases, is_unknown, next_unknown, next_type_self,
  int-known, widens-int64, widens-real,
}

module _ (rt : Runtime) (laws : IsRuntime rt) where
  -- A new vector has the slots of its type.
  pub allocate-type : (n : ℕ) (dt : DataType) → (allocate rt n dt).type ≡ sexptype_from_datatype dt
  unfolding allocate
  allocate-type n DataType.blob = laws.blob_type _
  allocate-type n DataType.time = laws.hms_type _
  allocate-type n dt = refl

  allocate-slots :
      (n : ℕ) (dt : DataType)
      → (allocate rt n dt).slots ≡ rt.alloc_vector (sexptype_from_datatype dt) n
  unfolding allocate
  allocate-slots n DataType.blob = laws.blob_slots _
  allocate-slots n DataType.time = laws.hms_slots _
  allocate-slots n dt = refl

  new_capacity_pos : (n : ℤ) (c : ℕ) → 0 < get_new_capacity n c
  unfolding get_new_capacity
  new_capacity_pos n c = ground arith

  sexptype-ne-nilsxp : (dt : DataType) → dt ≢ DataType.unknown → sexptype_from_datatype dt ≢ nilsxp
  unfolding sexptype_from_datatype
  sexptype-ne-nilsxp DataType.unknown h e = h refl
  sexptype-ne-nilsxp dt h e = cc

  pub length-allocate :
      (n : ℕ) (dt : DataType) → dt ≢ DataType.unknown → length (allocate rt n dt).slots ≡ n
  length-allocate n dt known =
      ap length (allocate-slots n dt)
      ∙ laws.alloc_length (sexptype_from_datatype dt) n
          (λ e. absurd (sexptype-ne-nilsxp dt known e))

  pub new_storage-capacity :
      (dt : DataType) (c : ℕ) (n : ℤ)
      → dt ≢ DataType.unknown
      → 0 < get_capacity (new_storage rt dt c n)
  unfolding new_storage
  new_storage-capacity dt c n known =
      omega (arith, length-allocate (get_new_capacity n c) dt known, new_capacity_pos n c)

  no_slots : (dt : DataType) (n : ℕ) → dt ≡ DataType.unknown → (allocate rt n dt).slots ≡ []
  no_slots dt n e = allocate-slots n dt ∙ rw e (unfold sexptype_from_datatype in laws.alloc_nil n)

  new_storage-kind :
      (dt : DataType) (c : ℕ) (n : ℤ)
      → (new_storage rt dt c n).block.type ≡ sexptype_from_datatype dt
  unfolding new_storage
  new_storage-kind dt c n = allocate-type (get_new_capacity n c) dt

  pub new_storage-IsBlock : (dt : DataType) (c : ℕ) (n : ℤ) → IsBlock (new_storage rt dt c n)
  unfolding new_storage
  new_storage-IsBlock dt c n = record {
    kind = new_storage-kind dt c n;
    views = tt;
    empty = no_slots dt (get_new_capacity n c);
  }

  -- append_data() where the value goes into the block itself, and where it asks for a new one.
  append_here :
      (f : ℕ) (st : Storage) (src : DataSource)
      → st.dt ≢ DataType.unknown
      → st.block.type ≡ sexptype_from_datatype st.dt
      → st.i < get_capacity st
      → next_type st.dt src.get_data_type ≡ st.dt
      → append_data rt (suc f) st src ≡ ok (this (stored st src) (value_warnings st.dt src))
  unfolding append_data append_data_with
  append_here f st src known kind h same = rw (
    fetch_value_lem st src known kind h,
    not-unknown st.dt known,
    lt→not-leb (get_capacity st) st.i h,
    (stays st.dt src.get_data_type same known).0,
    (stays st.dt src.get_data_type same known).1,
  )

  -- The value as the first one of a new block.
  abbrev pub first_of : DataType → ℕ → ℤ → DataSource → Storage
  first_of dt c n src = stored (new_storage rt dt c n) src

  first_here :
      (f c : ℕ) (n : ℤ) (dt : DataType) (src : DataSource)
      → dt ≢ DataType.unknown
      → next_type dt src.get_data_type ≡ dt
      → append_data rt (suc f) (new_storage rt dt c n) src
        ≡ ok (this (first_of dt c n src) (value_warnings dt src))
  unfolding new_storage
  first_here f c n dt src known same =
      append_here f (new_storage rt dt c n) src known (new_storage-kind dt c n)
        (new_storage-capacity dt c n known) same

  abbrev pub outcome : Bool → DataType → ℕ → ℤ → DataSource → Appended
  outcome is_new dt c n src = record {
    is_new = is_new;
    storage = first_of dt c n src;
    warnings = value_warnings dt src;
  }

  -- The value became the first one of a block of type `dt`.
  abbrev Placed : DataType → ℤ → DataSource → Result Appended → Type 0
  Placed dt n src r = (is_new : Bool) × (c : ℕ) × (r ≡ ok (outcome is_new dt c n src))

  abbrev pub Moved : DataType → ℤ → DataSource → Result Appended → Type 0
  Moved dt n src r = (c : ℕ) × (r ≡ ok (outcome true dt c n src))

  asks :
      (f : ℕ) (st : Storage) (src : DataSource) (dt final : DataType)
      → dt ≢ DataType.unknown
      → Placed final st.n_max src
          (append_data rt f (new_storage rt dt (desired_capacity st) st.n_max) src)
      → Moved final st.n_max src (append_data_to_new rt (λ s. append_data rt f s src) st dt src)
  unfolding append_data_to_new
  asks f st src dt final known (is_new, c, e) = (c, rw (not-unknown dt known, e))

  -- Both wider types are asked for by the same argument.
  append_wide :
      (f : ℕ) (st : Storage) (src : DataSource) (wide : DataType)
      → (wide ≡ DataType.int64) ⊎ (wide ≡ DataType.real)
      → st.dt ≡ DataType.int
      → src.get_data_type ≡ wide
      → st.i < get_capacity st
      → append_data rt (suc f) st src
        ≡ append_data_to_new rt (λ s. append_data rt f s src) st wide src
  unfolding append_data append_data_with
  append_wide f st src wide (inl w) e t h = rw (
    not-unknown st.dt (int-known st.dt e),
    lt→not-leb (get_capacity st) st.i h,
    widens-int64 st.dt src.get_data_type e (t ∙ w),
    w,
  )
  append_wide f st src wide (inr w) e t h = rw (
    not-unknown st.dt (int-known st.dt e),
    lt→not-leb (get_capacity st) st.i h,
    (widens-real st.dt src.get_data_type e (t ∙ w)).0,
    (widens-real st.dt src.get_data_type e (t ∙ w)).1,
    w,
  )

  wide_next :
      (wide : DataType)
      → (wide ≡ DataType.int64) ⊎ (wide ≡ DataType.real)
      → (wide ≢ DataType.unknown) × (next_type wide wide ≡ wide)
  unfolding next_type
  wide_next wide (inl e) = (λ u. cc, rw e)
  wide_next wide (inr e) = (λ u. cc, rw e)

  move_wide :
      (f : ℕ) (st : Storage) (src : DataSource)
      → (src.get_data_type ≡ DataType.int64) ⊎ (src.get_data_type ≡ DataType.real)
      → st.dt ≡ DataType.int
      → st.i < get_capacity st
      → Moved src.get_data_type st.n_max src (append_data rt (suc (suc f)) st src)
  move_wide f st src w e h = rw (append_wide (suc f) st src src.get_data_type w e refl h) (
      asks (suc f) st src src.get_data_type src.get_data_type (wide_next src.get_data_type w).0 (
        false,
        desired_capacity st,
        first_here f (desired_capacity st) st.n_max src.get_data_type src
            (wide_next src.get_data_type w).0 (wide_next src.get_data_type w).1,
      ))

  -- A block that is not integer, or is asked by a value that does not widen it, takes the value; an
  -- integer block asks for one of the wider type.
  first_lem :
      (f c : ℕ) (n : ℤ) (dt : DataType) (src : DataSource)
      → dt ≢ DataType.unknown
      → Placed
          (next_type dt src.get_data_type)
          n
          src
          (append_data rt (suc (suc f)) (new_storage rt dt c n) src)
  first_lem f c n dt src known = elim (next_type-cases dt src.get_data_type known) [
    | inl same ↦ rw same (false, c, first_here (suc f) c n dt src known same)
    | inr (inl (e, w, next)) ↦ rw next (placed src.get_data_type (moved (inl w) e))
    | inr (inr (e, w, next)) ↦ rw next (placed src.get_data_type (moved (inr w) e))
  ]
    where
      placed : (dt' : DataType) {r : Result Appended} → Moved dt' n src r → Placed dt' n src r
      placed dt' (c', e) = (true, c', e)

      moved :
          (src.get_data_type ≡ DataType.int64) ⊎ (src.get_data_type ≡ DataType.real)
          → dt ≡ DataType.int
          → Moved src.get_data_type n src (append_data rt (suc (suc f)) (new_storage rt dt c n) src)
      moved w e =
          unfold new_storage in
          move_wide f (new_storage rt dt c n) src w e (new_storage-capacity dt c n known)

  append_full :
      (f : ℕ) (st : Storage) (src : DataSource)
      → st.dt ≢ DataType.unknown
      → get_capacity st ≤ st.i
      → Moved
          (next_type st.dt src.get_data_type)
          st.n_max
          src
          (append_data rt (suc (suc (suc f))) st src)
  append_full f st src known h = rw asked (
      asks (suc (suc f)) st src st.dt (next_type st.dt src.get_data_type) known
        (first_lem f (desired_capacity st) st.n_max st.dt src known))
    where
      asked :
          append_data rt (suc (suc (suc f))) st src
          ≡ append_data_to_new rt (λ s. append_data rt (suc (suc f)) s src) st st.dt src
      asked =
          unfold append_data append_data_with in
          rw (not-unknown st.dt known, le→leb (get_capacity st) st.i h)

  append_unknown :
      (f : ℕ) (st : Storage) (src : DataSource)
      → st.dt ≡ DataType.unknown
      → src.get_data_type ≢ DataType.unknown
      → Moved (next_type st.dt src.get_data_type) st.n_max src (append_data rt (suc (suc f)) st src)
  append_unknown f st src e typed =
      rw (asked, next_unknown st.dt src.get_data_type e)
        (asks (suc f) st src src.get_data_type src.get_data_type typed (
          false,
          desired_capacity st,
          first_here f (desired_capacity st) st.n_max src.get_data_type src typed
              (next_type_self src.get_data_type),
        ))
    where
      asked :
          append_data rt (suc (suc f)) st src
          ≡ append_data_to_new rt (λ s. append_data rt (suc f) s src) st src.get_data_type src
      asked =
          unfold append_data append_data_with append_data_to_new in
          rw (is_unknown st.dt e, not-unknown src.get_data_type typed)

  -- The three ways of append_data: into the block, or into a new one of the next type.
  pub append_data_lem :
      (st : Storage) (src : DataSource)
      → IsBlock st
      → src.get_data_type ≢ DataType.unknown
      → ((st.dt ≢ DataType.unknown)
          × (st.i < get_capacity st)
          × (next_type st.dt src.get_data_type ≡ st.dt)
          × (append_data rt 3 st src ≡ ok (this (stored st src) (value_warnings st.dt src))))
        ⊎ Moved (next_type st.dt src.get_data_type) st.n_max src (append_data rt 3 st src)
  append_data_lem st src good typed = elim (unknown-cases st.dt) [
    | inl e ↦ inr (append_unknown 1 st src e typed)
    | inr known ↦ elim (Bool-cases (leb (get_capacity st) st.i)) [
      | inl full ↦ inr (append_full 0 st src known (ground arith))
      | inr space ↦ elim (next_type-cases st.dt src.get_data_type known) [
        | inl same ↦
            inl
              (known, ground arith, same, append_here 2 st src known good.kind (ground arith) same)
        | inr (inl (e, w, next)) ↦ inr (rw next (move_wide 1 st src (inl w) e (ground arith)))
        | inr (inr (e, w, next)) ↦ inr (rw next (move_wide 1 st src (inr w) e (ground arith)))
      ]
    ]
  ]
