-- ===== src/Storage/Loops.antt =====
-- The two loops of copy_to: what each leaves in the vector.
use rsqlite.Prelude.{
  ℕ, zero, suc, ◌+◌, ◌≤◌, ◌<◌, ◌≡◌, ◌≢◌, sym, ap, ◌∙◌, ◌⊎◌, inl, inr, true, some, List, [], ◌∷◌,
  ◌++◌, map, append_assoc, length, length-append, get_elem?, set, set-middle, get_elem?-middle,
  replicate, lt→ltb, arith,
}
use rsqlite.Outcome.{Result, ok, ◌>>=◌}
use rsqlite.DataType.{DataType}
use rsqlite.Runtime.{Slot, Sexp, Runtime, IsRuntime}
use rsqlite.Slots.{fill_default_value}
use rsqlite.Storage.{Storage, sexptype_from_datatype, get_capacity}
use rsqlite.Storage.Blocks.{All, fits, has_view, na_slot, widen}
use rsqlite.Storage.Copy.{copy_value, copy_loop, fill_loop}
use rsqlite.Storage.Rendering.{written, fill_default_value_lem, copy_value_lem}

abbrev pub with_slots : Sexp → List Slot → Sexp
with_slots x s = record x { slots = s }

copy_loop_step :
    (rt : Runtime) (f : ℕ) (st : Storage) (dt : DataType) (src tgt : ℕ) (x : Sexp)
    → src < get_capacity st
    → src < st.i
    → tgt < length x.slots
    → copy_loop rt (suc f) st dt src tgt x
      ≡ (copy_value rt st x dt tgt src >>= λ x'. copy_loop rt f st dt (suc src) (suc tgt) x')
unfolding copy_loop
copy_loop_step rt f st dt src tgt x h k l =
    rw (lt→ltb src (get_capacity st) h, lt→ltb src st.i k, lt→ltb tgt (length x.slots) l)

pub copy_loop_stop :
    (rt : Runtime) (f : ℕ) (st : Storage) (dt : DataType) (src tgt : ℕ) (x : Sexp)
    → (get_capacity st ≤ src) ⊎ (st.i ≤ src)
    → copy_loop rt (suc f) st dt src tgt x ≡ ok (src, tgt, x)
unfolding copy_loop
copy_loop_stop rt f st dt src tgt x h = ground arith

fill_loop_step :
    (f : ℕ) (st : Storage) (dt : DataType) (src tgt : ℕ) (x : Sexp)
    → src < st.i
    → tgt < length x.slots
    → fill_loop (suc f) st dt src tgt x
      ≡ (fill_default_value x dt tgt >>= λ x'. fill_loop f st dt (suc src) (suc tgt) x')
unfolding fill_loop
fill_loop_step f st dt src tgt x h k = ground arith

fill_loop_stop :
    (f : ℕ) (st : Storage) (dt : DataType) (src tgt : ℕ) (x : Sexp)
    → st.i ≤ src
    → fill_loop (suc f) st dt src tgt x ≡ ok (src, tgt, x)
unfolding fill_loop
fill_loop_stop f st dt src tgt x h = ground arith

-- A vector whose slots are a finished part, the places of the rows to come, and the rest.
room :
    (p gap q : List Slot) (x : Sexp)
    → x.slots ≡ p ++ (gap ++ q)
    → length x.slots ≡ length p + length gap + length q
room p gap q x e = omega (arith, ap length e, length-append p (gap ++ q), length-append gap q)

write_next :
    (p : List Slot) (g v : Slot) (r : List Slot) (x : Sexp) (tgt : ℕ)
    → x.slots ≡ p ++ (g ∷ r)
    → length p ≡ tgt
    → set x.slots tgt v ≡ (p ++ (v ∷ [])) ++ r
write_next p g v r x tgt e n = rw (e, ← n) (set-middle p g v r ∙ sym (append_assoc p (v ∷ []) r))

read_next :
    (front : List Slot) (v : Slot) (r slots : List Slot) (src : ℕ)
    → slots ≡ front ++ (v ∷ r)
    → length front ≡ src
    → get_elem? slots src ≡ some v
read_next front v r slots src e n = rw (e, ← n) (get_elem?-middle front v r)

length-snoc : (p : List Slot) (v : Slot) (n : ℕ) → length p ≡ n → length (p ++ (v ∷ [])) ≡ suc n
length-snoc p v n e = omega (arith, length-append p (v ∷ []))

pub triple :
    {a b c d : ℕ} {x y : Sexp}
    → a ≡ b
    → c ≡ d
    → x ≡ y
    → ◌≡◌ {A = Result (ℕ × ℕ × Sexp)} (ok (a, c, x)) (ok (b, d, y))
triple p q r = λ i. ok (p i, q i, r i)

module _ (rt : Runtime) (laws : IsRuntime rt) (st : Storage) (dt : DataType)
    (kind : st.block.type ≡ sexptype_from_datatype st.dt) (known : st.dt ≢ DataType.unknown)
    (fit : fits st.dt dt ≡ true) where
  pub copy_loop_lem :
      (vs front back p gap q ys : List Slot) (f src tgt last end : ℕ) (x : Sexp)
      → length vs < f
      → st.block.slots ≡ front ++ (vs ++ back)
      → length front ≡ src
      → length p ≡ tgt
      → last ≤ st.i
      → (back ≡ []) ⊎ (st.i ≡ last)
      → All (λ s. has_view st.dt s ≡ true) vs
      → x.type ≡ sexptype_from_datatype dt
      → x.slots ≡ p ++ (gap ++ q)
      → length gap ≡ length vs
      → src + length vs ≡ last
      → tgt + length vs ≡ end
      → p ++ (map (widen rt dt) vs ++ q) ≡ ys
      → copy_loop rt f st dt src tgt x ≡ ok (last, end, with_slots x ys)
  copy_loop_lem vs front back p gap q ys zero src tgt last end x enough es nf np upto exit views tx
        ex len nl ne ey =
      absurd (omega arith)
  copy_loop_lem [] front back p [] q ys (suc f) src tgt last end x enough es nf np upto exit views
        tx ex len nl ne ey =
      copy_loop_stop rt f st dt src tgt x (past exit)
      ∙ triple (omega arith) (omega arith) (ap (with_slots x) (ex ∙ ey))
    where
      past : (back ≡ []) ⊎ (st.i ≡ last) → (get_capacity st ≤ src) ⊎ (st.i ≤ src)
      past (inl e) = inl (omega (arith, ap length es, ap length e, length-append front back))
      past (inr e) = inr (omega arith)
  copy_loop_lem [] front back p (g ∷ gap) q ys (suc f) src tgt last end x enough es nf np upto exit
        views tx ex len nl ne ey =
      absurd (omega arith)
  copy_loop_lem (v ∷ vs) front back p [] q ys (suc f) src tgt last end x enough es nf np upto exit
        views tx ex len nl ne ey =
      absurd (omega arith)
  copy_loop_lem (v ∷ vs) front back p (g ∷ gap) q ys (suc f) src tgt last end x enough es nf np upto
        exit views tx ex len nl ne ey =
      copy_loop_step rt f st dt src tgt x
        (omega (arith, ap length es, length-append front (v ∷ (vs ++ back)))) (omega arith) space
      ∙ rw
          (copy_value_lem rt laws st dt x v tgt src kind tx
            (read_next front v (vs ++ back) _ src es nf) views.0 known fit space)
          (copy_loop_lem vs (front ++ (v ∷ [])) back (p ++ (widen rt dt v ∷ [])) gap q ys f
            (suc src) (suc tgt) last end (written x tgt (widen rt dt v)) (omega arith)
            (es ∙ sym (append_assoc front (v ∷ []) (vs ++ back))) (length-snoc front v src nf)
            (length-snoc p (widen rt dt v) tgt np) upto exit views.1 tx
            (write_next p g (widen rt dt v) (gap ++ q) x tgt ex np) (omega arith) (omega arith)
            (omega arith) (append_assoc p (widen rt dt v ∷ []) (map (widen rt dt) vs ++ q) ∙ ey))
    where
      space : tgt < length x.slots
      space = omega (arith, room p (g ∷ gap) q x ex)

module _ (st : Storage) (dt : DataType) where
  pub fill_loop_lem :
      (left : ℕ) (p gap q ys : List Slot) (f src tgt end : ℕ) (x : Sexp)
      → dt ≢ DataType.unknown
      → left < f
      → src + left ≡ st.i
      → length p ≡ tgt
      → x.type ≡ sexptype_from_datatype dt
      → x.slots ≡ p ++ (gap ++ q)
      → length gap ≡ left
      → tgt + left ≡ end
      → p ++ (replicate left (na_slot dt) ++ q) ≡ ys
      → fill_loop f st dt src tgt x ≡ ok (st.i, end, with_slots x ys)
  fill_loop_lem left p gap q ys zero src tgt end x some_type enough nl np tx ex len ne ey =
      absurd (omega arith)
  fill_loop_lem zero p [] q ys (suc f) src tgt end x some_type enough nl np tx ex len ne ey =
      fill_loop_stop f st dt src tgt x (omega arith)
      ∙ triple (omega arith) (omega arith) (ap (with_slots x) (ex ∙ ey))
  fill_loop_lem zero p (g ∷ gap) q ys (suc f) src tgt end x some_type enough nl np tx ex len ne ey =
      absurd (omega arith)
  fill_loop_lem (suc left) p [] q ys (suc f) src tgt end x some_type enough nl np tx ex len ne ey =
      absurd (omega arith)
  fill_loop_lem (suc left) p (g ∷ gap) q ys (suc f) src tgt end x some_type enough nl np tx ex len
        ne ey =
      fill_loop_step f st dt src tgt x (omega arith) space
      ∙ rw (fill_default_value_lem x dt tgt some_type tx space) (
          fill_loop_lem left (p ++ (na_slot dt ∷ [])) gap q ys f (suc src) (suc tgt) end
            (written x tgt (na_slot dt)) some_type (omega arith) (omega arith)
            (length-snoc p (na_slot dt) tgt np) tx
            (write_next p g (na_slot dt) (gap ++ q) x tgt ex np) (omega arith) (omega arith)
            (append_assoc p (na_slot dt ∷ []) (replicate left (na_slot dt) ++ q) ∙ ey))
    where
      space : tgt < length x.slots
      space = omega (arith, room p (g ∷ gap) q x ex)
