-- ===== src/Storage/Layout.antt =====
-- copy_to as a whole: the rows of a well-formed block, in order, wherever they are kept.
use rsqlite.Prelude.{
  ℕ, zero, suc, ◌+◌, ◌-◌, ◌≡◌, ◌≢◌, refl, sym, ap, ◌∙◌, ◌⊎◌, inl, inr, true, none, some, Option,
  List, [], ◌∷◌, ◌++◌, map, append_assoc, length, length-append, take, drop, take-append-drop,
  length-take, length-drop, length-map, length-replicate, eq-nil_of_length, replicate, min, leb,
  Bool-cases, arith,
}
use mathlib.Core.List.{map-append}
use rsqlite.Outcome.{Result, ok}
use rsqlite.DataType.{DataType, unknown-cases}
use rsqlite.Runtime.{Slot, Sexp, Runtime, IsRuntime}
use rsqlite.Storage.{Storage, sexptype_from_datatype}
use rsqlite.Storage.Blocks.{IsBlock, fits, na_slot, widen, shown, rows}
use rsqlite.Storage.Copy.{copy_loop, copy_to}
use rsqlite.Storage.Loops.{with_slots, copy_loop_lem, copy_loop_stop, fill_loop_lem, triple}

pub length-rows : (st : Storage) → length (rows st) ≡ st.i
unfolding rows
length-rows st = omega (
  arith,
  length-append (map some (take st.i st.block.slots))
      (replicate (st.i - length st.block.slots) none),
  length-map (take st.i st.block.slots) some,
  length-replicate {A = Option Slot} (st.i - length st.block.slots) none,
  length-take st.i st.block.slots,
)

shown-some :
    (rt : Runtime) (dt : DataType) (vs : List Slot)
    → map (shown rt dt) (map some vs) ≡ map (widen rt dt) vs
unfolding shown
shown-some rt dt [] = refl
shown-some rt dt (v ∷ vs) = ap (λ l. widen rt dt v ∷ l) (shown-some rt dt vs)

shown-none :
    (rt : Runtime) (dt : DataType) (n : ℕ)
    → map (shown rt dt) (replicate n none) ≡ replicate n (na_slot dt)
unfolding shown
shown-none rt dt zero = refl
shown-none rt dt (suc n) = ap (λ l. na_slot dt ∷ l) (shown-none rt dt n)

pub shown-rows :
    (rt : Runtime) (dt : DataType) (st : Storage)
    → map (shown rt dt) (rows st)
      ≡ map (widen rt dt) (take st.i st.block.slots)
        ++ replicate (st.i - length st.block.slots) (na_slot dt)
unfolding rows
shown-rows rt dt st = rw (
  map-append,
  shown-some rt dt (take st.i st.block.slots),
  shown-none rt dt (st.i - length st.block.slots),
)

module _ (rt : Runtime) (laws : IsRuntime rt) (st : Storage) (dt : DataType) (good : IsBlock st)
    (fit : fits st.dt dt ≡ true) where
  -- A block without a vector is passed over by the first loop.
  copy_loop_unknown :
      (f tgt : ℕ) (x : Sexp)
      → st.dt ≡ DataType.unknown
      → copy_loop rt (suc f) st dt 0 tgt x ≡ ok (0, tgt, x)
  copy_loop_unknown f tgt x e =
      copy_loop_stop rt f st dt 0 tgt x (inl (omega (arith, ap length (good.empty e))))

  -- The first loop writes what the block's vector holds.
  copy_stored :
      (pos end : ℕ) (x : Sexp) (p gap q ys : List Slot)
      → x.type ≡ sexptype_from_datatype dt
      → x.slots ≡ p ++ (gap ++ q)
      → length p ≡ pos
      → length gap ≡ length (take st.i st.block.slots)
      → pos + length gap ≡ end
      → p ++ (map (widen rt dt) (take st.i st.block.slots) ++ q) ≡ ys
      → copy_loop rt (suc st.i) st dt 0 pos x ≡ ok (length gap, end, with_slots x ys)
  copy_stored pos end x p gap q ys tx ex np len ne ey = elim (unknown-cases st.dt) [
    | inl e ↦ copy_loop_unknown st.i pos x e ∙ nothing (good.empty e)
    | inr known ↦
        copy_loop_lem rt laws st dt good.kind known fit (take st.i st.block.slots) []
          (drop st.i st.block.slots) p gap q ys (suc st.i) 0 pos (length gap) end x
          (omega (arith, length-take st.i st.block.slots))
          (sym (take-append-drop st.i st.block.slots)) refl np
          (omega (arith, length-take st.i st.block.slots)) past good.views tx ex len (omega arith)
          (omega arith) ey
  ]
    where
      past : (drop st.i st.block.slots ≡ []) ⊎ (st.i ≡ length gap)
      past = elim (Bool-cases (leb (length st.block.slots) st.i)) [
        | inl h ↦ inl (
            eq-nil_of_length (drop st.i st.block.slots)
              (ground (arith, length-drop st.i st.block.slots)))
        | inr h ↦ inr (ground (arith, length-take st.i st.block.slots))
      ]

      nothing :
          st.block.slots ≡ []
          → ◌≡◌ {A = Result (ℕ × ℕ × Sexp)} (ok (0, pos, x)) (ok (length gap, end, with_slots x ys))
      nothing e =
          let none_taken : take st.i st.block.slots ≡ [] =
            eq-nil_of_length (take st.i st.block.slots)
              (omega (arith, ap length e, length-take st.i st.block.slots)) in
          let no_gap : gap ≡ [] = eq-nil_of_length gap (omega (arith, len, ap length none_taken)) in
          triple (omega (arith, ap length no_gap)) (omega (arith, ap length no_gap))
            (ap (with_slots x) ((rw no_gap at ex) ∙ (rw none_taken at ey)))

  -- For a well-formed block and a vector of a known type that takes the block's type in, with `pos`
  -- slots before and room for the block's rows from there, copy_to writes every row of the block,
  -- shown as that type, and no other slot, and returns the number of rows.
  pub copy_to_lem :
      (pos : ℕ) (x : Sexp) (p gap q : List Slot)
      → dt ≢ DataType.unknown
      → x.type ≡ sexptype_from_datatype dt
      → x.slots ≡ p ++ (gap ++ q)
      → length p ≡ pos
      → length gap ≡ st.i
      → copy_to rt st x dt pos ≡ ok (with_slots x (p ++ (map (shown rt dt) (rows st) ++ q)), st.i)
  unfolding copy_to
  copy_to_lem pos x p gap q known tx ex np len =
      rw
        (copy_stored pos (pos + length here) x p here (there ++ q) (p ++ (wide ++ (there ++ q))) tx
          (ex ∙ ap (◌++◌ p) split) np (omega (arith, length-take m gap, size)) refl refl)
        (rw (
          fill_loop_lem st dt (st.i - length st.block.slots) (p ++ wide) there q all (suc st.i)
            (length here) (pos + length here) (pos + length gap)
            (with_slots x (p ++ (wide ++ (there ++ q)))) known (omega arith)
            (omega (arith, length-take m gap, size))
            (omega (
              arith,
              length-append p wide,
              length-map taken (widen rt dt),
              length-take m gap,
              size,
            ))
            tx (sym (append_assoc p wide (there ++ q))) (omega (arith, length-drop m gap, size))
            (omega (arith, length-take m gap, size)) joined))
    where
      taken : List Slot
      taken = take st.i st.block.slots

      m : ℕ
      m = length taken

      size : m ≡ min st.i (length st.block.slots)
      size = length-take st.i st.block.slots

      here : List Slot
      here = take m gap

      there : List Slot
      there = drop m gap

      wide : List Slot
      wide = map (widen rt dt) taken

      all : List Slot
      all = p ++ (map (shown rt dt) (rows st) ++ q)

      split : gap ++ q ≡ here ++ (there ++ q)
      split = ap (λ l. l ++ q) (sym (take-append-drop m gap)) ∙ append_assoc here there q

      joined : (p ++ wide) ++ (replicate (st.i - length st.block.slots) (na_slot dt) ++ q) ≡ all
      joined =
          append_assoc p wide (replicate (st.i - length st.block.slots) (na_slot dt) ++ q)
          ∙ ap (◌++◌ p) (
              sym (append_assoc wide (replicate (st.i - length st.block.slots) (na_slot dt)) q)
              ∙ ap (λ l. l ++ q) (sym (shown-rows rt dt st)))
