-- ===== src/Import/Reading.antt =====
-- Lines are read as they were written.
use rsqlite.Prelude.{
  ℕ, zero, suc, ◌+◌, ◌-◌, ◌≤◌, ◌<◌, ◌≡◌, ◌≢◌, refl, sym, ap, ◌∙◌, true, false, none, some, [], ◌∷◌,
  ◌++◌, append_assoc, append-nil, ==_refl, lt→ltb, length, length-append, get_elem?, take, arith,
}
use rsqlite.Outcome.{ok, stop, out_of_bounds}
use rsqlite.Storage.Blocks.{All}
use rsqlite.Storage.Writing.{All-append}
use rsqlite.Params.Bounds.{get_elem?-some}
use rsqlite.Import.Line.{
  Bytes, read_back, c_string, is_eol_byte, found_eol, as_line, grow, last_line, getline_loop,
  getline,
}

-- No byte of the text is `e`.
abbrev pub Lacks : ℕ → Bytes → Type 0
Lacks e s = All (λ c. c ≢ e) s

pub c_string-Lacks : (s : Bytes) → Lacks 0 s → c_string s ≡ s
unfolding c_string
c_string-Lacks [] h = refl
c_string-Lacks (c ∷ s) h = ground (arith, c_string-Lacks s h.1)

get_elem?-append : (p q : Bytes) (k : ℕ) → get_elem? (p ++ q) (length p + k) ≡ get_elem? q k
get_elem?-append [] q k = ap (get_elem? q) (omega arith)
get_elem?-append (x ∷ p) q k =
    let e : length (x ∷ p) + k ≡ suc (length p + k) = omega arith in
    ap (get_elem? (x ∷ (p ++ q))) e ∙ get_elem?-append p q k

read_back-append : (p q : Bytes) (j : ℕ) → j < length q → read_back (p ++ q) j ≡ read_back q j
read_back-append p q j h =
    let e : length (p ++ q) - 1 - j ≡ length p + (length q - 1 - j) =
      omega (arith, length-append p q) in
    rw (lt→ltb j (length (p ++ q)) (omega (arith, length-append p q)), lt→ltb j (length q) h)
      (ap (λ o. elim o [ none ↦ stop out_of_bounds | some x ↦ ok x ])
        (ap (get_elem? (p ++ q)) e ∙ get_elem?-append p q (length q - 1 - j)))

read_back-ok : (s : Bytes) (j : ℕ) → j < length s → (b : ℕ) × (read_back s j ≡ ok b)
read_back-ok s j h =
    let (b, e) = get_elem?-some s (length s - 1 - j) (omega arith) in
    (
      b,
      rw (lt→ltb j (length s) h) (ap (λ o. elim o [ none ↦ stop out_of_bounds | some x ↦ ok x ]) e),
    )

found_eol-append :
    (j : ℕ) (line eol : Bytes) → j < length eol → found_eol j eol (line ++ eol) ≡ ok true
unfolding found_eol
found_eol-append zero line eol h = refl
found_eol-append (suc j) line eol h =
    let (b, e) = read_back-ok eol (suc j) h in
    rw (read_back-append line eol (suc j) h, e, ==_refl) (found_eol-append j line eol (omega arith))

pub grow_room : (nc i : ℕ) → i ≤ nc → 0 < nc → i < grow nc i
grow_room nc i h k = ground arith

other_byte : (e c : ℕ) → c ≢ e → is_eol_byte e c ≡ false
other_byte e c h = ground arith

take_front : (p q : Bytes) → take (length (p ++ q) - length q) (p ++ q) ≡ p
take_front p q =
    let n : length (p ++ q) - length q ≡ length p = omega (arith, length-append p q) in
    ap (λ k. take k (p ++ q)) n ∙ take_length p q
  where
    take_length : (p q : Bytes) → take (length p) (p ++ q) ≡ p
    take_length [] q = refl
    take_length (x ∷ p) q = ap (◌∷◌ x) (take_length p q)

module _ (junk : ℕ → Bytes) (eol : Bytes) (e : ℕ) where
  loop_store :
      (c : ℕ) (file buf : Bytes) (nc : ℕ)
      → c ≢ e
      → length buf ≤ nc
      → 0 < nc
      → getline_loop junk eol e nc buf (c ∷ file)
        ≡ getline_loop junk eol e (grow nc (length buf)) (buf ++ c ∷ []) file
  unfolding getline_loop
  loop_store c file buf nc h fits room =
      rw
        (
          lt→ltb (length buf) (grow nc (length buf)) (grow_room nc (length buf) fits room),
          other_byte e c h,
        )
        refl

  loop_found :
      (c : ℕ) (file buf : Bytes) (nc : ℕ)
      → is_eol_byte e c ≡ true
      → found_eol (length eol - 1) eol (buf ++ c ∷ []) ≡ ok true
      → length buf ≤ nc
      → 0 < nc
      → getline_loop junk eol e nc buf (c ∷ file)
        ≡ ok (as_line (c_string (take (length (buf ++ c ∷ []) - length eol) (buf ++ c ∷ []))), file)
  unfolding getline_loop
  loop_found c file buf nc h found fits room =
      rw
        (lt→ltb (length buf) (grow nc (length buf)) (grow_room nc (length buf) fits room), h, found)
        refl

  -- Bytes that do not end a line are stored, and the buffer grows as it has to.
  loop-append :
      (part rest buf : Bytes) (nc : ℕ)
      → Lacks e part
      → length buf ≤ nc
      → 0 < nc
      → (nc' : ℕ) × (length (buf ++ part) ≤ nc')
        × (0 < nc')
        × (getline_loop junk eol e nc buf (part ++ rest)
            ≡ getline_loop junk eol e nc' (buf ++ part) rest)
  loop-append [] rest buf nc h fits room =
      (nc, omega (arith, ap length (append-nil buf)), room, rw append-nil refl)
  loop-append (c ∷ part) rest buf nc h fits room =
      let (nc', fits', room', run) =
        loop-append part rest (buf ++ c ∷ []) (grow nc (length buf)) h.1
          (omega (arith, length-append buf (c ∷ []), grow_room nc (length buf) fits room))
          (omega (arith, grow_room nc (length buf) fits room)) in
      let same = append_assoc buf (c ∷ []) part in
      (
        nc',
        omega (arith, fits', ap length same),
        room',
        loop_store c (part ++ rest) buf nc h.0 fits room
            ∙ run
            ∙ ap (λ b. getline_loop junk eol e nc' b rest) same,
      )

-- If the last byte of `eol` is an ASCII byte that stands nowhere else in `eol`, and not in the
-- line, then a line without NUL, with `eol` and any bytes behind it, is read as the line, or as
-- NULL where it is empty, and the bytes behind are what is unread.
pub getline-append :
    (junk : ℕ → Bytes) (pre : Bytes) (e : ℕ) (line rest : Bytes)
    → e < 128
    → Lacks e pre
    → Lacks e line
    → Lacks 0 line
    → getline junk (pre ++ e ∷ []) (line ++ (pre ++ e ∷ rest)) ≡ ok (as_line line, rest)
unfolding getline
getline-append junk pre e line rest ascii hp hl text =
    let eol : Bytes = pre ++ e ∷ [] in
    let (nc, fits, room, run) =
      loop-append junk eol e (line ++ pre) (e ∷ rest) [] 1024
        (All-append (λ c. c ≢ e) line pre hl hp) (omega arith) (omega arith) in
    let size : length eol - 1 < length eol = omega (arith, length-append pre (e ∷ [])) in
    let whole : (line ++ pre) ++ e ∷ [] ≡ line ++ eol = append_assoc line pre (e ∷ []) in
    let stop : found_eol (length eol - 1) eol ((line ++ pre) ++ e ∷ []) ≡ ok true =
      ap (found_eol (length eol - 1) eol) whole ∙ found_eol-append (length eol - 1) line eol size in
    rw (read_back-append pre (e ∷ []) 0 (omega arith)) (
      ap (getline_loop junk eol e 1024 []) (sym (append_assoc line pre (e ∷ rest)))
      ∙ run
      ∙ loop_found junk eol e e rest (line ++ pre) nc (ground arith) stop fits room
      ∙ ap (λ b. ok (as_line (c_string (take (length b - length eol) b)), rest)) whole
      ∙ ap (λ b. ok (as_line b, rest))
          (ap c_string (take_front line eol) ∙ c_string-Lacks line text))

pub getline_end :
    (junk : ℕ → Bytes) (pre : Bytes) (e : ℕ) → getline junk (pre ++ e ∷ []) [] ≡ ok (none, [])
unfolding getline getline_loop last_line
getline_end junk pre e = rw (read_back-append pre (e ∷ []) 0 (omega arith)) refl
