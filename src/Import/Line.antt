-- ===== src/Import/Line.antt =====
-- RS_sqlite_getline of src/import-file.c. A file is its unread bytes. `junk i` is what strlen()
-- finds behind the first `i` bytes of the allocated memory, which nobody has written: up to some
-- NUL.
use rsqlite.Prelude.{
  ℕ, zero, suc, ◌-◌, ◌*◌, Bool, true, false, ◌&&◌, Option, none, some, List, [], ◌∷◌, ◌++◌, ltb,
  ◌==◌, length, get_elem?, take, if◌then◌else◌,
}
use rsqlite.Outcome.{Result, ok, stop, ◌>>=◌, out_of_bounds}

abbrev pub Bytes : Type 0
Bytes = List ℕ

-- A read of an array; an index that is not there is a fault.
abbrev pub read : Bytes → ℕ → Result ℕ
read xs k = elim (get_elem? xs k) [ none ↦ stop out_of_bounds | some x ↦ ok x ]

-- buf[(i - 1) - j], where `i` is the number of bytes of `buf`
abbrev pub read_back : Bytes → ℕ → Result ℕ
read_back buf j = if ltb j (length buf) then read buf (length buf - 1 - j) else stop out_of_bounds

-- A C string: the bytes before the first NUL.
unfoldable pub c_string : Bytes → Bytes
c_string [] = []
c_string (c ∷ s) = if c == 0 then [] else c ∷ c_string s

-- `c == ceol`: fgetc() gives an unsigned char, and a char is signed.
abbrev pub is_eol_byte : ℕ → ℕ → Bool
is_eol_byte ceol c = ltb ceol 128 && c == ceol

-- The loop over `j`, from neol - 1 down to 1.
unfoldable pub found_eol : ℕ → Bytes → Bytes → Result Bool
found_eol zero eol buf = ok true
found_eol (suc j) eol buf = do
  b ← read_back buf (suc j)
  e ← read_back eol (suc j)
  let rest = found_eol j eol buf
  if b == e then rest else ok false

-- An empty line is returned as NULL.
abbrev pub as_line : Bytes → Option Bytes
as_line [] = none
as_line (c ∷ s) = some (c ∷ s)

-- The line, or NULL, and what is unread.
abbrev pub Line : Type 0
Line = Option Bytes × Bytes

-- the store buf[i++] = c, in a buffer of `nc` bytes
abbrev pub store : ℕ → Bytes → ℕ → Result Bytes
store nc buf c = if ltb (length buf) nc then ok (buf ++ c ∷ []) else stop out_of_bounds

-- realloc() when the buffer is full
abbrev pub grow : ℕ → ℕ → ℕ
grow nc i = if i == nc then 2 * nc else nc

module _ (junk : ℕ → Bytes) (eol : Bytes) (ceol : ℕ) where
  -- What is returned at the end of the file, where the buffer has no NUL of its own.
  unfoldable pub last_line : Bytes → Option Bytes
  unfolding c_string
  last_line [] = none
  last_line (c ∷ buf) = as_line (c_string ((c ∷ buf) ++ junk (length (c ∷ buf))))

  unfoldable pub getline_loop : ℕ → Bytes → Bytes → Result Line
  unfolding found_eol c_string last_line
  getline_loop nc buf [] = ok (last_line buf, [])
  getline_loop nc buf (c ∷ file) = do
    buf' ← store (grow nc (length buf)) buf c
    found ← (if is_eol_byte ceol c then found_eol (length eol - 1) eol buf' else ok false)
    let rest = getline_loop (grow nc (length buf)) buf' file
    if found then ok (as_line (c_string (take (length buf' - length eol) buf')), file) else rest

-- With an empty `eol` the last byte is read before its start.
unfoldable pub getline : (ℕ → Bytes) → Bytes → Bytes → Result Line
getline junk eol file = read_back eol 0 >>= λ ceol. getline_loop junk eol ceol 1024 [] file
