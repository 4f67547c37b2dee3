-- ===== src/Affinity.antt =====
-- src/affinity.c and .h: the type affinity of a declared type. The text is its bytes, without the
-- final NUL. `h` is a 32-bit unsigned number; `zChar` is written and never read, and left out.
pub mod Hash
pub mod Scanning
pub mod Table
use rsqlite.Prelude.{
  ℕ, ◌+◌, ◌*◌, ◌%◌, ◌^◌, Bool, ◌&&◌, ◌||◌, Option, none, some, List, [], ◌∷◌, ◌==◌, get_or,
  if◌then◌else◌,
}

-- SQLITE_AFF_BLOB and so on
pub data Affinity : Type 0 where
  blob text numeric integer real : Affinity

abbrev pub aff_code : Affinity → ℕ
aff_code blob = b'A'
aff_code text = b'B'
aff_code numeric = b'C'
aff_code integer = b'D'
aff_code real = b'E'

abbrev pub same_affinity : Affinity → Affinity → Bool
same_affinity a b = aff_code a == aff_code b

-- sqlite3UpperToLower: 256 entries, the index itself but for the letters.
unfoldable pub upper_to_lower : List ℕ
upper_to_lower =
    0 ∷ 1 ∷ 2 ∷ 3 ∷ 4 ∷ 5 ∷ 6 ∷ 7 ∷ 8 ∷ 9 ∷ 10 ∷ 11 ∷ 12 ∷ 13 ∷ 14 ∷ 15 ∷ 16 ∷ 17 ∷ 18 ∷ 19 ∷ 20
    ∷ 21 ∷ 22 ∷ 23 ∷ 24 ∷ 25 ∷ 26 ∷ 27 ∷ 28 ∷ 29 ∷ 30 ∷ 31 ∷ 32 ∷ 33 ∷ 34 ∷ 35 ∷ 36 ∷ 37 ∷ 38 ∷ 39
    ∷ 40 ∷ 41 ∷ 42 ∷ 43 ∷ 44 ∷ 45 ∷ 46 ∷ 47 ∷ 48 ∷ 49 ∷ 50 ∷ 51 ∷ 52 ∷ 53 ∷ 54 ∷ 55 ∷ 56 ∷ 57 ∷ 58
    ∷ 59 ∷ 60 ∷ 61 ∷ 62 ∷ 63 ∷ 64 ∷ 97 ∷ 98 ∷ 99 ∷ 100 ∷ 101 ∷ 102 ∷ 103 ∷ 104 ∷ 105 ∷ 106 ∷ 107
    ∷ 108 ∷ 109 ∷ 110 ∷ 111 ∷ 112 ∷ 113 ∷ 114 ∷ 115 ∷ 116 ∷ 117 ∷ 118 ∷ 119 ∷ 120 ∷ 121 ∷ 122 ∷ 91
    ∷ 92 ∷ 93 ∷ 94 ∷ 95 ∷ 96 ∷ 97 ∷ 98 ∷ 99 ∷ 100 ∷ 101 ∷ 102 ∷ 103 ∷ 104 ∷ 105 ∷ 106 ∷ 107 ∷ 108
    ∷ 109 ∷ 110 ∷ 111 ∷ 112 ∷ 113 ∷ 114 ∷ 115 ∷ 116 ∷ 117 ∷ 118 ∷ 119 ∷ 120 ∷ 121 ∷ 122 ∷ 123 ∷ 124
    ∷ 125 ∷ 126 ∷ 127 ∷ 128 ∷ 129 ∷ 130 ∷ 131 ∷ 132 ∷ 133 ∷ 134 ∷ 135 ∷ 136 ∷ 137 ∷ 138 ∷ 139 ∷ 140
    ∷ 141 ∷ 142 ∷ 143 ∷ 144 ∷ 145 ∷ 146 ∷ 147 ∷ 148 ∷ 149 ∷ 150 ∷ 151 ∷ 152 ∷ 153 ∷ 154 ∷ 155 ∷ 156
    ∷ 157 ∷ 158 ∷ 159 ∷ 160 ∷ 161 ∷ 162 ∷ 163 ∷ 164 ∷ 165 ∷ 166 ∷ 167 ∷ 168 ∷ 169 ∷ 170 ∷ 171 ∷ 172
    ∷ 173 ∷ 174 ∷ 175 ∷ 176 ∷ 177 ∷ 178 ∷ 179 ∷ 180 ∷ 181 ∷ 182 ∷ 183 ∷ 184 ∷ 185 ∷ 186 ∷ 187 ∷ 188
    ∷ 189 ∷ 190 ∷ 191 ∷ 192 ∷ 193 ∷ 194 ∷ 195 ∷ 196 ∷ 197 ∷ 198 ∷ 199 ∷ 200 ∷ 201 ∷ 202 ∷ 203 ∷ 204
    ∷ 205 ∷ 206 ∷ 207 ∷ 208 ∷ 209 ∷ 210 ∷ 211 ∷ 212 ∷ 213 ∷ 214 ∷ 215 ∷ 216 ∷ 217 ∷ 218 ∷ 219 ∷ 220
    ∷ 221 ∷ 222 ∷ 223 ∷ 224 ∷ 225 ∷ 226 ∷ 227 ∷ 228 ∷ 229 ∷ 230 ∷ 231 ∷ 232 ∷ 233 ∷ 234 ∷ 235 ∷ 236
    ∷ 237 ∷ 238 ∷ 239 ∷ 240 ∷ 241 ∷ 242 ∷ 243 ∷ 244 ∷ 245 ∷ 246 ∷ 247 ∷ 248 ∷ 249 ∷ 250 ∷ 251 ∷ 252
    ∷ 253 ∷ 254 ∷ 255 ∷ []

unfoldable pub to_lower : ℕ → ℕ
unfolding upper_to_lower
to_lower c = get_or upper_to_lower (c % 256) 0

-- h = (h << 8) + sqlite3UpperToLower[(*zIn) & 0xff], in 32 bits
unfoldable pub shift_in : ℕ → ℕ → ℕ
shift_in h c = (h * 2 ^ 8 + to_lower c) % 2 ^ 32

-- ('c' << 24) + ('h' << 16) + ('a' << 8) + 'r' and the like
abbrev pub word4 : ℕ → ℕ → ℕ → ℕ → ℕ
word4 a b c d = a * 2 ^ 24 + b * 2 ^ 16 + c * 2 ^ 8 + d

abbrev pub word3 : ℕ → ℕ → ℕ → ℕ
word3 b c d = b * 2 ^ 16 + c * 2 ^ 8 + d

-- The chain of tests on one `h`. The last of them ends the loop: `none`.
unfoldable pub next_affinity : Affinity → ℕ → Option Affinity
next_affinity aff h =
    if h == word4 b'c' b'h' b'a' b'r'
    then some text
    else if h == word4 b'c' b'l' b'o' b'b'
    then some text
    else if h == word4 b't' b'e' b'x' b't'
    then some text
    else if (h == word4 b'b' b'l' b'o' b'b')
        && (same_affinity aff numeric || same_affinity aff real)
    then some blob
    else if (h == word4 b'r' b'e' b'a' b'l') && same_affinity aff numeric
    then some real
    else if (h == word4 b'f' b'l' b'o' b'a') && same_affinity aff numeric
    then some real
    else if (h == word4 b'd' b'o' b'u' b'b') && same_affinity aff numeric
    then some real
    else if h % 2 ^ 24 == word3 b'i' b'n' b't'
    then none
    else some aff

-- the loop, up to the NUL
unfoldable pub scan : ℕ → Affinity → List ℕ → Affinity
scan h aff [] = aff
scan h aff (c ∷ zIn) =
    let h' = shift_in h c in
    elim (next_affinity aff h') [ none ↦ integer | some aff' ↦ scan h' aff' zIn ]

-- sqlite3AffinityType; the null pointer is `none`.
unfoldable pub affinity_type : Option (List ℕ) → Affinity
affinity_type none = numeric
affinity_type (some zIn) = scan 0 numeric zIn
