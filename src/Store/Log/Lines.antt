-- ===== src/Store/Log/Lines.antt =====
-- What decode_commit of crates/uc-db/src/store/action.rs uses of Rust's strings: `str::from_utf8` as
-- a test, `str::lines`, and `trim().is_empty()`.
pub mod Laws
use unity_catalog.Prelude.{
  ℕ, zero, suc, Bool, true, false, ◌&&◌, ◌||◌, Option, none, some, List, [], ◌∷◌, ◌++◌, leb, ◌==◌,
  if◌then◌else◌,
}
use unity_catalog.Prelude.Text.{Text}

-- what a byte sequence still owes of a character
pub data Owed : Type 0 where
  start one two three after_e0 after_ed after_f0 after_f4 : Owed

abbrev pub between : ℕ → ℕ → ℕ → Bool
between low high c = leb low c && leb c high

abbrev pub expect : Bool → Owed → Option Owed
expect true owed = some owed
expect false owed = none

-- the table of well-formed UTF-8 byte sequences
abbrev pub first_byte : ℕ → Option Owed
first_byte c =
    if leb c 127
    then some Owed.start
    else if between 194 223 c
    then some Owed.one
    else if c == 224
    then some Owed.after_e0
    else if c == 237
    then some Owed.after_ed
    else if between 225 239 c
    then some Owed.two
    else if c == 240
    then some Owed.after_f0
    else if between 241 243 c
    then some Owed.three
    else if c == 244
    then some Owed.after_f4
    else none

abbrev pub next_byte : Owed → ℕ → Option Owed
next_byte Owed.start c = first_byte c
next_byte Owed.one c = expect (between 128 191 c) Owed.start
next_byte Owed.two c = expect (between 128 191 c) Owed.one
next_byte Owed.three c = expect (between 128 191 c) Owed.two
next_byte Owed.after_e0 c = expect (between 160 191 c) Owed.one
next_byte Owed.after_ed c = expect (between 128 159 c) Owed.one
next_byte Owed.after_f0 c = expect (between 144 191 c) Owed.two
next_byte Owed.after_f4 c = expect (between 128 143 c) Owed.two

unfoldable pub is_utf8_from : Owed → Text → Bool
is_utf8_from Owed.start [] = true
is_utf8_from _ [] = false
is_utf8_from owed (c ∷ s) = elim (next_byte owed c) [
  | none ↦ false
  | some left ↦ is_utf8_from left s
]

unfoldable pub is_utf8 : Text → Bool
unfolding is_utf8_from
is_utf8 s = is_utf8_from Owed.start s

-- a carriage return before the line feed is part of the line ending
abbrev pub strip_cr : Text → Text
strip_cr [] = []
strip_cr (c ∷ []) = if c == 13 then [] else c ∷ []
strip_cr (c ∷ d ∷ s) = c ∷ strip_cr (d ∷ s)

abbrev pub last_line : Text → List Text
last_line [] = []
last_line (c ∷ s) = (c ∷ s) ∷ []

-- the lines of what is read of a line and of the rest
unfoldable pub lines_from : Text → Text → List Text
lines_from line [] = last_line line
lines_from line (c ∷ s) =
    let ended = lines_from [] s in
    let longer = lines_from (line ++ c ∷ []) s in if c == 10 then strip_cr line ∷ ended else longer

unfoldable pub lines : Text → List Text
unfolding lines_from
lines s = lines_from [] s

-- the characters of White_Space, of one, two and three bytes
abbrev pub is_space : ℕ → Bool
is_space c = between 9 13 c || c == 32

abbrev pub is_space_2 : ℕ → ℕ → Bool
is_space_2 c d = c == 194 && (d == 133 || d == 160)

abbrev pub is_space_3 : ℕ → ℕ → ℕ → Bool
is_space_3 c d e =
    (c == 225 && (d == 154 && e == 128))
    || (c == 226 && (d == 128 && (between 128 138 e || (between 168 169 e || e == 175))))
    || (c == 226 && (d == 129 && e == 159))
    || (c == 227 && (d == 128 && e == 128))

-- `s.trim().is_empty()`
unfoldable pub is_blank : Text → Bool
is_blank [] = true
is_blank (c ∷ []) = is_space c
is_blank (c ∷ d ∷ []) = (is_space c && is_blank (d ∷ [])) || is_space_2 c d
is_blank (c ∷ d ∷ e ∷ s) =
    (is_space c && is_blank (d ∷ e ∷ s))
    || ((is_space_2 c d && is_blank (e ∷ s)) || (is_space_3 c d e && is_blank s))
