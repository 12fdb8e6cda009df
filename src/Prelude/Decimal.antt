-- ===== src/Prelude/Decimal.antt =====
-- `format!` of integers in decimal with zero padding, and `str::parse` of integers.
pub mod Fixed
pub mod Read
use mathlib.Core.List.{List, [], ◌∷◌, ◌++◌}
use mathlib.Core.Option.{Option, none, some}
use mathlib.Core.Bool.{Bool, true, false, ◌&&◌}
use Prim.Native.Nat.{ℕ, zero, suc, ◌+◌, ◌-◌, ◌*◌, ◌/◌, ◌%◌, ◌^◌}
use unity_catalog.Prelude.Tests.{ltb, leb, ◌==◌, if◌then◌else◌}
use unity_catalog.Prelude.Lists.{length}
use unity_catalog.Prelude.Int.{ℤ, pos, negsuc}
use unity_catalog.Prelude.Text.{Text}

-- The digits of `n`; the fuel is above `n`, and each round divides by ten.
unfoldable pub decimal_go : ℕ → ℕ → Text
decimal_go zero n = []
decimal_go (suc f) n =
    let more = decimal_go f (n / 10) ++ (48 + n % 10) ∷ [] in
    if ltb n 10 then (48 + n) ∷ [] else more

-- `n.to_string()`
unfoldable pub decimal : ℕ → Text
unfolding decimal_go
decimal n = decimal_go (suc n) n

abbrev pub zeros : ℕ → Text
zeros zero = []
zeros (suc n) = 48 ∷ zeros n

abbrev pub pad : ℕ → Text → Text
pad w s = zeros (w - length s) ++ s

-- `format!("{n:0w}")`, which pads and never cuts
unfoldable pub padded : ℕ → ℕ → Text
unfolding decimal
padded w n = pad w (decimal n)

-- `format!("{v:0w}")` of a signed number: the sign counts for the width
unfoldable pub padded_ℤ : ℕ → ℤ → Text
unfolding padded
padded_ℤ w (pos n) = padded w n
padded_ℤ w (negsuc n) = b'-' ∷ padded (w - 1) (suc n)

abbrev pub is_digit : ℕ → Bool
is_digit c = leb 48 c && leb c 57

-- the digits of a number below `bound`, checked at each step as Rust's `parse` does
unfoldable pub parse_digits : ℕ → ℕ → Text → Option ℕ
parse_digits bound acc [] = some acc
parse_digits bound acc (c ∷ s) =
    let acc' = acc * 10 + (c - 48) in
    let rest = parse_digits bound acc' s in if is_digit c && ltb acc' bound then rest else none

unfoldable pub parse_nonempty : ℕ → Text → Option ℕ
unfolding parse_digits
parse_nonempty bound [] = none
parse_nonempty bound (c ∷ s) = parse_digits bound 0 (c ∷ s)

-- `s.parse::<u64>().ok()`: a leading `+` is accepted, and an empty text is not
unfoldable pub parse_u64 : Text → Option ℕ
unfolding parse_nonempty
parse_u64 [] = none
parse_u64 (c ∷ s) = if c == b'+' then parse_nonempty (2 ^ 64) s else parse_nonempty (2 ^ 64) (c ∷ s)

abbrev negated : Option ℕ → Option ℤ
negated none = none
negated (some zero) = some (pos 0)
negated (some (suc n)) = some (negsuc n)

abbrev plain : Option ℕ → Option ℤ
plain none = none
plain (some n) = some (pos n)

-- `s.parse::<i64>().ok()`
unfoldable pub parse_i64 : Text → Option ℤ
unfolding parse_nonempty
parse_i64 [] = none
parse_i64 (c ∷ s) =
    if c == b'-'
    then negated (parse_nonempty (2 ^ 63 + 1) s)
    else if c == b'+'
    then plain (parse_nonempty (2 ^ 63) s)
    else plain (parse_nonempty (2 ^ 63) (c ∷ s))
