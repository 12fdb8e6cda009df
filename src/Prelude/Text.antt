-- ===== src/Prelude/Text.antt =====
-- Rust's `String` and `str`, as the bytes of their UTF-8. Literals of the source are ASCII.
use Prim.Native.Nat.{ℕ}
use Prim.Native.Char.{code}
use Prim.Native.String.{String}
use mathlib.Core.List.{List, [], ◌∷◌, ◌++◌, reverse, reverse-append, reverse-reverse}
use mathlib.Core.Bool.{Bool, true, false, ◌&&◌, ◌||◌}
use mathlib.Core.Option.{Option, none, some}
use mathlib.Core.Path.{◌≡◌, refl, ap, ◌∙◌}
use native.Mathlib.Omega.{arith}
use unity_catalog.Prelude.Tests.{◌==◌, if◌then◌else◌, map_option}
use unity_catalog.Prelude.Lists.{length, drop}

abbrev pub Text : Type 0
Text = List ℕ

-- the bytes of an ASCII literal
abbrev pub bytes : String → Text
bytes String.[] = []
bytes (String.◌∷◌ c s) = code c ∷ bytes s

-- `s.strip_prefix(p)`
abbrev pub strip_prefix : Text → Text → Option Text
strip_prefix [] s = some s
strip_prefix (x ∷ p) [] = none
strip_prefix (x ∷ p) (y ∷ s) = let rest = strip_prefix p s in if x == y then rest else none

abbrev pub starts_with : Text → Text → Bool
starts_with [] s = true
starts_with (x ∷ p) [] = false
starts_with (x ∷ p) (y ∷ s) = x == y && starts_with p s

pub starts_with-append : (p s : Text) → starts_with p (p ++ s) ≡ true
starts_with-append [] s = refl
starts_with-append (x ∷ p) s = ground (arith, starts_with-append p s)

pub strip_prefix-append : (p s : Text) → strip_prefix p (p ++ s) ≡ some s
strip_prefix-append [] s = refl
strip_prefix-append (x ∷ p) s = ground (arith, strip_prefix-append p s)

pub drop-append : (p s : Text) → drop (length p) (p ++ s) ≡ s
drop-append [] s = refl
drop-append (x ∷ p) s = drop-append p s

pub starts_with→append : (p s : Text) → starts_with p s ≡ true → s ≡ p ++ drop (length p) s
starts_with→append [] s h = refl
starts_with→append (x ∷ p) [] h = cc
starts_with→append (x ∷ p) (y ∷ s) h = ground (arith, starts_with→append p s)

-- `s.contains(c)` for a byte
abbrev pub contains : ℕ → Text → Bool
contains c [] = false
contains c (x ∷ s) = x == c || contains c s

-- `s.strip_suffix(p)`
abbrev pub strip_suffix : Text → Text → Option Text
strip_suffix p s = map_option reverse (strip_prefix (reverse p) (reverse s))

abbrev pub ends_with : Text → Text → Bool
ends_with p s = starts_with (reverse p) (reverse s)

pub strip_suffix-append : (s p : Text) → strip_suffix p (s ++ p) ≡ some s
strip_suffix-append s p =
    ap (λ (r : Text). map_option reverse (strip_prefix (reverse p) r)) (reverse-append s p)
    ∙ ap (map_option reverse) (strip_prefix-append (reverse p) (reverse s))
    ∙ ap some (reverse-reverse s)

pub ends_with-append : (s p : Text) → ends_with p (s ++ p) ≡ true
ends_with-append s p = rw reverse-append (starts_with-append (reverse p) (reverse s))

pub contains-append : (c : ℕ) (s t : Text) → contains c (s ++ t) ≡ (contains c s || contains c t)
contains-append c [] t = refl
contains-append c (x ∷ s) t = ground (arith, contains-append c s t)
