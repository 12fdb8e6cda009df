-- ===== src/Store/Log/Lines/Laws.antt =====
-- Texts that are put together from lines.
use unity_catalog.Prelude.{
  ◌≤◌, true, false, Option, none, some, [], ◌∷◌, ◌++◌, All, ◌≡◌, refl, sym, ap, ◌∙◌, arith, ◌==◌,
}
use mathlib.Core.List.{append-nil, append_assoc}
use unity_catalog.Prelude.Text.{Text}
use unity_catalog.Store.Log.Lines.{
  Owed, next_byte, is_utf8_from, is_utf8, strip_cr, lines_from, lines, is_blank,
}

is_utf8_from-append :
    (owed : Owed) (s t : Text)
    → is_utf8_from owed s ≡ true
    → is_utf8 t ≡ true
    → is_utf8_from owed (s ++ t) ≡ true
unfolding is_utf8_from is_utf8
is_utf8_from-append Owed.start [] t h k = k
is_utf8_from-append _ [] t h k = cc
is_utf8_from-append owed (c ∷ s) t h k =
    step (λ left. λ h'. is_utf8_from-append left s t h' k) (next_byte owed c) h
  where
    step :
        ((left : Owed) → is_utf8_from left s ≡ true → is_utf8_from left (s ++ t) ≡ true)
        → (left : Option Owed) → elim left [ none ↦ false | some left ↦ is_utf8_from left s ] ≡ true
        → elim left [ none ↦ false | some left ↦ is_utf8_from left (s ++ t) ] ≡ true
    step f none h = h
    step f (some left) h = f left h

pub is_utf8-append : (s t : Text) → is_utf8 s ≡ true → is_utf8 t ≡ true → is_utf8 (s ++ t) ≡ true
unfolding is_utf8
is_utf8-append s t h k = is_utf8_from-append Owed.start s t h k

-- no control characters
abbrev pub IsPrintable : Text → Type 0
IsPrintable s = All (λ c. 32 ≤ c) s

strip_cr-printable : (s : Text) → IsPrintable s → strip_cr s ≡ s
strip_cr-printable [] h = refl
strip_cr-printable (c ∷ []) h = ground arith
strip_cr-printable (c ∷ d ∷ s) h = ap (λ (rest : Text). c ∷ rest) (strip_cr-printable (d ∷ s) h.1)

lines_from-printable :
    (line s rest : Text)
    → IsPrintable s
    → lines_from line (s ++ 10 ∷ rest) ≡ strip_cr (line ++ s) ∷ lines_from [] rest
unfolding lines_from
lines_from-printable line [] rest h =
    ap (λ (l : Text). strip_cr l ∷ lines_from [] rest) (sym (append-nil line))
lines_from-printable line (c ∷ s) rest h =
    let other : (c == 10) ≡ false = ground arith in
    rw other (
      lines_from-printable (line ++ c ∷ []) s rest h.1
      ∙ ap (λ (l : Text). strip_cr l ∷ lines_from [] rest) (append_assoc line (c ∷ []) s))

-- A line without control characters is the first line of the text that it begins.
pub lines-printable : (s rest : Text) → IsPrintable s → lines (s ++ 10 ∷ rest) ≡ s ∷ lines rest
unfolding lines
lines-printable s rest h =
    lines_from-printable [] s rest h
    ∙ ap (λ (l : Text). l ∷ lines_from [] rest) (strip_cr-printable s h)

-- A text that starts with an opening brace is not blank.
pub is_blank-brace : (s : Text) → is_blank (123 ∷ s) ≡ false
unfolding is_blank
is_blank-brace [] = refl
is_blank-brace (d ∷ []) = refl
is_blank-brace (d ∷ e ∷ s) = refl
