-- ===== src/Store/Log/Commit/Written.antt =====
-- The first line of a text that `with_line` makes.
use unity_catalog.Prelude.{
  suc, true, false, some, [], ◌∷◌, ◌++◌, ok, internal, ok_or, >>=-eq-ok, eq_of_ok_or, ◌≡◌, refl,
  sym, ap, ◌∙◌, arith,
}
use unity_catalog.Prelude.Text.{Text}
use unity_catalog.Store.Platform.{Platform}
use unity_catalog.Store.Log.Lines.{lines, is_blank, is_utf8, is_utf8_from}
use unity_catalog.Store.Log.Lines.Laws.{
  is_utf8-append, lines-printable, is_blank-brace, IsPrintable,
}
use unity_catalog.Store.Log.Checkpoint.{line_count}
use unity_catalog.Store.Log.Commit.{Line, JsonLines, IsWritten, with_line}

line_count-printable :
    (s rest : Text) → IsPrintable s → line_count (s ++ 10 ∷ rest) ≡ suc (line_count rest)
unfolding line_count
line_count-printable [] rest h = refl
line_count-printable (c ∷ s) rest h = ground (arith, line_count-printable s rest h.1)

module _ {Value : Type 0} {platform : Platform Value} (json : JsonLines platform) where
  is_utf8-line :
      (s rest : Text) → is_utf8 s ≡ true → is_utf8 rest ≡ true → is_utf8 (s ++ 10 ∷ rest) ≡ true
  is_utf8-line s rest h k = is_utf8-append s (10 ∷ rest) h (unfold is_utf8 is_utf8_from in k)

  -- It is UTF-8, its first line is not blank and is read as the line that was written, the other lines
  -- are those of the rest, and it has one more.
  pub with_line-lines :
      (line : Line Value) (rest out : Text)
      → IsWritten platform line
      → is_utf8 rest ≡ true
      → with_line json line rest ≡ ok out
      → (s : Text) × (is_utf8 out ≡ true)
        × (lines out ≡ s ∷ lines rest)
        × (is_blank s ≡ false)
        × (json.parse_line s ≡ some line)
        × (line_count out ≡ suc (line_count rest))
  unfolding with_line
  with_line-lines line rest out written u h =
      let (s, t, e) = >>=-eq-ok (ok_or internal (json.line_text line)) _ h in
      let w : json.line_text line ≡ some s = eq_of_ok_or internal (json.line_text line) s t in
      let q : s ++ 10 ∷ rest ≡ out = ground arith in
      let (tail, b) = json.line_text-brace line s w in
      let clean = json.line_text-printable line s w in
      (
        s,
        rw (← q) (is_utf8-line s rest (json.line_text-utf8 line s w) u),
        ap lines (sym q) ∙ lines-printable s rest clean,
        ap is_blank b ∙ is_blank-brace tail,
        json.parse_line-line_text line s written w,
        ap line_count (sym q) ∙ line_count-printable s rest clean,
      )
