-- ===== src/Store/Log/Commit/RoundTrip.antt =====
-- A commit that is written is read back.
use unity_catalog.Prelude.{
  ◌≤◌, true, none, some, List, [], ◌∷◌, ◌++◌, ok, ◌>>=◌, >>=-eq-ok, All, ◌≡◌, refl, sym, ap, ◌∙◌,
  arith,
}
use mathlib.Core.List.{append-nil, append_assoc}
use unity_catalog.Prelude.Text.{Text}
use unity_catalog.Store.Platform.{Platform}
use unity_catalog.Store.Action.{Action}
use unity_catalog.Store.Log.Lines.{lines, lines_from, is_utf8, is_utf8_from}
use unity_catalog.Store.Log.Commit.Written.{with_line-lines}
use unity_catalog.Store.Log.Commit.{
  CommitInfo, Line, JsonLines, IsWritten, from_action, format_version, with_line, encode_actions,
  encode_commit, Read, decode_line, decode_raw, decode_lines, decode_commit,
}

module _ {Value : Type 0} {platform : Platform Value} (json : JsonLines platform) where
  -- A line that is written is read first, and what follows it next.
  with_line-read :
      (line : Line Value) (rest out : Text) (read : Read json)
      → IsWritten platform line
      → is_utf8 rest ≡ true
      → with_line json line rest ≡ ok out
      → (is_utf8 out ≡ true)
        × (decode_lines json read (lines out)
            ≡ (decode_line json read line >>= λ next. decode_lines json next (lines rest)))
  unfolding decode_lines
  with_line-read line rest out read written u h =
      let (s, v, l, b, p, _) = with_line-lines json line rest out written u h in
      let raw : decode_raw json read s ≡ decode_line json read line =
        unfold decode_raw in rw b (rw p refl) in
      (v, rw l (rw raw refl))

  decode_line-from_action :
      (read : Read json) (action : Action Value)
      → decode_line json read (from_action action) ≡ ok (read.0, read.1 ++ action ∷ [])
  unfolding decode_line
  decode_line-from_action read (Action.upsert kind id body) = refl
  decode_line-from_action read (Action.remove kind id) = refl

  encode_actions-read :
      (actions : List (Action Value)) (out : Text) (read : Read json)
      → All (λ action. IsWritten platform (from_action action)) actions
      → encode_actions json actions ≡ ok out
      → (is_utf8 out ≡ true) × (decode_lines json read (lines out) ≡ ok (read.0, read.1 ++ actions))
  unfolding encode_actions decode_lines
  encode_actions-read [] out read a h =
      let q : [] ≡ out = ground arith in
      (
        rw (← q) (unfold is_utf8 is_utf8_from in refl),
        rw (← q) (
            unfold lines lines_from in
            ap (λ (acts : List (Action Value)). ok (read.0, acts)) (sym (append-nil read.1))),
      )
  encode_actions-read (action ∷ actions) out read a h =
      let (rest, r, w) = >>=-eq-ok (encode_actions json actions) _ h in
      let next : Read json = (read.0, read.1 ++ action ∷ []) in
      let (u, ih) = encode_actions-read actions rest next a.1 r in
      let (v, e) = with_line-read (from_action action) rest out read a.0 u w in
      (
        v,
        e
            ∙ rw (decode_line-from_action read action) (
                ih
                ∙ ap (λ (acts : List (Action Value)). ok (read.0, acts))
                    (append_assoc read.1 (action ∷ []) actions)),
      )

  -- What `encode_commit` writes, in a format that this build knows and with bodies made from rows,
  -- `decode_commit` reads back: the same provenance and the same actions in order.
  pub decode_commit-encode_commit :
      (info : CommitInfo) (actions : List (Action Value)) (out : Text)
      → info.format ≤ format_version
      → All (λ action. IsWritten platform (from_action action)) actions
      → encode_commit json info actions ≡ ok out
      → decode_commit json out ≡ ok (info, actions)
  unfolding encode_commit decode_commit
  decode_commit-encode_commit info actions out known a h =
      let (rest, r, w) = >>=-eq-ok (encode_actions json actions) _ h in
      let (u, e) = encode_actions-read actions rest (some info, []) a r in
      let (v, d) = with_line-read (Line.commit_info info) rest out (none, []) tt u w in
      let first : decode_line json (none, []) (Line.commit_info info) ≡ ok (some info, []) =
        unfold decode_line in ground arith in
      rw v (rw d (rw first (rw e refl)))
