-- ===== src/Store/Log/Commit.antt =====
-- The commit bodies of crates/uc-db/src/store/action.rs: one JSON object a line, the provenance first.
-- The text of one line, which serde_json writes and reads, is a parameter.
pub mod RoundTrip
pub mod Written
use unity_catalog.Prelude.{
  ℕ, ℤ, Bool, true, false, Option, none, some, List, [], ◌∷◌, ◌++◌, Result, ok, err, internal,
  ok_or, ◌>>=◌, ltb, ◌≡◌, if◌then◌else◌,
}
use unity_catalog.Prelude.Text.{Text}
use unity_catalog.Models.{Uuid}
use unity_catalog.Store.Kind.{EntityKind}
use unity_catalog.Store.Platform.{Platform, RowOf}
use unity_catalog.Store.Action.{Action}
use unity_catalog.Store.Log.Lines.{lines, is_blank, is_utf8}
use unity_catalog.Store.Log.Lines.Laws.{IsPrintable}

-- crates/uc-db/src/store/actor.rs
pub record Actor : Type 0 where
  pub id : Option Uuid
  pub name : Text

pub record CommitInfo : Type 0 where
  pub format : ℕ
  pub timestamp : ℤ
  pub operation : Option Text
  pub actor : Option Actor

pub data Line (Value : Type 0) : Type 0 where
  commit_info : CommitInfo → Line Value
  upsert : EntityKind → Uuid → Value → Line Value
  remove : EntityKind → Uuid → Line Value

abbrev pub format_version : ℕ
format_version = 1

-- `impl From<Action> for Line`
abbrev pub from_action : {Value : Type 0} → Action Value → Line Value
from_action (Action.upsert kind id body) = Line.upsert kind id body
from_action (Action.remove kind id) = Line.remove kind id

-- The body of an upsert was made from a row. Rows hold no floating-point numbers.
abbrev pub IsWritten : {Value : Type 0} → Platform Value → Line Value → Type 0
IsWritten platform (Line.upsert kind id body) =
    (k : EntityKind) × (row : RowOf k) × (platform.to_value k row ≡ some body)
IsWritten platform _ = Unit

-- `serde_json::to_vec(&line)` and `serde_json::from_str::<Line>(text)`: a compact JSON object, in UTF-8,
-- with control characters escaped, that is read back as what was written.
pub record JsonLines {Value : Type 0} (platform : Platform Value) : Type 0 where
  pub line_text : Line Value → Option Text
  pub parse_line : Text → Option (Line Value)
  pub parse_line-line_text :
      (line : Line Value) (s : Text)
      → IsWritten platform line
      → line_text line ≡ some s
      → parse_line s ≡ some line
  pub line_text-brace :
      (line : Line Value) (s : Text) → line_text line ≡ some s → (rest : Text) × (s ≡ 123 ∷ rest)
  pub line_text-printable : (line : Line Value) (s : Text) → line_text line ≡ some s → IsPrintable s
  pub line_text-utf8 : (line : Line Value) (s : Text) → line_text line ≡ some s → is_utf8 s ≡ true

module _ {Value : Type 0} {platform : Platform Value} (json : JsonLines platform) where
  -- `to_vec(&line)` and a line feed, before what follows
  unfoldable pub with_line : Line Value → Text → Result Text
  with_line line rest = ok_or internal (json.line_text line) >>= λ s. ok (s ++ 10 ∷ rest)

  unfoldable pub encode_actions : List (Action Value) → Result Text
  encode_actions [] = ok []
  encode_actions (action ∷ actions) = encode_actions actions >>= with_line (from_action action)

  -- An error of one line is the error of the whole, and the one error is `internal`.
  unfoldable pub encode_commit : CommitInfo → List (Action Value) → Result Text
  encode_commit info actions = encode_actions actions >>= with_line (Line.commit_info info)

  -- what is read so far
  abbrev pub Read : Type 0
  Read = Option CommitInfo × List (Action Value)

  unfoldable pub decode_line : Read → Line Value → Result Read
  decode_line read (Line.commit_info info) =
      if ltb format_version info.format then err internal else ok (some info, read.1)
  decode_line read (Line.upsert kind id body) =
      ok (read.0, read.1 ++ Action.upsert kind id body ∷ [])
  decode_line read (Line.remove kind id) = ok (read.0, read.1 ++ Action.remove kind id ∷ [])

  -- a blank line is tolerated, and any other has to parse
  unfoldable pub decode_raw : Read → Text → Result Read
  decode_raw read raw =
      if is_blank raw
      then ok read
      else (ok_or internal (json.parse_line raw) >>= λ line. decode_line read line)

  unfoldable pub decode_lines : Read → List Text → Result Read
  decode_lines read [] = ok read
  decode_lines read (raw ∷ rest) = decode_raw read raw >>= λ next. decode_lines next rest

  unfoldable pub decode_commit : Text → Result (CommitInfo × List (Action Value))
  decode_commit bytes =
      if is_utf8 bytes
      then (decode_lines (none, []) (lines bytes) >>= λ read.
          ok_or internal read.0 >>= λ info. ok (info, read.1))
      else err internal
