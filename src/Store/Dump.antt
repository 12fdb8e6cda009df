-- ===== src/Store/Dump.antt =====
-- `encode_checkpoint` and `decode_checkpoint` of crates/uc-db/src/store/mod.rs.
pub mod Load
pub mod Residents
pub mod RoundTrip
use unity_catalog.Prelude.{
  ℕ, Bool, true, false, Option, none, some, List, [], ◌∷◌, ◌++◌, map, length, Result, ok, err,
  internal, ok_or, ◌>>=◌, if◌then◌else◌,
}
use unity_catalog.Prelude.Text.{Text}
use unity_catalog.Prelude.Order.{nat_ord}
use unity_catalog.Prelude.HashMap
use unity_catalog.Prelude.HashMap.{HashMap}
use unity_catalog.Prelude.Sort.{sort}
use unity_catalog.Models.{Uuid}
use unity_catalog.Store.Kind.{EntityKind, kind_ord}
use unity_catalog.Store.Platform.{Platform}
use unity_catalog.Store.Row.{Row, to_body}
use unity_catalog.Store.Action.{Action}
use unity_catalog.Store.Snapshot.{Snapshot, empty, apply}
use unity_catalog.Store.Log.Lines.{lines, is_blank, is_utf8}
use unity_catalog.Store.Log.Commit.{Line, JsonLines, with_line}

-- a row with its kind and its id
abbrev pub Resident : Type 0
Resident = EntityKind × (Uuid × Row)

-- the rows of one kind, in the order of `ids`
unfoldable pub rows_in_order : EntityKind → HashMap Uuid Row → List Uuid → List Resident
rows_in_order kind table [] = []
rows_in_order kind table (id ∷ ids) =
    let rest = rows_in_order kind table ids in
    elim (HashMap.get id table) [ none ↦ rest | some row ↦ (kind, (id, row)) ∷ rest ]

unfoldable pub kinds_in_order : Snapshot → List EntityKind → List Resident
kinds_in_order s [] = []
kinds_in_order s (kind ∷ kinds) =
    let rest = kinds_in_order s kinds in
    elim (HashMap.get kind s.entities) [
      | none ↦ rest
      | some table ↦ rows_in_order kind table (sort (map (λ entry. entry.0) table)) ++ rest
    ]

-- every row, by kind and then by id
unfoldable pub residents : Snapshot → List Resident
unfolding kinds_in_order rows_in_order
residents s = kinds_in_order s (sort (map (λ entry. entry.0) s.entities))

module _ {Value : Type 0} {platform : Platform Value} (json : JsonLines platform) where
  unfoldable pub encode_rows : List Resident → Result Text
  encode_rows [] = ok []
  encode_rows ((kind, (id, row)) ∷ rows) = encode_rows rows >>= λ rest.
      to_body platform row >>= λ body. with_line json (Line.upsert kind id body) rest

  -- the body, and the number of its lines
  unfoldable pub encode_checkpoint : Snapshot → Result (Text × ℕ)
  encode_checkpoint s = encode_rows (residents s) >>= λ body. ok (body, length (residents s))

  -- anything but an upsert is refused
  unfoldable pub load_line : Snapshot → Line Value → Result Snapshot
  load_line s (Line.upsert kind id body) = apply platform s (Action.upsert kind id body)
  load_line s _ = err internal

  unfoldable pub load_raw : Snapshot → Text → Result Snapshot
  load_raw s raw =
      if is_blank raw
      then ok s
      else (ok_or internal (json.parse_line raw) >>= λ line. load_line s line)

  unfoldable pub load_lines : Snapshot → List Text → Result Snapshot
  load_lines s [] = ok s
  load_lines s (raw ∷ rest) = load_raw s raw >>= λ next. load_lines next rest

  unfoldable pub decode_checkpoint : Text → Result Snapshot
  decode_checkpoint bytes = if is_utf8 bytes then load_lines empty (lines bytes) else err internal
