-- ===== src/Repos/Metastore.antt =====
-- crates/uc-db/src/repos/metastore.rs
pub mod Keeps
use unity_catalog.Prelude.{none, some, List, [], ◌∷◌, Result, ok, err, internal, ◌>>=◌}
use unity_catalog.Prelude.Text.{Text}
use unity_catalog.Models.{Uuid, MetastoreRow}
use unity_catalog.Store.Kind.{EntityKind}
use unity_catalog.Store.Platform.{Platform}
use unity_catalog.Store.Row.{Row}
use unity_catalog.Store.Action.{Action}
use unity_catalog.Store.Snapshot.{Snapshot}
use unity_catalog.Store.Snapshot.Scan.{iter}
use unity_catalog.Repos.Build.{Build, writes, upsert_one}

unfoldable pub row_of : Row → Result MetastoreRow
row_of (Row.metastore r) = ok r
row_of _ = err internal

-- the first of the rows
unfoldable pub first_of : List Row → Result MetastoreRow
unfolding row_of
first_of [] = err internal
first_of (found ∷ rows) = row_of found

unfoldable pub get : Snapshot → Result MetastoreRow
unfolding first_of
get snap = first_of (iter snap EntityKind.metastore)

module _ {Value : Type 0} (platform : Platform Value) where
  -- `fresh` is what `Uuid::now_v7()` gives
  unfoldable pub init_unless :
      (fresh : Uuid) (name : Text) → List Row → Result (List (Action Value) × MetastoreRow)
  unfolding row_of
  init_unless fresh name (existing ∷ rows) =
      row_of existing >>= λ row. writes {Value = Value} [] row
  init_unless fresh name [] =
      let row : MetastoreRow = record { id = fresh; name = name } in
      upsert_one platform EntityKind.metastore row.id row row

  unfoldable pub get_or_init : (fresh : Uuid) (name : Text) → Build Value MetastoreRow
  unfolding init_unless
  get_or_init fresh name snap = init_unless fresh name (iter snap EntityKind.metastore)
