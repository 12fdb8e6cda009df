-- ===== src/Repos/Writes.antt =====
-- The requests together with the two writes of crates/uc-db/src/repos that do not look up every key they
-- write: `insert_columns` of table.rs and `find_or_create_by_external_id` of user.rs.
pub mod Keeps
use unity_catalog.Prelude.{ℤ, List, [], ◌∷◌, Result}
use unity_catalog.Prelude.Text.{Text}
use unity_catalog.Models.{Uuid, ColumnRow}
use unity_catalog.Store.Platform.{Platform}
use unity_catalog.Store.Snapshot.{Snapshot}
use unity_catalog.Repos.Build.{Build}
use unity_catalog.Repos.Requests.{Request, silent, closure, committed, or_unchanged}
use unity_catalog.Repos.Table
use unity_catalog.Repos.Table.Columns.{AreFree}
use unity_catalog.Repos.User
use unity_catalog.Repos.User.Adopt.{IsAdoptable}

pub data Write : Type 0 where
  request : (made : Request) → Write
  insert_columns : (columns : List ColumnRow) → Write
  find_or_create_user : (fresh : Uuid) (external_id : Text) (now : ℤ) → Write

module _ {Value : Type 0} (platform : Platform Value) where
  unfoldable pub build_of : Write → Build Value Unit
  unfolding closure silent Table.insert_columns User.find_or_create_by_external_id
  build_of (Write.request made) = closure platform made
  build_of (Write.insert_columns columns) = silent platform (Table.insert_columns platform columns)
  build_of (Write.find_or_create_user fresh external_id now) =
      silent platform (User.find_or_create_by_external_id platform fresh external_id now)

  -- what a write leaves, which is what it found when it fails
  unfoldable pub run_write : Write → Snapshot → Snapshot
  unfolding build_of committed
  run_write write s = or_unchanged platform s (committed platform (build_of write) s)

  unfoldable pub run_writes : List Write → Snapshot → Snapshot
  unfolding run_write
  run_writes [] s = s
  run_writes (write ∷ writes) s = run_writes writes (run_write write s)

  -- the keys that the write does not look up are free
  abbrev pub Fits : Write → Snapshot → Type 0
  Fits (Write.request made) s = Unit
  Fits (Write.insert_columns columns) s = AreFree platform s columns
  Fits (Write.find_or_create_user fresh external_id now) s = IsAdoptable s external_id

  -- each write fits the snapshot that it runs on
  abbrev pub AllFit : List Write → Snapshot → Type 0
  AllFit [] s = Unit
  AllFit (write ∷ writes) s = Fits write s × AllFit writes (run_write write s)
