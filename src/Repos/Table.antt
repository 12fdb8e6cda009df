-- ===== src/Repos/Table.antt =====
-- crates/uc-db/src/repos/table.rs
pub mod Keeps
pub mod Columns
pub mod Names
use unity_catalog.Prelude.{
  Bool, true, false, ℤ, Option, none, some, List, [], ◌∷◌, ◌++◌, Result, ok, err, internal, ok_or,
  ◌>>=◌, is_some, traverse, table_not_found, table_already_exists, if◌then◌else◌,
}
use unity_catalog.Prelude.Text.{Text}
use unity_catalog.Pagination.{page, over_fetch}
use unity_catalog.Models.{Uuid, TableRow, ColumnRow}
use unity_catalog.Store.Kind.{EntityKind}
use unity_catalog.Store.Platform.{Platform}
use unity_catalog.Store.Row.{Row}
use unity_catalog.Store.NaturalKey.{child_key}
use unity_catalog.Store.Action.{Action}
use unity_catalog.Store.Snapshot.{Snapshot, get, get_by_natural_key}
use unity_catalog.Store.Snapshot.Scan.{scan_prefix, ids_under_prefix}
use unity_catalog.Repos.Build.{
  Build, writes, upsert_row, upsert_one, coalesce, replaced, check_rename, exists_key, removals,
}

unfoldable pub table_of : Row → Result TableRow
table_of (Row.table r) = ok r
table_of _ = err internal

unfoldable pub column_of : Row → Result ColumnRow
column_of (Row.column r) = ok r
column_of _ = err internal

unfoldable pub get_by_id : Snapshot → Uuid → Result TableRow
unfolding table_of
get_by_id snap id = ok_or table_not_found (get snap EntityKind.table id) >>= table_of

-- `.filter_map(|id| snap.get(EntityKind::Column, id)).map(column_of).collect()`
columns_at : Snapshot → List Uuid → Result (List ColumnRow)
unfolding column_of
columns_at snap [] = ok []
columns_at snap (id ∷ ids) =
    let rest = columns_at snap ids in
    elim (get snap EntityKind.column id) [
      | none ↦ rest
      | some v ↦ column_of v >>= λ column. rest >>= λ columns. ok (column ∷ columns)
    ]

-- the fields that `patch` writes over
abbrev pub patched :
    (column_count : Option ℤ) (comment : Option Text) (iceberg_version iceberg_timestamp : Option ℤ)
    (updated_at : ℤ)
    → TableRow
    → TableRow
patched column_count comment iceberg_version iceberg_timestamp updated_at found = record found {
  column_count = coalesce column_count found.column_count;
  comment = coalesce comment found.comment;
  uniform_iceberg_converted_delta_version =
      coalesce iceberg_version found.uniform_iceberg_converted_delta_version;
  uniform_iceberg_converted_delta_timestamp =
      coalesce iceberg_timestamp found.uniform_iceberg_converted_delta_timestamp;
  updated_at = some updated_at;
}

abbrev pub named_at : Text → ℤ → TableRow → TableRow
named_at name updated_at found = record found { name = name; updated_at = some updated_at }

module _ {Value : Type 0} (platform : Platform Value) where
  unfoldable pub get_by_schema_and_name : Snapshot → Uuid → Text → Result TableRow
  unfolding table_of
  get_by_schema_and_name snap schema_id name =
      ok_or table_not_found
        (get_by_natural_key snap EntityKind.table (child_key platform schema_id name))
      >>= table_of

  unfoldable pub list : Snapshot → Uuid → Option Text → ℤ → Result (List TableRow × Option Text)
  unfolding table_of
  list snap schema_id page_token max_results = do
    rows ← traverse table_of (
        scan_prefix snap EntityKind.table (child_key platform schema_id []) page_token
          (over_fetch max_results))
    ok (page rows max_results (λ r. r.name))

  unfoldable pub create : (row : TableRow) → Build Value TableRow
  create row snap =
      if exists_key snap EntityKind.table (child_key platform row.schema_id row.name)
      then err table_already_exists
      else upsert_one platform EntityKind.table row.id row row

  unfoldable pub delete : Uuid → Build Value Unit
  delete id snap =
      if is_some (get snap EntityKind.table id)
      then writes (Action.remove EntityKind.table id ∷ []) tt
      else err table_not_found

  -- one action for each column, in order
  unfoldable pub column_actions : List ColumnRow → Result (List (Action Value))
  column_actions [] = ok []
  column_actions (column ∷ columns) = do
    act ← upsert_row platform EntityKind.column column.id column
    acts ← column_actions columns
    ok (act ∷ acts)

  unfoldable pub insert_columns : List ColumnRow → Build Value Unit
  unfolding column_actions
  insert_columns columns snap = do acts ← column_actions columns; writes acts tt

  -- in ordinal order, which is the order of the keys
  unfoldable pub get_columns : Snapshot → Uuid → Result (List ColumnRow)
  unfolding columns_at
  get_columns snap table_id =
      columns_at snap (ids_under_prefix snap EntityKind.column (child_key platform table_id []))

  unfoldable pub delete_columns : Uuid → Build Value Unit
  delete_columns table_id snap =
      writes
        (removals EntityKind.column
          (ids_under_prefix snap EntityKind.column (child_key platform table_id [])))
        tt

  -- A row that is not there is no error, and nothing is written.
  unfoldable pub patch_at :
      Option Row
      → (id : Uuid) (column_count : Option ℤ) (comment : Option Text)
        (iceberg_version iceberg_timestamp : Option ℤ) (updated_at : ℤ)
      → Build Value Unit
  unfolding table_of
  patch_at none id column_count comment iceberg_version iceberg_timestamp updated_at snap =
      writes [] tt
  patch_at (some current) id column_count comment iceberg_version iceberg_timestamp updated_at
        snap =
      do
        found ← table_of current
        upsert_one platform EntityKind.table id
            (patched column_count comment iceberg_version iceberg_timestamp updated_at found) tt

  unfoldable pub patch :
      (id : Uuid) (column_count : Option ℤ) (comment : Option Text)
      (iceberg_version iceberg_timestamp : Option ℤ) (updated_at : ℤ)
      → Build Value Unit
  unfolding patch_at
  patch id column_count comment iceberg_version iceberg_timestamp updated_at snap =
      patch_at (get snap EntityKind.table id) id column_count comment iceberg_version
        iceberg_timestamp updated_at snap

  unfoldable pub rename_at :
      Option Row → (id : Uuid) (new_name : Text) (updated_at : ℤ) → Build Value Unit
  unfolding table_of
  rename_at none id new_name updated_at snap = writes [] tt
  rename_at (some current) id new_name updated_at snap = do
    found ← table_of current
    named ←
        check_rename snap EntityKind.table (child_key platform found.schema_id) table_already_exists
          found.name (some new_name)
    upsert_one platform EntityKind.table id (named_at named updated_at found) tt

  unfoldable pub rename : (id : Uuid) (new_name : Text) (updated_at : ℤ) → Build Value Unit
  unfolding rename_at
  rename id new_name updated_at snap =
      rename_at (get snap EntityKind.table id) id new_name updated_at snap
