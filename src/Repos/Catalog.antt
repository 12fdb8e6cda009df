-- ===== src/Repos/Catalog.antt =====
-- crates/uc-db/src/repos/catalog.rs
pub mod Keeps
use unity_catalog.Prelude.{
  traverse, Bool, true, false, ◌&&◌, not, ℤ, Option, none, some, List, [], ◌∷◌, Result, ok, err,
  internal, ok_or, ◌>>=◌, is_some, catalog_not_found, catalog_already_exists, if◌then◌else◌,
}
use unity_catalog.Prelude.Text.{Text}
use unity_catalog.Prelude.Order.{eqb, bytes_ord}
use unity_catalog.Pagination.{page, over_fetch}
use unity_catalog.Models.{Uuid, CatalogRow}
use unity_catalog.Store.Snapshot.Scan.{scan}
use unity_catalog.Store.Kind.{EntityKind}
use unity_catalog.Store.Platform.{Platform}
use unity_catalog.Store.Row.{Row}
use unity_catalog.Store.Action.{Action}
use unity_catalog.Store.Snapshot.{Snapshot, get, get_by_natural_key}
use unity_catalog.Repos.Build.{Build, writes, upsert_one, coalesce, is_taken}

-- `typed_row!(v, Row::Catalog, "catalog")`
unfoldable pub row_of : Row → Result CatalogRow
row_of (Row.catalog r) = ok r
row_of _ = err internal

unfoldable pub get_by_name : Snapshot → Text → Result CatalogRow
unfolding row_of
get_by_name snap name =
    ok_or catalog_not_found (get_by_natural_key snap EntityKind.catalog name) >>= row_of

unfoldable pub get_by_id : Snapshot → Uuid → Result CatalogRow
unfolding row_of
get_by_id snap id = ok_or catalog_not_found (get snap EntityKind.catalog id) >>= row_of

unfoldable pub list : Snapshot → Option Text → ℤ → Result (List CatalogRow × Option Text)
unfolding row_of
list snap page_token max_results = do
  rows ← traverse row_of (scan snap EntityKind.catalog page_token (over_fetch max_results))
  ok (page rows max_results (λ r. r.name))

-- the rename of `update`, refused when the new name is another catalog's
unfoldable pub renamed : Snapshot → Text → Option Text → CatalogRow → Result CatalogRow
renamed snap name none row = ok row
renamed snap name (some target) row =
    if is_taken snap EntityKind.catalog name target target
    then err catalog_already_exists
    else ok (record row { name = target })

module _ {Value : Type 0} (platform : Platform Value) where
  -- The row is made before the loop, and the check runs at every attempt.
  unfoldable pub create :
      (id : Uuid) (name : Text) (comment owner created_by storage_root : Option Text)
      (created_at : ℤ)
      → Build Value CatalogRow
  create id name comment owner created_by storage_root created_at snap =
      let row : CatalogRow = record {
        id = id;
        name = name;
        comment = comment;
        owner = owner;
        created_at = created_at;
        created_by = created_by;
        updated_at = none;
        updated_by = none;
        storage_root = storage_root;
        storage_location = none;
      } in
      if is_some (get_by_natural_key snap EntityKind.catalog name)
      then err catalog_already_exists
      else upsert_one platform EntityKind.catalog id row row

  unfoldable pub update :
      (name : Text) (new_name comment owner updated_by : Option Text) (updated_at : ℤ)
      → Build Value CatalogRow
  unfolding row_of renamed
  update name new_name comment owner updated_by updated_at snap = do
    current ← ok_or catalog_not_found (get_by_natural_key snap EntityKind.catalog name)
    found ← row_of current
    named ← renamed snap name new_name found
    let row : CatalogRow = record named {
      comment = coalesce comment named.comment;
      owner = coalesce owner named.owner;
      updated_at = some updated_at;
      updated_by = updated_by;
    }
    upsert_one platform EntityKind.catalog row.id row row

  unfoldable pub delete : Text → Build Value Unit
  unfolding row_of
  delete name snap = do
    current ← ok_or catalog_not_found (get_by_natural_key snap EntityKind.catalog name)
    row ← row_of current
    writes (Action.remove EntityKind.catalog row.id ∷ []) tt
