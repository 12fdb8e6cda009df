-- ===== src/Repos/Schema.antt =====
-- crates/uc-db/src/repos/schema.rs
pub mod Keeps
use unity_catalog.Prelude.{
  Bool, true, false, ℤ, Option, none, some, List, [], ◌∷◌, ◌++◌, Result, ok, err, internal, ok_or,
  ◌>>=◌, is_some, traverse, schema_not_found, schema_already_exists, if◌then◌else◌,
}
use unity_catalog.Prelude.Text.{Text}
use unity_catalog.Pagination.{page, over_fetch}
use unity_catalog.Models.{Uuid, SchemaRow}
use unity_catalog.Store.Kind.{EntityKind}
use unity_catalog.Store.Platform.{Platform}
use unity_catalog.Store.Row.{Row}
use unity_catalog.Store.NaturalKey.{child_key}
use unity_catalog.Store.Action.{Action}
use unity_catalog.Store.Snapshot.{Snapshot, get, get_by_natural_key}
use unity_catalog.Store.Snapshot.Scan.{scan, scan_prefix, iter}
use unity_catalog.Repos.Build.{
  Build, writes, upsert_one, coalesce, replaced, check_rename, exists_key,
}

unfoldable pub row_of : Row → Result SchemaRow
row_of (Row.schema r) = ok r
row_of _ = err internal

unfoldable pub get_by_id : Snapshot → Uuid → Result SchemaRow
unfolding row_of
get_by_id snap id = ok_or schema_not_found (get snap EntityKind.schema id) >>= row_of

-- `typed_row!(catalog, Row::Catalog, "catalog")?.id`
unfoldable pub catalog_id_of : Row → Result Uuid
catalog_id_of (Row.catalog r) = ok r.id
catalog_id_of _ = err internal

-- the fields that `update` writes over
abbrev pub patched :
    (comment : Option Text) (owner : Option Text) (updated_by : Option Text) (updated_at : ℤ)
    (named : Text)
    → SchemaRow
    → SchemaRow
patched comment owner updated_by updated_at named found = record found {
  name = named;
  comment = coalesce comment found.comment;
  owner = coalesce owner found.owner;
  updated_at = some updated_at;
  updated_by = updated_by;
}

module _ {Value : Type 0} (platform : Platform Value) where
  unfoldable pub list : Snapshot → Uuid → Option Text → ℤ → Result (List SchemaRow × Option Text)
  unfolding row_of
  list snap catalog_id page_token max_results = do
    rows ← traverse row_of (
        scan_prefix snap EntityKind.schema (child_key platform catalog_id []) page_token
          (over_fetch max_results))
    ok (page rows max_results (λ r. r.name))

  unfoldable pub get_by_full_name : Snapshot → (catalog_name schema_name : Text) → Result SchemaRow
  unfolding row_of catalog_id_of
  get_by_full_name snap catalog_name schema_name = do
    catalog ← ok_or schema_not_found (get_by_natural_key snap EntityKind.catalog catalog_name)
    catalog_id ← catalog_id_of catalog
    ok_or schema_not_found
          (get_by_natural_key snap EntityKind.schema (child_key platform catalog_id schema_name))
        >>= row_of

  unfoldable pub create :
      (id catalog_id : Uuid) (name : Text) (comment owner created_by storage_root : Option Text)
      (created_at : ℤ)
      → Build Value SchemaRow
  create id catalog_id name comment owner created_by storage_root created_at snap =
      let row : SchemaRow = record {
        id = id;
        catalog_id = catalog_id;
        name = name;
        comment = comment;
        owner = owner;
        created_at = created_at;
        created_by = created_by;
        updated_at = none;
        updated_by = none;
        storage_root = storage_root;
        storage_location = none;
      } in
      if exists_key snap EntityKind.schema (child_key platform row.catalog_id row.name)
      then err schema_already_exists
      else upsert_one platform EntityKind.schema id row row

  unfoldable pub update :
      (id : Uuid) (new_name : Option Text) (comment : Option Text) (owner : Option Text)
      (updated_by : Option Text) (updated_at : ℤ)
      → Build Value SchemaRow
  unfolding row_of
  update id new_name comment owner updated_by updated_at snap = do
    current ← ok_or schema_not_found (get snap EntityKind.schema id)
    found ← row_of current
    named ←
        check_rename snap EntityKind.schema (child_key platform found.catalog_id)
          schema_already_exists found.name new_name
    let row = patched comment owner updated_by updated_at named found
    upsert_one platform EntityKind.schema id row row

  unfoldable pub delete : Uuid → Build Value Unit
  delete id snap =
      if is_some (get snap EntityKind.schema id)
      then writes (Action.remove EntityKind.schema id ∷ []) tt
      else err schema_not_found
