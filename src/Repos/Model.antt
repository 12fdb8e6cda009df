-- ===== src/Repos/Model.antt =====
-- crates/uc-db/src/repos/model.rs
pub mod Keeps
use unity_catalog.Prelude.{
  Bool, true, false, ℤ, Option, none, some, List, [], ◌∷◌, ◌++◌, Result, ok, err, internal, ok_or,
  ◌>>=◌, is_some, traverse, not_found, resource_already_exists, if◌then◌else◌,
}
use unity_catalog.Prelude.Text.{Text}
use unity_catalog.Pagination.{page, over_fetch}
use unity_catalog.Models.{Uuid, RegisteredModelRow}
use unity_catalog.Store.Kind.{EntityKind}
use unity_catalog.Store.Platform.{Platform}
use unity_catalog.Store.Row.{Row}
use unity_catalog.Store.NaturalKey.{child_key}
use unity_catalog.Store.Action.{Action}
use unity_catalog.Store.Snapshot.{Snapshot, get, get_by_natural_key}
use unity_catalog.Store.Snapshot.Scan.{scan, scan_prefix, iter}
use unity_catalog.Repos.Build.{
  Build, writes, upsert_one, coalesce, replaced, check_rename, exists_key,
}

unfoldable pub row_of : Row → Result RegisteredModelRow
row_of (Row.registered_model r) = ok r
row_of _ = err internal

-- the fields that `update_model` writes over
abbrev pub patched :
    (comment : Option Text) (owner : Option Text) (updated_at : ℤ) (updated_by : Option Text)
    (named : Text)
    → RegisteredModelRow
    → RegisteredModelRow
patched comment owner updated_at updated_by named found = record found {
  name = named;
  comment = coalesce comment found.comment;
  owner = coalesce owner found.owner;
  updated_at = some updated_at;
  updated_by = updated_by;
}

module _ {Value : Type 0} (platform : Platform Value) where
  unfoldable pub get_model_by_schema_and_name : Snapshot → Uuid → Text → Result RegisteredModelRow
  unfolding row_of
  get_model_by_schema_and_name snap schema_id name =
      ok_or not_found
        (get_by_natural_key snap EntityKind.registered_model (child_key platform schema_id name))
      >>= row_of

  unfoldable pub list_models :
      Snapshot → Uuid → Option Text → ℤ → Result (List RegisteredModelRow × Option Text)
  unfolding row_of
  list_models snap schema_id page_token max_results = do
    rows ← traverse row_of (
        scan_prefix snap EntityKind.registered_model (child_key platform schema_id []) page_token
          (over_fetch max_results))
    ok (page rows max_results (λ r. r.name))

  unfoldable pub create_model : (row : RegisteredModelRow) → Build Value RegisteredModelRow
  create_model row snap =
      if exists_key snap EntityKind.registered_model (child_key platform row.schema_id row.name)
      then err resource_already_exists
      else upsert_one platform EntityKind.registered_model row.id row row

  -- A row that is not there is no error, and nothing is written.
  unfoldable pub update_model_at :
      Option Row
      → (id : Uuid) (new_name : Option Text) (comment : Option Text) (owner : Option Text)
        (updated_at : ℤ) (updated_by : Option Text)
      → Build Value Unit
  unfolding row_of
  update_model_at none id new_name comment owner updated_at updated_by snap = writes [] tt
  update_model_at (some current) id new_name comment owner updated_at updated_by snap = do
    found ← row_of current
    named ←
        check_rename snap EntityKind.registered_model (child_key platform found.schema_id)
          resource_already_exists found.name new_name
    let row = patched comment owner updated_at updated_by named found
    upsert_one platform EntityKind.registered_model id row tt

  unfoldable pub update_model :
      (id : Uuid) (new_name : Option Text) (comment : Option Text) (owner : Option Text)
      (updated_at : ℤ) (updated_by : Option Text)
      → Build Value Unit
  unfolding update_model_at
  update_model id new_name comment owner updated_at updated_by snap =
      update_model_at (get snap EntityKind.registered_model id) id new_name comment owner updated_at
        updated_by snap
