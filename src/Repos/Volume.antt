-- ===== src/Repos/Volume.antt =====
-- crates/uc-db/src/repos/volume.rs
pub mod Keeps
use unity_catalog.Prelude.{
  Bool, true, false, ℤ, Option, none, some, List, [], ◌∷◌, ◌++◌, Result, ok, err, internal, ok_or,
  ◌>>=◌, is_some, traverse, not_found, resource_already_exists, if◌then◌else◌,
}
use unity_catalog.Prelude.Text.{Text}
use unity_catalog.Pagination.{page, over_fetch}
use unity_catalog.Models.{Uuid, VolumeRow}
use unity_catalog.Store.Kind.{EntityKind}
use unity_catalog.Store.Platform.{Platform}
use unity_catalog.Store.Row.{Row}
use unity_catalog.Store.NaturalKey.{child_key}
use unity_catalog.Store.Action.{Action}
use unity_catalog.Store.Snapshot.{Snapshot, get, get_by_natural_key}
use unity_catalog.Store.Snapshot.Scan.{scan, scan_prefix, iter}
use unity_catalog.Repos.Build.{
  Build, writes, upsert_one, coalesce, replaced, check_rename, exists_key,
}

unfoldable pub row_of : Row → Result VolumeRow
row_of (Row.volume r) = ok r
row_of _ = err internal

unfoldable pub get_by_id : Snapshot → Uuid → Result VolumeRow
unfolding row_of
get_by_id snap id = ok_or not_found (get snap EntityKind.volume id) >>= row_of

-- the fields that `update` writes over
abbrev pub patched :
    (comment : Option Text) (owner : Option Text) (updated_at : ℤ) (updated_by : Option Text)
    (named : Text)
    → VolumeRow
    → VolumeRow
patched comment owner updated_at updated_by named found = record found {
  name = named;
  comment = coalesce comment found.comment;
  owner = coalesce owner found.owner;
  updated_at = some updated_at;
  updated_by = updated_by;
}

module _ {Value : Type 0} (platform : Platform Value) where
  unfoldable pub get_by_schema_and_name : Snapshot → Uuid → Text → Result VolumeRow
  unfolding row_of
  get_by_schema_and_name snap schema_id name =
      ok_or not_found
        (get_by_natural_key snap EntityKind.volume (child_key platform schema_id name))
      >>= row_of

  unfoldable pub list : Snapshot → Uuid → Option Text → ℤ → Result (List VolumeRow × Option Text)
  unfolding row_of
  list snap schema_id page_token max_results = do
    rows ← traverse row_of (
        scan_prefix snap EntityKind.volume (child_key platform schema_id []) page_token
          (over_fetch max_results))
    ok (page rows max_results (λ r. r.name))

  unfoldable pub create : (row : VolumeRow) → Build Value VolumeRow
  create row snap =
      if exists_key snap EntityKind.volume (child_key platform row.schema_id row.name)
      then err resource_already_exists
      else upsert_one platform EntityKind.volume row.id row row

  unfoldable pub update :
      (id : Uuid) (new_name : Option Text) (comment : Option Text) (owner : Option Text)
      (updated_at : ℤ) (updated_by : Option Text)
      → Build Value VolumeRow
  unfolding row_of
  update id new_name comment owner updated_at updated_by snap = do
    current ← ok_or not_found (get snap EntityKind.volume id)
    found ← row_of current
    named ←
        check_rename snap EntityKind.volume (child_key platform found.schema_id)
          resource_already_exists found.name new_name
    let row = patched comment owner updated_at updated_by named found
    upsert_one platform EntityKind.volume id row row

  unfoldable pub delete : Uuid → Build Value Unit
  delete id snap =
      if is_some (get snap EntityKind.volume id)
      then writes (Action.remove EntityKind.volume id ∷ []) tt
      else err not_found
