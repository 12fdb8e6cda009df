-- ===== src/Repos/ExternalLocation.antt =====
-- crates/uc-db/src/repos/external_location.rs
pub mod Keeps
pub mod Prefix
use unity_catalog.Prelude.{
  length, ltb, leb, ◌==◌, ◌&&◌, ◌||◌, keep, Bool, true, false, ℤ, Option, none, some, List, [], ◌∷◌,
  ◌++◌, Result, ok, err, internal, ok_or, ◌>>=◌, is_some, traverse, not_found,
  external_location_already_exists, if◌then◌else◌,
}
use unity_catalog.Prelude.Text.{Text, starts_with}
use unity_catalog.Pagination.{page, over_fetch}
use unity_catalog.Models.{Uuid, ExternalLocationRow}
use unity_catalog.Store.Kind.{EntityKind}
use unity_catalog.Store.Platform.{Platform}
use unity_catalog.Store.Row.{Row}
use unity_catalog.Store.NaturalKey.{child_key}
use unity_catalog.Store.Action.{Action}
use unity_catalog.Store.Snapshot.{Snapshot, get, get_by_natural_key}
use unity_catalog.Store.Snapshot.Scan.{scan, scan_prefix, iter}
use unity_catalog.Repos.Build.{
  Build, writes, upsert_one, coalesce, replaced, check_rename, exists_key,
}

unfoldable pub row_of : Row → Result ExternalLocationRow
row_of (Row.external_location r) = ok r
row_of _ = err internal

unfoldable pub get_by_name : Snapshot → Text → Result ExternalLocationRow
unfolding row_of
get_by_name snap name =
    ok_or not_found (get_by_natural_key snap EntityKind.external_location name) >>= row_of

unfoldable pub list : Snapshot → Option Text → ℤ → Result (List ExternalLocationRow × Option Text)
unfolding row_of
list snap page_token max_results = do
  rows ←
      traverse row_of (scan snap EntityKind.external_location page_token (over_fetch max_results))
  ok (page rows max_results (λ r. r.name))

-- `b.url.len().cmp(&a.url.len()).then_with(|| a.id.cmp(&b.id))`: `a` is not sorted behind `b`
abbrev pub is_before : ExternalLocationRow → ExternalLocationRow → Bool
is_before a b = ltb (length b.url) (length a.url) || (length a.url == length b.url && leb a.id b.id)

-- the first of the candidates once they are sorted
unfoldable pub longest : List ExternalLocationRow → Option ExternalLocationRow
longest [] = none
longest (row ∷ rows) = elim (longest rows) [
  | none ↦ some row
  | some best ↦ if is_before row best then some row else some best
]

unfoldable pub find_by_path_prefix : Snapshot → Text → Result (Option ExternalLocationRow)
unfolding row_of longest
find_by_path_prefix snap path = do
  rows ← traverse row_of (iter snap EntityKind.external_location)
  ok (longest (keep (λ row. starts_with row.url path) rows))

-- the fields that `update` writes over
abbrev pub patched :
    (url : Option Text) (comment : Option Text) (owner : Option Text) (credential_id : Option Uuid)
    (updated_at : ℤ) (updated_by : Option Text) (named : Text)
    → ExternalLocationRow
    → ExternalLocationRow
patched url comment owner credential_id updated_at updated_by named found = record found {
  name = named;
  url = replaced url found.url;
  comment = coalesce comment found.comment;
  owner = coalesce owner found.owner;
  credential_id = replaced credential_id found.credential_id;
  updated_at = some updated_at;
  updated_by = updated_by;
}

module _ {Value : Type 0} (platform : Platform Value) where
  unfoldable pub create : (row : ExternalLocationRow) → Build Value ExternalLocationRow
  create row snap =
      if exists_key snap EntityKind.external_location row.name
      then err external_location_already_exists
      else upsert_one platform EntityKind.external_location row.id row row

  -- A row that is not there is no error, and nothing is written.
  unfoldable pub update_at :
      Option Row
      → (id : Uuid) (new_name : Option Text) (url : Option Text) (comment : Option Text)
        (owner : Option Text) (credential_id : Option Uuid) (updated_at : ℤ)
        (updated_by : Option Text)
      → Build Value Unit
  unfolding row_of
  update_at none id new_name url comment owner credential_id updated_at updated_by snap =
      writes [] tt
  update_at (some current) id new_name url comment owner credential_id updated_at updated_by snap =
      do
        found ← row_of current
        named ←
            check_rename snap EntityKind.external_location (λ name. name)
              external_location_already_exists found.name new_name
        let row = patched url comment owner credential_id updated_at updated_by named found
        upsert_one platform EntityKind.external_location id row tt

  unfoldable pub update :
      (id : Uuid) (new_name : Option Text) (url : Option Text) (comment : Option Text)
      (owner : Option Text) (credential_id : Option Uuid) (updated_at : ℤ)
      (updated_by : Option Text)
      → Build Value Unit
  unfolding update_at
  update id new_name url comment owner credential_id updated_at updated_by snap =
      update_at (get snap EntityKind.external_location id) id new_name url comment owner
        credential_id updated_at updated_by snap

  unfoldable pub delete : Text → Build Value Unit
  unfolding row_of
  delete name snap = do
    current ← ok_or not_found (get_by_natural_key snap EntityKind.external_location name)
    row ← row_of current
    writes (Action.remove EntityKind.external_location row.id ∷ []) tt
