-- ===== src/Repos/Credential.antt =====
-- crates/uc-db/src/repos/credential.rs
pub mod Keeps
use unity_catalog.Prelude.{
  Bool, true, false, ℤ, Option, none, some, List, [], ◌∷◌, ◌++◌, Result, ok, err, internal, ok_or,
  ◌>>=◌, is_some, traverse, not_found, storage_credential_already_exists, if◌then◌else◌,
}
use unity_catalog.Prelude.Text.{Text}
use unity_catalog.Pagination.{page, over_fetch}
use unity_catalog.Models.{Uuid, CredentialRow}
use unity_catalog.Store.Kind.{EntityKind}
use unity_catalog.Store.Platform.{Platform}
use unity_catalog.Store.Row.{Row}
use unity_catalog.Store.NaturalKey.{child_key}
use unity_catalog.Store.Action.{Action}
use unity_catalog.Store.Snapshot.{Snapshot, get, get_by_natural_key}
use unity_catalog.Store.Snapshot.Scan.{scan, scan_prefix, iter}
use unity_catalog.Repos.Build.{
  Build, writes, upsert_one, coalesce, replaced, check_rename, exists_key,
}

unfoldable pub row_of : Row → Result CredentialRow
row_of (Row.credential r) = ok r
row_of _ = err internal

unfoldable pub get_by_id : Snapshot → Uuid → Result CredentialRow
unfolding row_of
get_by_id snap id = ok_or not_found (get snap EntityKind.credential id) >>= row_of

unfoldable pub get_by_name : Snapshot → Text → Result CredentialRow
unfolding row_of
get_by_name snap name =
    ok_or not_found (get_by_natural_key snap EntityKind.credential name) >>= row_of

unfoldable pub list : Snapshot → Option Text → ℤ → Result (List CredentialRow × Option Text)
unfolding row_of
list snap page_token max_results = do
  rows ← traverse row_of (scan snap EntityKind.credential page_token (over_fetch max_results))
  ok (page rows max_results (λ r. r.name))

-- the fields that `update` writes over
abbrev pub patched :
    (comment : Option Text) (owner : Option Text) (credential : Option Text) (updated_at : ℤ)
    (updated_by : Option Text) (named : Text)
    → CredentialRow
    → CredentialRow
patched comment owner credential updated_at updated_by named found = record found {
  name = named;
  comment = coalesce comment found.comment;
  owner = coalesce owner found.owner;
  credential = replaced credential found.credential;
  updated_at = some updated_at;
  updated_by = updated_by;
}

module _ {Value : Type 0} (platform : Platform Value) where
  unfoldable pub create : (row : CredentialRow) → Build Value CredentialRow
  create row snap =
      if exists_key snap EntityKind.credential row.name
      then err storage_credential_already_exists
      else upsert_one platform EntityKind.credential row.id row row

  -- A row that is not there is no error, and nothing is written.
  unfoldable pub update_at :
      Option Row
      → (id : Uuid) (new_name : Option Text) (comment : Option Text) (owner : Option Text)
        (credential : Option Text) (updated_at : ℤ) (updated_by : Option Text)
      → Build Value Unit
  unfolding row_of
  update_at none id new_name comment owner credential updated_at updated_by snap = writes [] tt
  update_at (some current) id new_name comment owner credential updated_at updated_by snap = do
    found ← row_of current
    named ←
        check_rename snap EntityKind.credential (λ name. name) storage_credential_already_exists
          found.name new_name
    let row = patched comment owner credential updated_at updated_by named found
    upsert_one platform EntityKind.credential id row tt

  unfoldable pub update :
      (id : Uuid) (new_name : Option Text) (comment : Option Text) (owner : Option Text)
      (credential : Option Text) (updated_at : ℤ) (updated_by : Option Text)
      → Build Value Unit
  unfolding update_at
  update id new_name comment owner credential updated_at updated_by snap =
      update_at (get snap EntityKind.credential id) id new_name comment owner credential updated_at
        updated_by snap

  unfoldable pub delete : Text → Build Value Unit
  unfolding row_of
  delete name snap = do
    current ← ok_or not_found (get_by_natural_key snap EntityKind.credential name)
    row ← row_of current
    writes (Action.remove EntityKind.credential row.id ∷ []) tt
