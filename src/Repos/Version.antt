-- ===== src/Repos/Version.antt =====
-- The versions of registered models in crates/uc-db/src/repos/model.rs.
pub mod Keeps
use unity_catalog.Prelude.{
  ℕ, ℤ, Bool, true, false, ◌&&◌, ◌||◌, not, Option, none, some, List, [], ◌∷◌, ◌++◌, map, Result,
  ok, err, internal, ok_or, ◌>>=◌, is_some, traverse, not_found, keep, ltb, leb, leb_ℤ, ◌==◌,
  if◌then◌else◌,
}
use unity_catalog.Prelude.Text.{Text}
use unity_catalog.Models.{Uuid, ModelVersionRow, RegisteredModelRow}
use unity_catalog.Store.Kind.{EntityKind}
use unity_catalog.Store.Platform.{Platform}
use unity_catalog.Store.Row.{Row}
use unity_catalog.Store.Action.{Action}
use unity_catalog.Store.Snapshot.{Snapshot, get}
use unity_catalog.Store.Snapshot.Scan.{iter}
use unity_catalog.Repos.Build.{Build, writes, upsert_one, coalesce, removals}
use unity_catalog.Repos.Model

unfoldable pub version_of : Row → Result ModelVersionRow
version_of (Row.model_version r) = ok r
version_of _ = err internal

-- `a <= b` on `Option<i32>`: `None` first
abbrev pub leb_version : Option ℤ → Option ℤ → Bool
leb_version none b = true
leb_version (some a) none = false
leb_version (some a) (some b) = leb_ℤ a b

-- `a <= b` on the key `(version, id)`
abbrev pub leb_row : ModelVersionRow → ModelVersionRow → Bool
leb_row a b =
    if leb_version a.version b.version
    then (not (leb_version b.version a.version) || leb a.id b.id)
    else false

-- `sort_by_key(|r| (r.version, r.id))`
unfoldable pub insert_version : ModelVersionRow → List ModelVersionRow → List ModelVersionRow
insert_version r [] = r ∷ []
insert_version r (q ∷ qs) =
    let rest = insert_version r qs in if leb_row r q then r ∷ q ∷ qs else q ∷ rest

unfoldable pub sort_versions : List ModelVersionRow → List ModelVersionRow
unfolding insert_version
sort_versions [] = []
sort_versions (r ∷ rs) = insert_version r (sort_versions rs)

unfoldable pub versions_of : Snapshot → Uuid → Result (List ModelVersionRow)
unfolding version_of sort_versions
versions_of snap model_id = traverse version_of (iter snap EntityKind.model_version) >>= λ rows.
    ok (sort_versions (keep (λ r. r.registered_model_id == model_id) rows))

-- `r.version == Some(version)`
abbrev pub is_version : ℤ → ModelVersionRow → Bool
is_version version r = leb_version r.version (some version) && leb_version (some version) r.version

abbrev pub first {ℓ} : {A : Type ℓ} → List A → Option A
first [] = none
first (x ∷ xs) = some x

unfoldable pub get_version : Snapshot → Uuid → ℤ → Result ModelVersionRow
unfolding versions_of
get_version snap model_id version =
    versions_of snap model_id >>= λ rows. ok_or not_found (first (keep (is_version version) rows))

abbrev pub ids_of : List ModelVersionRow → List Uuid
ids_of rows = map (λ r. r.id) rows

module _ {Value : Type 0} (platform : Platform Value) where
  unfoldable pub create_version : (row : ModelVersionRow) → Build Value ModelVersionRow
  create_version row snap = upsert_one platform EntityKind.model_version row.id row row

  -- the removals of the versions, and of the model when it is there
  abbrev pub drop_model :
      Uuid → Bool → List ModelVersionRow → Result {0} (List (Action Value) × Unit)
  drop_model id there rows =
      writes
        (removals EntityKind.model_version (ids_of rows)
          ++ (if there then removals EntityKind.registered_model (id ∷ []) else []))
        tt

  unfoldable pub delete_model : Uuid → Build Value Unit
  unfolding versions_of
  delete_model id snap =
      versions_of snap id >>= drop_model id (is_some (get snap EntityKind.registered_model id))

  abbrev pub drop_versions : ℤ → List ModelVersionRow → Result {0} (List (Action Value) × Unit)
  drop_versions version rows =
      writes (removals EntityKind.model_version (ids_of (keep (is_version version) rows))) tt

  unfoldable pub delete_version : Uuid → ℤ → Build Value Unit
  unfolding versions_of
  delete_version model_id version snap = versions_of snap model_id >>= drop_versions version

  -- The row that is found is written back with some fields changed. A row that is not there is no error.
  unfoldable pub edit_at :
      (ModelVersionRow → ModelVersionRow)
      → Uuid
      → Option Row
      → Result {0} (List (Action Value) × Unit)
  unfolding version_of
  edit_at edit id none = writes [] tt
  edit_at edit id (some current) =
      version_of current >>= λ row. upsert_one platform EntityKind.model_version id (edit row) tt

  abbrev pub commented : Option Text → ℤ → Option Text → ModelVersionRow → ModelVersionRow
  commented comment updated_at updated_by row = record row {
    comment = coalesce comment row.comment;
    updated_at = some updated_at;
    updated_by = updated_by;
  }

  unfoldable pub update_version :
      (id : Uuid) (comment : Option Text) (updated_at : ℤ) (updated_by : Option Text)
      → Build Value Unit
  unfolding edit_at
  update_version id comment updated_at updated_by snap =
      edit_at (commented comment updated_at updated_by) id (get snap EntityKind.model_version id)

  abbrev pub with_status : Text → ModelVersionRow → ModelVersionRow
  with_status status row = record row { status = some status }

  unfoldable pub set_version_status : (id : Uuid) (status : Text) → Build Value Unit
  unfolding edit_at
  set_version_status id status snap =
      edit_at (with_status status) id (get snap EntityKind.model_version id)

  unfoldable pub set_max_at : ℤ → Uuid → Option Row → Result {0} (List (Action Value) × Unit)
  set_max_at next id none = writes [] tt
  set_max_at next id (some current) = Model.row_of current >>= λ row.
      let changed : RegisteredModelRow = record row { max_version_number = some next } in
      upsert_one platform EntityKind.registered_model id changed tt

  unfoldable pub set_max_version : (id : Uuid) (next : ℤ) → Build Value Unit
  unfolding set_max_at
  set_max_version id next snap = set_max_at next id (get snap EntityKind.registered_model id)
