-- ===== src/Repos/ExternalLocation/Keeps.antt =====
-- The writes of crates/uc-db/src/repos/external_location.rs keep the snapshot's invariant.
use unity_catalog.Prelude.{
  ℤ, Option, none, some, List, ok, >>=-eq-ok, ◌≡◌, refl, ap, ◌∙◌, arith, ok_or, not_found,
  external_location_already_exists,
}
use unity_catalog.Prelude.Text.{Text}
use unity_catalog.Models.{Uuid, ExternalLocationRow}
use unity_catalog.Store.Kind.{EntityKind}
use unity_catalog.Store.Platform.{Platform}
use unity_catalog.Store.Row
use unity_catalog.Store.Row.{Row}
use unity_catalog.Store.NaturalKey.{natural_key_for}
use unity_catalog.Store.Action.{Action}
use unity_catalog.Store.Snapshot.{Snapshot, get, get_by_natural_key, apply_all}
use unity_catalog.Store.Valid.{IsValid}
use unity_catalog.Repos.Build.{
  Keeps, upsert_one-IsValid, remove-IsValid, nothing-IsValid, create-IsValid, check_rename,
  check_rename-IsFree,
}
use unity_catalog.Repos.ExternalLocation.{row_of, patched, create, update, update_at, delete}

eq_of_row_of : (r : Row) (c : ExternalLocationRow) → row_of r ≡ ok c → r ≡ Row.external_location c
unfolding row_of
eq_of_row_of (Row.external_location r) c h = ground arith
eq_of_row_of _ c h = ground arith

module _ {Value : Type 0} (platform : Platform Value) where
  pub create-Keeps : (row : ExternalLocationRow) → Keeps platform (create platform row)
  unfolding create natural_key_for Row.row_of Row.row_id
  create-Keeps row s t acts out v h e =
      create-IsValid platform s t v EntityKind.external_location row.id row row.name
        external_location_already_exists acts _ out refl (λ own q. ground arith) h e

  update_at-IsValid :
      (at_id : Option Row)
      → (id : Uuid) (new_name : Option Text) (url : Option Text) (comment : Option Text)
        (owner : Option Text) (credential_id : Option Uuid) (updated_at : ℤ)
        (updated_by : Option Text)
      → (s t : Snapshot) (acts : List (Action Value)) (out : Unit)
      → get s EntityKind.external_location id ≡ at_id
      → IsValid platform s
      → update_at platform at_id id new_name url comment owner credential_id updated_at updated_by s
        ≡ ok (acts, out)
      → apply_all platform s acts ≡ ok t
      → IsValid platform t
  unfolding update_at natural_key_for Row.row_of Row.row_id
  update_at-IsValid none id new_name url comment owner credential_id updated_at updated_by s t acts
        out c v h e =
      nothing-IsValid platform s t v acts tt out h e
  update_at-IsValid (some current) id new_name url comment owner credential_id updated_at updated_by
        s t acts out c v h e =
      let (found, f, h2) = >>=-eq-ok (row_of current) _ h in
      let (named, n, h3) =
        >>=-eq-ok
          (check_rename s EntityKind.external_location (λ name. name)
            external_location_already_exists found.name new_name)
          _ h2 in
      let at : get s EntityKind.external_location id ≡ some (Row.external_location found) =
        c ∙ ap some (eq_of_row_of current found f) in
      let own : found.id ≡ id =
        v.identified EntityKind.external_location id (Row.external_location found) found.id at
          refl in
      upsert_one-IsValid platform s t v EntityKind.external_location id
        (patched url comment owner credential_id updated_at updated_by named found) acts _ out
        (check_rename-IsFree platform s t v EntityKind.external_location id
          (Row.external_location found)
          (Row.external_location
            (patched url comment owner credential_id updated_at updated_by named found))
          (λ name. name) external_location_already_exists found.name named new_name at refl refl n)
        (λ i q. ground arith) h3 e

  pub update-Keeps :
      (id : Uuid) (new_name : Option Text) (url : Option Text) (comment : Option Text)
      (owner : Option Text) (credential_id : Option Uuid) (updated_at : ℤ)
      (updated_by : Option Text)
      → Keeps platform
          (update platform id new_name url comment owner credential_id updated_at updated_by)
  unfolding update
  update-Keeps id new_name url comment owner credential_id updated_at updated_by s t acts out v h
        e =
      update_at-IsValid (get s EntityKind.external_location id) id new_name url comment owner
        credential_id updated_at updated_by s t acts out refl v h e

  pub delete-Keeps : (name : Text) → Keeps platform (delete platform name)
  unfolding delete
  delete-Keeps name s t acts out v h e =
      let (current, c, h1) =
        >>=-eq-ok (ok_or not_found (get_by_natural_key s EntityKind.external_location name)) _ h in
      let (found, f, h2) = >>=-eq-ok (row_of current) _ h1 in
      remove-IsValid platform s t v EntityKind.external_location found.id acts tt out h2 e
