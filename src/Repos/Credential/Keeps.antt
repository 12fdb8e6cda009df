-- ===== src/Repos/Credential/Keeps.antt =====
-- The writes of crates/uc-db/src/repos/credential.rs keep the snapshot's invariant.
use unity_catalog.Prelude.{
  ℤ, Option, none, some, List, ok, >>=-eq-ok, ◌≡◌, refl, ap, ◌∙◌, arith, ok_or, not_found,
  storage_credential_already_exists,
}
use unity_catalog.Prelude.Text.{Text}
use unity_catalog.Models.{Uuid, CredentialRow}
use unity_catalog.Store.Kind.{EntityKind}
use unity_catalog.Store.Platform.{Platform}
use unity_catalog.Store.Row
use unity_catalog.Store.Row.{Row}
use unity_catalog.Store.NaturalKey.{natural_key_for}
use unity_catalog.Store.Action.{Action}
use unity_catalog.Store.Snapshot.{Snapshot, get, get_by_natural_key, apply_all}
use unity_catalog.Store.Valid.{IsValid}
use unity_catalog.Repos.Build.{
  Keeps, upsert_one-IsValid, remove-IsValid, nothing-IsValid, create-IsValid, check_rename,
  check_rename-IsFree,
}
use unity_catalog.Repos.Credential.{row_of, patched, create, update, update_at, delete}

eq_of_row_of : (r : Row) (c : CredentialRow) → row_of r ≡ ok c → r ≡ Row.credential c
unfolding row_of
eq_of_row_of (Row.credential r) c h = ground arith
eq_of_row_of _ c h = ground arith

module _ {Value : Type 0} (platform : Platform Value) where
  pub create-Keeps : (row : CredentialRow) → Keeps platform (create platform row)
  unfolding create natural_key_for Row.row_of Row.row_id
  create-Keeps row s t acts out v h e =
      create-IsValid platform s t v EntityKind.credential row.id row row.name
        storage_credential_already_exists acts _ out refl (λ own q. ground arith) h e

  update_at-IsValid :
      (at_id : Option Row)
      → (id : Uuid) (new_name : Option Text) (comment : Option Text) (owner : Option Text)
        (credential : Option Text) (updated_at : ℤ) (updated_by : Option Text)
      → (s t : Snapshot) (acts : List (Action Value)) (out : Unit)
      → get s EntityKind.credential id ≡ at_id
      → IsValid platform s
      → update_at platform at_id id new_name comment owner credential updated_at updated_by s
        ≡ ok (acts, out)
      → apply_all platform s acts ≡ ok t
      → IsValid platform t
  unfolding update_at natural_key_for Row.row_of Row.row_id
  update_at-IsValid none id new_name comment owner credential updated_at updated_by s t acts out c v
        h e =
      nothing-IsValid platform s t v acts tt out h e
  update_at-IsValid (some current) id new_name comment owner credential updated_at updated_by s t
        acts out c v h e =
      let (found, f, h2) = >>=-eq-ok (row_of current) _ h in
      let (named, n, h3) =
        >>=-eq-ok
          (check_rename s EntityKind.credential (λ name. name) storage_credential_already_exists
            found.name new_name)
          _ h2 in
      let at : get s EntityKind.credential id ≡ some (Row.credential found) =
        c ∙ ap some (eq_of_row_of current found f) in
      let own : found.id ≡ id =
        v.identified EntityKind.credential id (Row.credential found) found.id at refl in
      upsert_one-IsValid platform s t v EntityKind.credential id
        (patched comment owner credential updated_at updated_by named found) acts _ out
        (check_rename-IsFree platform s t v EntityKind.credential id (Row.credential found)
          (Row.credential (patched comment owner credential updated_at updated_by named found))
          (λ name. name) storage_credential_already_exists found.name named new_name at refl refl n)
        (λ i q. ground arith) h3 e

  pub update-Keeps :
      (id : Uuid) (new_name : Option Text) (comment : Option Text) (owner : Option Text)
      (credential : Option Text) (updated_at : ℤ) (updated_by : Option Text)
      → Keeps platform (update platform id new_name comment owner credential updated_at updated_by)
  unfolding update
  update-Keeps id new_name comment owner credential updated_at updated_by s t acts out v h e =
      update_at-IsValid (get s EntityKind.credential id) id new_name comment owner credential
        updated_at updated_by s t acts out refl v h e

  pub delete-Keeps : (name : Text) → Keeps platform (delete platform name)
  unfolding delete
  delete-Keeps name s t acts out v h e =
      let (current, c, h1) =
        >>=-eq-ok (ok_or not_found (get_by_natural_key s EntityKind.credential name)) _ h in
      let (found, f, h2) = >>=-eq-ok (row_of current) _ h1 in
      remove-IsValid platform s t v EntityKind.credential found.id acts tt out h2 e
