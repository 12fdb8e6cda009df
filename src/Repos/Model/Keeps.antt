-- ===== src/Repos/Model/Keeps.antt =====
-- The writes of crates/uc-db/src/repos/model.rs keep the snapshot's invariant.
use unity_catalog.Prelude.{
  ℤ, Option, none, some, List, ok, >>=-eq-ok, ◌≡◌, refl, ap, ◌∙◌, arith, resource_already_exists,
}
use unity_catalog.Prelude.Text.{Text}
use unity_catalog.Models.{Uuid, RegisteredModelRow}
use unity_catalog.Store.Kind.{EntityKind}
use unity_catalog.Store.Platform.{Platform}
use unity_catalog.Store.Row
use unity_catalog.Store.Row.{Row}
use unity_catalog.Store.NaturalKey.{natural_key_for, child_key}
use unity_catalog.Store.Action.{Action}
use unity_catalog.Store.Snapshot.{Snapshot, get, apply_all}
use unity_catalog.Store.Valid.{IsValid}
use unity_catalog.Repos.Build.{
  Keeps, upsert_one-IsValid, nothing-IsValid, create-IsValid, check_rename, check_rename-IsFree,
}
use unity_catalog.Repos.Model.{row_of, patched, create_model, update_model, update_model_at}

eq_of_row_of : (r : Row) (c : RegisteredModelRow) → row_of r ≡ ok c → r ≡ Row.registered_model c
unfolding row_of
eq_of_row_of (Row.registered_model r) c h = ground arith
eq_of_row_of _ c h = ground arith

module _ {Value : Type 0} (platform : Platform Value) where
  pub create_model-Keeps : (row : RegisteredModelRow) → Keeps platform (create_model platform row)
  unfolding create_model natural_key_for Row.row_of Row.row_id
  create_model-Keeps row s t acts out v h e =
      create-IsValid platform s t v EntityKind.registered_model row.id row
        (child_key platform row.schema_id row.name) resource_already_exists acts _ out refl
        (λ own q. ground arith) h e

  update_model_at-IsValid :
      (at_id : Option Row)
      → (id : Uuid) (new_name : Option Text) (comment : Option Text) (owner : Option Text)
        (updated_at : ℤ) (updated_by : Option Text)
      → (s t : Snapshot) (acts : List (Action Value)) (out : Unit)
      → get s EntityKind.registered_model id ≡ at_id
      → IsValid platform s
      → update_model_at platform at_id id new_name comment owner updated_at updated_by s
        ≡ ok (acts, out)
      → apply_all platform s acts ≡ ok t
      → IsValid platform t
  unfolding update_model_at natural_key_for Row.row_of Row.row_id
  update_model_at-IsValid none id new_name comment owner updated_at updated_by s t acts out c v h
        e =
      nothing-IsValid platform s t v acts tt out h e
  update_model_at-IsValid (some current) id new_name comment owner updated_at updated_by s t acts
        out c v h e =
      let (found, f, h2) = >>=-eq-ok (row_of current) _ h in
      let (named, n, h3) =
        >>=-eq-ok
          (check_rename s EntityKind.registered_model (child_key platform found.schema_id)
            resource_already_exists found.name new_name)
          _ h2 in
      let at : get s EntityKind.registered_model id ≡ some (Row.registered_model found) =
        c ∙ ap some (eq_of_row_of current found f) in
      let own : found.id ≡ id =
        v.identified EntityKind.registered_model id (Row.registered_model found) found.id at refl in
      upsert_one-IsValid platform s t v EntityKind.registered_model id
        (patched comment owner updated_at updated_by named found) acts _ out
        (check_rename-IsFree platform s t v EntityKind.registered_model id
          (Row.registered_model found)
          (Row.registered_model (patched comment owner updated_at updated_by named found))
          (child_key platform found.schema_id) resource_already_exists found.name named new_name at
          refl refl n)
        (λ i q. ground arith) h3 e

  pub update_model-Keeps :
      (id : Uuid) (new_name : Option Text) (comment : Option Text) (owner : Option Text)
      (updated_at : ℤ) (updated_by : Option Text)
      → Keeps platform (update_model platform id new_name comment owner updated_at updated_by)
  unfolding update_model
  update_model-Keeps id new_name comment owner updated_at updated_by s t acts out v h e =
      update_model_at-IsValid (get s EntityKind.registered_model id) id new_name comment owner
        updated_at updated_by s t acts out refl v h e
