-- ===== src/Repos/Schema/Keeps.antt =====
-- The writes of crates/uc-db/src/repos/schema.rs keep the snapshot's invariant.
use unity_catalog.Prelude.{
  ℤ, Option, some, ok, >>=-eq-ok, ◌≡◌, refl, inl, inr, ap, ◌∙◌, Bool-cases, arith, ok_or,
  eq_of_ok_or, is_some, schema_not_found, schema_already_exists,
}
use unity_catalog.Prelude.Text.{Text}
use unity_catalog.Models.{Uuid, SchemaRow}
use unity_catalog.Store.Kind.{EntityKind}
use unity_catalog.Store.Platform.{Platform}
use unity_catalog.Store.Row
use unity_catalog.Store.Row.{Row}
use unity_catalog.Store.NaturalKey.{natural_key_for, child_key}
use unity_catalog.Store.Snapshot.{get}
use unity_catalog.Repos.Build.{
  Keeps, upsert_one-IsValid, remove-IsValid, create-IsValid, check_rename, check_rename-IsFree,
}
use unity_catalog.Repos.Schema.{row_of, patched, create, update, delete}

eq_of_row_of : (r : Row) (c : SchemaRow) → row_of r ≡ ok c → r ≡ Row.schema c
unfolding row_of
eq_of_row_of (Row.schema r) c h = ground arith
eq_of_row_of _ c h = ground arith

module _ {Value : Type 0} (platform : Platform Value) where
  pub create-Keeps :
      (id catalog_id : Uuid) (name : Text) (comment owner created_by storage_root : Option Text)
      (created_at : ℤ)
      → Keeps platform
          (create platform id catalog_id name comment owner created_by storage_root created_at)
  unfolding create natural_key_for Row.row_of Row.row_id
  create-Keeps id catalog_id name comment owner created_by storage_root created_at s t acts out v h
        e =
      create-IsValid platform s t v EntityKind.schema id _ (child_key platform catalog_id name)
        schema_already_exists acts _ out refl (λ own q. ground arith) h e

  pub update-Keeps :
      (id : Uuid) (new_name : Option Text) (comment : Option Text) (owner : Option Text)
      (updated_by : Option Text) (updated_at : ℤ)
      → Keeps platform (update platform id new_name comment owner updated_by updated_at)
  unfolding update natural_key_for Row.row_of Row.row_id
  update-Keeps id new_name comment owner updated_by updated_at s t acts out v h e =
      let (current, c', h1) = >>=-eq-ok (ok_or schema_not_found (get s EntityKind.schema id)) _ h in
      let c = eq_of_ok_or schema_not_found (get s EntityKind.schema id) current c' in
      let (found, f, h2) = >>=-eq-ok (row_of current) _ h1 in
      let (named, n, h3) =
        >>=-eq-ok
          (check_rename s EntityKind.schema (child_key platform found.catalog_id)
            schema_already_exists found.name new_name)
          _ h2 in
      let at : get s EntityKind.schema id ≡ some (Row.schema found) =
        c ∙ ap some (eq_of_row_of current found f) in
      let own : found.id ≡ id =
        v.identified EntityKind.schema id (Row.schema found) found.id at refl in
      upsert_one-IsValid platform s t v EntityKind.schema id
        (patched comment owner updated_by updated_at named found) acts _ out
        (check_rename-IsFree platform s t v EntityKind.schema id (Row.schema found)
          (Row.schema (patched comment owner updated_by updated_at named found))
          (child_key platform found.catalog_id) schema_already_exists found.name named new_name at
          refl refl n)
        (λ i q. ground arith) h3 e

  pub delete-Keeps : (id : Uuid) → Keeps platform (delete platform id)
  unfolding delete
  delete-Keeps id s t acts out v h e = elim (Bool-cases (is_some (get s EntityKind.schema id))) [
    | inl there ↦ remove-IsValid platform s t v EntityKind.schema id acts tt out (ground arith) e
    | inr missing ↦ absurd (ground arith)
  ]
