-- ===== src/Repos/Volume/Keeps.antt =====
-- The writes of crates/uc-db/src/repos/volume.rs keep the snapshot's invariant.
use unity_catalog.Prelude.{
  ℤ, Option, some, ok, >>=-eq-ok, ◌≡◌, refl, inl, inr, ap, ◌∙◌, Bool-cases, arith, ok_or,
  eq_of_ok_or, is_some, not_found, resource_already_exists,
}
use unity_catalog.Prelude.Text.{Text}
use unity_catalog.Models.{Uuid, VolumeRow}
use unity_catalog.Store.Kind.{EntityKind}
use unity_catalog.Store.Platform.{Platform}
use unity_catalog.Store.Row
use unity_catalog.Store.Row.{Row}
use unity_catalog.Store.NaturalKey.{natural_key_for, child_key}
use unity_catalog.Store.Snapshot.{get}
use unity_catalog.Repos.Build.{
  Keeps, upsert_one-IsValid, remove-IsValid, create-IsValid, check_rename, check_rename-IsFree,
}
use unity_catalog.Repos.Volume.{row_of, patched, create, update, delete}

eq_of_row_of : (r : Row) (c : VolumeRow) → row_of r ≡ ok c → r ≡ Row.volume c
unfolding row_of
eq_of_row_of (Row.volume r) c h = ground arith
eq_of_row_of _ c h = ground arith

module _ {Value : Type 0} (platform : Platform Value) where
  pub create-Keeps : (row : VolumeRow) → Keeps platform (create platform row)
  unfolding create natural_key_for Row.row_of Row.row_id
  create-Keeps row s t acts out v h e =
      create-IsValid platform s t v EntityKind.volume row.id row
        (child_key platform row.schema_id row.name) resource_already_exists acts _ out refl
        (λ own q. ground arith) h e

  pub update-Keeps :
      (id : Uuid) (new_name : Option Text) (comment : Option Text) (owner : Option Text)
      (updated_at : ℤ) (updated_by : Option Text)
      → Keeps platform (update platform id new_name comment owner updated_at updated_by)
  unfolding update natural_key_for Row.row_of Row.row_id
  update-Keeps id new_name comment owner updated_at updated_by s t acts out v h e =
      let (current, c', h1) = >>=-eq-ok (ok_or not_found (get s EntityKind.volume id)) _ h in
      let c = eq_of_ok_or not_found (get s EntityKind.volume id) current c' in
      let (found, f, h2) = >>=-eq-ok (row_of current) _ h1 in
      let (named, n, h3) =
        >>=-eq-ok
          (check_rename s EntityKind.volume (child_key platform found.schema_id)
            resource_already_exists found.name new_name)
          _ h2 in
      let at : get s EntityKind.volume id ≡ some (Row.volume found) =
        c ∙ ap some (eq_of_row_of current found f) in
      let own : found.id ≡ id =
        v.identified EntityKind.volume id (Row.volume found) found.id at refl in
      upsert_one-IsValid platform s t v EntityKind.volume id
        (patched comment owner updated_at updated_by named found) acts _ out
        (check_rename-IsFree platform s t v EntityKind.volume id (Row.volume found)
          (Row.volume (patched comment owner updated_at updated_by named found))
          (child_key platform found.schema_id) resource_already_exists found.name named new_name at
          refl refl n)
        (λ i q. ground arith) h3 e

  pub delete-Keeps : (id : Uuid) → Keeps platform (delete platform id)
  unfolding delete
  delete-Keeps id s t acts out v h e = elim (Bool-cases (is_some (get s EntityKind.volume id))) [
    | inl there ↦ remove-IsValid platform s t v EntityKind.volume id acts tt out (ground arith) e
    | inr missing ↦ absurd (ground arith)
  ]
