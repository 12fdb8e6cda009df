-- ===== src/Repos/Table/Keeps.antt =====
-- The writes of crates/uc-db/src/repos/table.rs keep the snapshot's invariant. `insert_columns`
-- makes no check of its own and is in Columns.
use unity_catalog.Prelude.{
  ℤ, Option, none, some, List, [], ok, >>=-eq-ok, ◌≡◌, refl, inl, inr, ap, ◌∙◌, Bool-cases, arith,
  is_some, table_already_exists,
}
use unity_catalog.Prelude.Text.{Text}
use unity_catalog.Models.{Uuid, TableRow}
use unity_catalog.Store.Kind.{EntityKind}
use unity_catalog.Store.Platform.{Platform}
use unity_catalog.Store.Row
use unity_catalog.Store.Row.{Row}
use unity_catalog.Store.NaturalKey.{natural_key_for, child_key}
use unity_catalog.Store.Action.{Action}
use unity_catalog.Store.Snapshot.{Snapshot, get, apply_all}
use unity_catalog.Store.Snapshot.Scan.{ids_under_prefix}
use unity_catalog.Store.Valid.{IsValid, IsFree-of_same}
use unity_catalog.Repos.Build.{
  Keeps, upsert_one-IsValid, remove-IsValid, removes-IsValid, nothing-IsValid, create-IsValid,
  check_rename, check_rename-IsFree, removals,
}
use unity_catalog.Repos.Table.{
  table_of, patched, named_at, create, delete, patch, patch_at, rename, rename_at, delete_columns,
}

pub eq_of_table_of : (r : Row) (c : TableRow) → table_of r ≡ ok c → r ≡ Row.table c
unfolding table_of
eq_of_table_of (Row.table r) c h = ground arith
eq_of_table_of _ c h = ground arith

module _ {Value : Type 0} (platform : Platform Value) where
  pub create-Keeps : (row : TableRow) → Keeps platform (create platform row)
  unfolding create natural_key_for Row.row_of Row.row_id
  create-Keeps row s t acts out v h e =
      create-IsValid platform s t v EntityKind.table row.id row
        (child_key platform row.schema_id row.name) table_already_exists acts row out refl
        (λ own q. ground arith) h e

  pub delete-Keeps : (id : Uuid) → Keeps platform (delete platform id)
  unfolding delete
  delete-Keeps id s t acts out v h e = elim (Bool-cases (is_some (get s EntityKind.table id))) [
    | inl there ↦ remove-IsValid platform s t v EntityKind.table id acts tt out (ground arith) e
    | inr missing ↦ absurd (ground arith)
  ]

  pub delete_columns-Keeps : (table_id : Uuid) → Keeps platform (delete_columns platform table_id)
  unfolding delete_columns
  delete_columns-Keeps table_id s t acts out v h e =
      let ids = ids_under_prefix s EntityKind.column (child_key platform table_id []) in
      let q : removals EntityKind.column ids ≡ acts = ground arith in
      removes-IsValid platform s t v EntityKind.column ids (rw q e)

  patch_at-IsValid :
      (at_id : Option Row) (id : Uuid) (column_count : Option ℤ) (comment : Option Text)
      (iceberg_version iceberg_timestamp : Option ℤ) (updated_at : ℤ) (s t : Snapshot)
      (acts : List (Action Value)) (out : Unit)
      → get s EntityKind.table id ≡ at_id
      → IsValid platform s
      → patch_at platform at_id id column_count comment iceberg_version iceberg_timestamp updated_at
          s
        ≡ ok (acts, out)
      → apply_all platform s acts ≡ ok t
      → IsValid platform t
  unfolding patch_at natural_key_for Row.row_of Row.row_id
  patch_at-IsValid none id n c i j u s t acts out g v h e =
      nothing-IsValid platform s t v acts tt out h e
  patch_at-IsValid (some current) id n c i j u s t acts out g v h e =
      let (found, f, h1) = >>=-eq-ok (table_of current) _ h in
      let at : get s EntityKind.table id ≡ some (Row.table found) =
        g ∙ ap some (eq_of_table_of current found f) in
      let own : found.id ≡ id =
        v.identified EntityKind.table id (Row.table found) found.id at refl in
      let row = patched n c i j u found in
      upsert_one-IsValid platform s t v EntityKind.table id row acts tt out
        (IsFree-of_same platform s v EntityKind.table id (Row.table found) (Row.table row)
          (child_key platform found.schema_id found.name) at refl refl)
        (λ i' q. ground arith) h1 e

  pub patch-Keeps :
      (id : Uuid) (column_count : Option ℤ) (comment : Option Text)
      (iceberg_version iceberg_timestamp : Option ℤ) (updated_at : ℤ)
      → Keeps platform
          (patch platform id column_count comment iceberg_version iceberg_timestamp updated_at)
  unfolding patch
  patch-Keeps id n c i j u s t acts out v h e =
      patch_at-IsValid (get s EntityKind.table id) id n c i j u s t acts out refl v h e

  rename_at-IsValid :
      (at_id : Option Row) (id : Uuid) (new_name : Text) (updated_at : ℤ) (s t : Snapshot)
      (acts : List (Action Value)) (out : Unit)
      → get s EntityKind.table id ≡ at_id
      → IsValid platform s
      → rename_at platform at_id id new_name updated_at s ≡ ok (acts, out)
      → apply_all platform s acts ≡ ok t
      → IsValid platform t
  unfolding rename_at natural_key_for Row.row_of Row.row_id
  rename_at-IsValid none id new_name updated_at s t acts out g v h e =
      nothing-IsValid platform s t v acts tt out h e
  rename_at-IsValid (some current) id new_name updated_at s t acts out g v h e =
      let (found, f, h1) = >>=-eq-ok (table_of current) _ h in
      let key_of = child_key platform found.schema_id in
      let (named, n, h2) =
        >>=-eq-ok
          (check_rename s EntityKind.table key_of table_already_exists found.name (some new_name)) _
          h1 in
      let at : get s EntityKind.table id ≡ some (Row.table found) =
        g ∙ ap some (eq_of_table_of current found f) in
      let own : found.id ≡ id =
        v.identified EntityKind.table id (Row.table found) found.id at refl in
      let row = named_at named updated_at found in
      upsert_one-IsValid platform s t v EntityKind.table id row acts tt out
        (check_rename-IsFree platform s t v EntityKind.table id (Row.table found) (Row.table row)
          key_of table_already_exists found.name named (some new_name) at refl refl n)
        (λ i q. ground arith) h2 e

  pub rename-Keeps :
      (id : Uuid) (new_name : Text) (updated_at : ℤ)
      → Keeps platform (rename platform id new_name updated_at)
  unfolding rename
  rename-Keeps id new_name updated_at s t acts out v h e =
      rename_at-IsValid (get s EntityKind.table id) id new_name updated_at s t acts out refl v h e
