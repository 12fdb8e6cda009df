-- ===== src/Repos/Table/Names.antt =====
-- A table is found by its name in its schema from its creation to its removal.
use unity_catalog.Prelude.{
  false, ℤ, Option, none, some, List, [], ◌∷◌, ok, err, >>=-eq-ok, inl, inr, ◌≡◌, ◌≢◌, refl, sym,
  ap, ◌∙◌, arith, Bool-cases, table_not_found, table_already_exists,
}
use unity_catalog.Prelude.Text.{Text}
use unity_catalog.Models.{Uuid, TableRow}
use unity_catalog.Store.Kind.{EntityKind}
use unity_catalog.Store.Platform.{Platform}
use unity_catalog.Store.Row
use unity_catalog.Store.Row.{Row}
use unity_catalog.Store.NaturalKey.{natural_key_for, child_key}
use unity_catalog.Store.NaturalKey.Names.{child_key-injective}
use unity_catalog.Store.Action.{Action}
use unity_catalog.Store.Snapshot.{
  Snapshot, get, get_by_natural_key, place, displace, apply, apply_all,
}
use unity_catalog.Store.Snapshot.Lookup.{is_key, eq_of_is_key}
use unity_catalog.Store.Snapshot.Found.{
  place-found, place-renamed, displace-missing, get-place_self, get-displace_self,
}
use unity_catalog.Repos.Build.{check_rename, exists_key, upsert_one-place}
use unity_catalog.Repos.Table.{
  table_of, get_by_id, get_by_schema_and_name, named_at, create, delete, rename, rename_at,
}

module _ {Value : Type 0} (platform : Platform Value) where
  get_by_schema_and_name-found :
      (t : Snapshot) (row : TableRow)
      → get_by_natural_key t EntityKind.table (child_key platform row.schema_id row.name)
        ≡ some (Row.table row)
      → get_by_schema_and_name platform t row.schema_id row.name ≡ ok row
  unfolding get_by_schema_and_name table_of
  get_by_schema_and_name-found t row h = rw h refl

  get_by_schema_and_name-missing :
      (t : Snapshot) (schema_id : Uuid) (name : Text)
      → get_by_natural_key t EntityKind.table (child_key platform schema_id name) ≡ none
      → get_by_schema_and_name platform t schema_id name ≡ err table_not_found
  unfolding get_by_schema_and_name
  get_by_schema_and_name-missing t schema_id name h = rw h refl

  created :
      (row : TableRow) (s t : Snapshot) (acts : List (Action Value)) (out : TableRow)
      → create platform row s ≡ ok (acts, out)
      → apply_all platform s acts ≡ ok t
      → (place platform s EntityKind.table row.id (Row.table row) ≡ t) × (row ≡ out)
  unfolding create Row.row_of
  created row s t acts out h e =
      elim (Bool-cases
        (exists_key s EntityKind.table (child_key platform row.schema_id row.name))) [
          | inl there ↦ absurd (ground arith)
          | inr free ↦
              upsert_one-place platform s t EntityKind.table row.id row acts row out (ground arith)
                e
        ]

  -- After a `create` that succeeds and whose actions are applied, the row is returned, it is found
  -- by its id and by its name in its schema, and a second `create` of that name in that schema is
  -- refused.
  pub create-found :
      (row again : TableRow) (s t : Snapshot) (acts : List (Action Value)) (out : TableRow)
      → create platform row s ≡ ok (acts, out)
      → apply_all platform s acts ≡ ok t
      → again.schema_id ≡ row.schema_id
      → again.name ≡ row.name
      → (out ≡ row)
        × (get_by_id t row.id ≡ ok row)
        × (get_by_schema_and_name platform t row.schema_id row.name ≡ ok row)
        × (create platform again t ≡ err table_already_exists)
  unfolding natural_key_for
  create-found row again s t acts out h e same_schema same_name =
      let (q, o) = created row s t acts out h e in
      let found : get_by_natural_key t EntityKind.table (child_key platform row.schema_id row.name)
          ≡ some (Row.table row) =
        rw (← q) (
          place-found platform s EntityKind.table row.id (Row.table row)
            (child_key platform row.schema_id row.name) refl) in
      (
        sym o,
        unfold get_by_id table_of in
            rw (← q) (rw (get-place_self platform s EntityKind.table row.id (Row.table row)) refl),
        get_by_schema_and_name-found t row found,
        unfold create in rw same_schema (rw same_name (rw found refl)),
      )

  -- A `delete` whose actions are applied leaves no row under the id, and the name that the table had
  -- is found no more; a `delete` of an id that has no row is refused.
  pub delete-missing :
      (id : Uuid) (s t : Snapshot) (acts : List (Action Value)) (out : Unit) (row : TableRow)
      → get s EntityKind.table id ≡ some (Row.table row)
      → delete platform id s ≡ ok (acts, out)
      → apply_all platform s acts ≡ ok t
      → (get_by_id t id ≡ err table_not_found)
        × (get_by_schema_and_name platform t row.schema_id row.name ≡ err table_not_found)
        × (delete platform id t ≡ err table_not_found)
  unfolding delete apply_all apply natural_key_for
  delete-missing id s t acts out row g h e =
      let q : Action.remove EntityKind.table id ∷ [] ≡ acts = ground arith in
      let r : displace platform s EntityKind.table id ≡ t = ground arith in
      let gone : get t EntityKind.table id ≡ none =
        rw (← r) (get-displace_self platform s EntityKind.table id) in
      (
        unfold get_by_id in rw gone refl,
        get_by_schema_and_name-missing t row.schema_id row.name (
            rw (← r) (
              displace-missing platform s EntityKind.table id (Row.table row)
                (child_key platform row.schema_id row.name) g refl)),
        rw gone refl,
      )

  renamed_to :
      (s : Snapshot) (row : TableRow) (new_name named : Text)
      → check_rename s EntityKind.table
          (child_key platform row.schema_id)
          table_already_exists
          row.name
          (some new_name)
        ≡ ok named
      → new_name ≡ named
  unfolding check_rename
  renamed_to s row new_name named h = ground arith

  -- A `rename` of a table to another name, once its actions are applied: the table is found under
  -- the new name, with its other fields but the time of the update as they were, and it is found
  -- under the old name no more.
  pub rename-found :
      (id : Uuid) (new_name : Text) (updated_at : ℤ) (s t : Snapshot) (acts : List (Action Value))
      (out : Unit) (row : TableRow)
      → get s EntityKind.table id ≡ some (Row.table row)
      → new_name ≢ row.name
      → rename platform id new_name updated_at s ≡ ok (acts, out)
      → apply_all platform s acts ≡ ok t
      → (get_by_schema_and_name platform t row.schema_id new_name
          ≡ ok (named_at new_name updated_at row))
        × (get_by_schema_and_name platform t row.schema_id row.name ≡ err table_not_found)
  unfolding rename rename_at natural_key_for Row.row_of table_of
  rename-found id new_name updated_at s t acts out row g other h e =
      let h0 = ap (λ (o : Option Row). rename_at platform o id new_name updated_at s) (sym g) ∙ h in
      let (named, n, h1) =
        >>=-eq-ok
          (check_rename s EntityKind.table (child_key platform row.schema_id) table_already_exists
            row.name (some new_name))
          _ h0 in
      let same_name : new_name ≡ named = renamed_to s row new_name named n in
      let (q, _) =
        upsert_one-place platform s t EntityKind.table id (named_at named updated_at row) acts tt
          out h1 e in
      let w = named_at new_name updated_at row in
      let q' : place platform s EntityKind.table id (Row.table w) ≡ t = rw same_name q in
      (
        get_by_schema_and_name-found t w (
            rw (← q') (
              place-found platform s EntityKind.table id (Row.table w)
                (child_key platform row.schema_id new_name) refl)),
        get_by_schema_and_name-missing t row.schema_id row.name (
            rw (← q') (
              place-renamed platform s EntityKind.table id (Row.table row) (Row.table w)
                (child_key platform row.schema_id row.name) g refl
                (not_old row.schema_id new_name row.name other))),
      )
    where
      not_old :
          (schema_id : Uuid) (a b : Text)
          → a ≢ b
          → is_key EntityKind.table
              (some (child_key platform schema_id a))
              EntityKind.table
              (child_key platform schema_id b)
            ≡ false
      not_old schema_id a b ne = ground (
        arith,
        eq_of_is_key EntityKind.table (some (child_key platform schema_id a)) EntityKind.table
            (child_key platform schema_id b),
        child_key-injective platform schema_id schema_id a b,
      )
