-- ===== src/Repos/Catalog/Keeps.antt =====
-- The writes of the catalog repository keep the snapshot's invariant.
use unity_catalog.Prelude.{
  ℤ, Option, none, some, ok, >>=-eq-ok, ◌≡◌, refl, sym, subst, eq_of_ok_or, arith, ok_or, ap, ◌∙◌,
  catalog_not_found, catalog_already_exists,
}
use unity_catalog.Prelude.Text.{Text}
use unity_catalog.Models.{Uuid, CatalogRow}
use unity_catalog.Store.Kind.{EntityKind}
use unity_catalog.Store.Platform.{Platform}
use unity_catalog.Store.Row
use unity_catalog.Store.Row.{Row}
use unity_catalog.Store.NaturalKey.{natural_key_for}
use unity_catalog.Store.Snapshot.{Snapshot, get, get_by_natural_key}
use unity_catalog.Store.Snapshot.Unique.{IsFree}
use unity_catalog.Store.Valid.{IsValid, IsFree-of_same, found-key}
use unity_catalog.Repos.Build.{
  Keeps, upsert_one-IsValid, remove-IsValid, create-IsValid, IsFree-of_rename,
}
use unity_catalog.Repos.Catalog.{row_of, renamed, create, update, delete}

eq_of_row_of : (r : Row) (c : CatalogRow) → row_of r ≡ ok c → r ≡ Row.catalog c
unfolding row_of
eq_of_row_of (Row.catalog r) c h = ground arith
eq_of_row_of _ c h = ground arith

module _ {Value : Type 0} (platform : Platform Value) where
  pub create-Keeps :
      (id : Uuid) (name : Text) (comment owner created_by storage_root : Option Text)
      (created_at : ℤ)
      → Keeps platform (create platform id name comment owner created_by storage_root created_at)
  unfolding create natural_key_for Row.row_of Row.row_id
  create-Keeps id name comment owner created_by storage_root created_at s t acts out v h e =
      create-IsValid platform s t v EntityKind.catalog id _ name catalog_already_exists acts _ out
        refl (λ own q. ground arith) h e

  -- What the closure of `update` finds, and the row that a rename makes of it.
  renamed-IsFree :
      (s : Snapshot) (name : Text) (new_name : Option Text) (found named row : CatalogRow)
      (id : Uuid)
      → IsValid platform s
      → get s EntityKind.catalog id ≡ some (Row.catalog found)
      → found.name ≡ name
      → renamed s name new_name found ≡ ok named
      → row.name ≡ named.name
      → IsFree platform s EntityKind.catalog id (Row.catalog row)
  unfolding renamed natural_key_for
  renamed-IsFree s name none found named row id v g n h m =
      IsFree-of_same platform s v EntityKind.catalog id (Row.catalog found) (Row.catalog row) name g
        (ap some n) (ground arith)
  renamed-IsFree s name (some target) found named row id v g n h m =
      IsFree-of_rename platform s s v EntityKind.catalog id (Row.catalog found) (Row.catalog row)
        name target name target g (ap some n) (ground arith) (λ q. q) (ground arith)

  renamed-id :
      (s : Snapshot) (name : Text) (new_name : Option Text) (found named : CatalogRow)
      → renamed s name new_name found ≡ ok named
      → named.id ≡ found.id
  unfolding renamed
  renamed-id s name new_name found named h = ground arith

  -- The catalog that a lookup by name finds stands under its own id.
  found-catalog :
      (s : Snapshot) (name : Text) (current : Row) (found : CatalogRow)
      → IsValid platform s
      → get_by_natural_key s EntityKind.catalog name ≡ some current
      → row_of current ≡ ok found
      → (get s EntityKind.catalog found.id ≡ some (Row.catalog found)) × (found.name ≡ name)
  found-catalog s name current found v g r =
      let (id, i, at, n) = found-key platform s v EntityKind.catalog name current g in
      let q = eq_of_row_of current found r in
      let own : found.id ≡ id =
        v.identified EntityKind.catalog id current found.id at (unfold Row.row_id in rw q refl) in
      (
        subst (λ (i : Uuid). get s EntityKind.catalog i ≡ some (Row.catalog found)) (sym own)
            (at ∙ ap some q),
        unfold natural_key_for in ground arith,
      )

  pub update-Keeps :
      (name : Text) (new_name comment owner updated_by : Option Text) (updated_at : ℤ)
      → Keeps platform (update platform name new_name comment owner updated_by updated_at)
  unfolding update Row.row_of Row.row_id
  update-Keeps name new_name comment owner updated_by updated_at s t acts out v h e =
      let (current, c, h1) =
        >>=-eq-ok (ok_or catalog_not_found (get_by_natural_key s EntityKind.catalog name)) _ h in
      let (found, f, h2) = >>=-eq-ok (row_of current) _ h1 in
      let (named, n, h3) = >>=-eq-ok (renamed s name new_name found) _ h2 in
      let (at, own) =
        found-catalog s name current found v (eq_of_ok_or catalog_not_found _ current c) f in
      let at' =
        subst (λ (i : Uuid). get s EntityKind.catalog i ≡ some (Row.catalog found))
          (sym (renamed-id s name new_name found named n)) at in
      upsert_one-IsValid platform s t v EntityKind.catalog named.id _ acts _ out
        (renamed-IsFree s name new_name found named _ named.id v at' own n refl)
        (λ i q. ground arith) h3 e

  pub delete-Keeps : (name : Text) → Keeps platform (delete platform name)
  unfolding delete
  delete-Keeps name s t acts out v h e =
      let (current, c, h1) =
        >>=-eq-ok (ok_or catalog_not_found (get_by_natural_key s EntityKind.catalog name)) _ h in
      let (found, f, h2) = >>=-eq-ok (row_of current) _ h1 in
      remove-IsValid platform s t v EntityKind.catalog found.id acts tt out h2 e
