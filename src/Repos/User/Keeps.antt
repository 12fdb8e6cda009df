-- ===== src/Repos/User/Keeps.antt =====
-- The writes of crates/uc-db/src/repos/user.rs keep the snapshot's invariant.
use unity_catalog.Prelude.{
  ℤ, Option, some, ok, >>=-eq-ok, ◌≡◌, refl, inl, inr, ap, ◌∙◌, Bool-cases, arith, ok_or,
  eq_of_ok_or, is_some, not_found, resource_already_exists,
}
use unity_catalog.Prelude.Text.{Text}
use unity_catalog.Models.{Uuid, UserRow}
use unity_catalog.Store.Kind.{EntityKind}
use unity_catalog.Store.Platform.{Platform}
use unity_catalog.Store.Row
use unity_catalog.Store.Row.{Row}
use unity_catalog.Store.NaturalKey.{natural_key_for}
use unity_catalog.Store.Snapshot.{get}
use unity_catalog.Repos.Build.{
  Keeps, upsert_one-IsValid, remove-IsValid, create-IsValid, check_rename, check_rename-IsFree,
}
use unity_catalog.Repos.User.{row_of, patched, create, update, delete}

eq_of_row_of : (r : Row) (c : UserRow) → row_of r ≡ ok c → r ≡ Row.user c
unfolding row_of
eq_of_row_of (Row.user r) c h = ground arith
eq_of_row_of _ c h = ground arith

module _ {Value : Type 0} (platform : Platform Value) where
  pub create-Keeps :
      (id : Uuid) (name : Text) (email external_id : Option Text) (state : Text) (created_at : ℤ)
      → Keeps platform (create platform id name email external_id state created_at)
  unfolding create natural_key_for Row.row_of Row.row_id
  create-Keeps id name email external_id state created_at s t acts out v h e =
      create-IsValid platform s t v EntityKind.user id _ name resource_already_exists acts _ out
        refl (λ own q. ground arith) h e

  pub update-Keeps :
      (id : Uuid) (new_name : Option Text) (email : Option Text) (state : Option Text)
      (updated_at : ℤ)
      → Keeps platform (update platform id new_name email state updated_at)
  unfolding update natural_key_for Row.row_of Row.row_id
  update-Keeps id new_name email state updated_at s t acts out v h e =
      let (current, c', h1) = >>=-eq-ok (ok_or not_found (get s EntityKind.user id)) _ h in
      let c = eq_of_ok_or not_found (get s EntityKind.user id) current c' in
      let (found, f, h2) = >>=-eq-ok (row_of current) _ h1 in
      let (named, n, h3) =
        >>=-eq-ok
          (check_rename s EntityKind.user (λ name. name) resource_already_exists found.name
            new_name)
          _ h2 in
      let at : get s EntityKind.user id ≡ some (Row.user found) =
        c ∙ ap some (eq_of_row_of current found f) in
      let own : found.id ≡ id = v.identified EntityKind.user id (Row.user found) found.id at refl in
      upsert_one-IsValid platform s t v EntityKind.user id
        (patched email state updated_at named found) acts _ out
        (check_rename-IsFree platform s t v EntityKind.user id (Row.user found)
          (Row.user (patched email state updated_at named found)) (λ name. name)
          resource_already_exists found.name named new_name at refl refl n)
        (λ i q. ground arith) h3 e

  pub delete-Keeps : (id : Uuid) → Keeps platform (delete platform id)
  unfolding delete
  delete-Keeps id s t acts out v h e = elim (Bool-cases (is_some (get s EntityKind.user id))) [
    | inl there ↦ remove-IsValid platform s t v EntityKind.user id acts tt out (ground arith) e
    | inr missing ↦ absurd (ground arith)
  ]
