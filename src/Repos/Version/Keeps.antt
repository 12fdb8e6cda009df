-- ===== src/Repos/Version/Keeps.antt =====
-- The writes of model versions in crates/uc-db/src/repos/model.rs keep the snapshot's invariant.
use unity_catalog.Prelude.{
  ℤ, Bool, true, false, Option, none, some, List, [], ◌∷◌, ◌++◌, ok, >>=-eq-ok, ◌≡◌, refl, sym, ap,
  ◌∙◌, subst, arith, is_some, keep,
}
use unity_catalog.Prelude.Text.{Text}
use unity_catalog.Models.{Uuid, ModelVersionRow, RegisteredModelRow}
use unity_catalog.Store.Kind.{EntityKind}
use unity_catalog.Store.Platform.{Platform}
use unity_catalog.Store.Row
use unity_catalog.Store.Row.{Row}
use unity_catalog.Store.NaturalKey.{natural_key_for, child_key}
use unity_catalog.Store.Action.{Action}
use unity_catalog.Store.Snapshot.{Snapshot, get, apply, apply_all, displace}
use unity_catalog.Store.Valid.{IsValid, IsFree-of_same, displace-IsValid}
use unity_catalog.Repos.Build.{
  Keeps, upsert_one-IsValid, nothing-IsValid, removes-IsValid, removals,
}
use unity_catalog.Repos.Model
use unity_catalog.Repos.Version.{
  version_of, versions_of, ids_of, create_version, drop_model, delete_model, drop_versions,
  delete_version, edit_at, commented, update_version, with_status, set_version_status, set_max_at,
  set_max_version, is_version,
}

eq_of_version_of : (r : Row) (c : ModelVersionRow) → version_of r ≡ ok c → r ≡ Row.model_version c
unfolding version_of
eq_of_version_of (Row.model_version r) c h = ground arith
eq_of_version_of _ c h = ground arith

eq_of_row_of :
    (r : Row) (c : RegisteredModelRow) → Model.row_of r ≡ ok c → r ≡ Row.registered_model c
unfolding Model.row_of
eq_of_row_of (Row.registered_model r) c h = ground arith
eq_of_row_of _ c h = ground arith

module _ {Value : Type 0} (platform : Platform Value) where
  pub create_version-Keeps : (row : ModelVersionRow) → Keeps platform (create_version platform row)
  unfolding create_version natural_key_for Row.row_of Row.row_id
  create_version-Keeps row s t acts out v h e =
      upsert_one-IsValid platform s t v EntityKind.model_version row.id row acts row out
        (λ key id n i. absurd cc) (λ own q. ground arith) h e

  -- Removing some entities of one kind, and then some of another.
  removals-IsValid :
      (k j : EntityKind) (ids others : List Uuid) (s t : Snapshot)
      → IsValid platform s
      → apply_all platform s (removals k ids ++ removals j others) ≡ ok t
      → IsValid platform t
  unfolding apply_all apply
  removals-IsValid k j [] others s t v e = removes-IsValid platform s t v j others e
  removals-IsValid k j (id ∷ ids) others s t v e =
      removals-IsValid k j ids others (displace platform s k id) t
        (displace-IsValid platform s v k id) e

  pub delete_model-Keeps : (id : Uuid) → Keeps platform (delete_model platform id)
  unfolding delete_model
  delete_model-Keeps id s t acts out v h e =
      let (rows, r, h1) =
        >>=-eq-ok (versions_of s id)
          (drop_model platform id (is_some (get s EntityKind.registered_model id))) h in
      by_test (is_some (get s EntityKind.registered_model id)) rows h1
    where
      by_test :
          (there : Bool) (rows : List ModelVersionRow)
          → drop_model platform id there rows ≡ ok (acts, out)
          → IsValid platform t
      by_test true rows h1 =
          let q : removals EntityKind.model_version (ids_of rows)
                ++ removals EntityKind.registered_model (id ∷ [])
              ≡ acts =
            ground arith in
          removals-IsValid EntityKind.model_version EntityKind.registered_model (ids_of rows)
            (id ∷ []) s t v
            (subst (λ (x : List (Action Value)). apply_all platform s x ≡ ok t) (sym q) e)
      by_test false rows h1 =
          let q : removals EntityKind.model_version (ids_of rows)
                ++ removals EntityKind.registered_model []
              ≡ acts =
            ground arith in
          removals-IsValid EntityKind.model_version EntityKind.registered_model (ids_of rows) [] s t
            v (subst (λ (x : List (Action Value)). apply_all platform s x ≡ ok t) (sym q) e)

  pub delete_version-Keeps :
      (model_id : Uuid) (version : ℤ) → Keeps platform (delete_version platform model_id version)
  unfolding delete_version
  delete_version-Keeps model_id version s t acts out v h e =
      let (rows, r, h1) = >>=-eq-ok (versions_of s model_id) (drop_versions platform version) h in
      let ids = ids_of (keep (is_version version) rows) in
      let q : removals EntityKind.model_version ids ≡ acts = ground arith in
      removes-IsValid platform s t v EntityKind.model_version ids
        (subst (λ (x : List (Action Value)). apply_all platform s x ≡ ok t) (sym q) e)

  -- An edit that leaves the id keeps the invariant.
  edit_at-IsValid :
      (edit : ModelVersionRow → ModelVersionRow) (id : Uuid) (found : Option Row) (s t : Snapshot)
      (acts : List (Action Value)) (out : Unit)
      → ((row : ModelVersionRow) → (edit row).id ≡ row.id)
      → IsValid platform s
      → get s EntityKind.model_version id ≡ found
      → edit_at platform edit id found ≡ ok (acts, out)
      → apply_all platform s acts ≡ ok t
      → IsValid platform t
  unfolding edit_at natural_key_for Row.row_of Row.row_id
  edit_at-IsValid edit id none s t acts out same v g h e =
      nothing-IsValid platform s t v acts tt out h e
  edit_at-IsValid edit id (some current) s t acts out same v g h e =
      let (row, f, h1) = >>=-eq-ok (version_of current) _ h in
      let at = g ∙ ap some (eq_of_version_of current row f) in
      let own : row.id ≡ id =
        v.identified EntityKind.model_version id (Row.model_version row) row.id at refl in
      upsert_one-IsValid platform s t v EntityKind.model_version id (edit row) acts tt out
        (λ key i n m. absurd cc) (λ i q. ground (arith, same row)) h1 e

  pub update_version-Keeps :
      (id : Uuid) (comment : Option Text) (updated_at : ℤ) (updated_by : Option Text)
      → Keeps platform (update_version platform id comment updated_at updated_by)
  unfolding update_version
  update_version-Keeps id comment updated_at updated_by s t acts out v h e =
      edit_at-IsValid (commented platform comment updated_at updated_by) id
        (get s EntityKind.model_version id) s t acts out (λ row. refl) v refl h e

  pub set_version_status-Keeps :
      (id : Uuid) (status : Text) → Keeps platform (set_version_status platform id status)
  unfolding set_version_status
  set_version_status-Keeps id status s t acts out v h e =
      edit_at-IsValid (with_status platform status) id (get s EntityKind.model_version id) s t acts
        out (λ row. refl) v refl h e

  set_max_at-IsValid :
      (next : ℤ) (id : Uuid) (found : Option Row) (s t : Snapshot) (acts : List (Action Value))
      (out : Unit)
      → IsValid platform s
      → get s EntityKind.registered_model id ≡ found
      → set_max_at platform next id found ≡ ok (acts, out)
      → apply_all platform s acts ≡ ok t
      → IsValid platform t
  unfolding set_max_at natural_key_for Row.row_of Row.row_id
  set_max_at-IsValid next id none s t acts out v g h e =
      nothing-IsValid platform s t v acts tt out h e
  set_max_at-IsValid next id (some current) s t acts out v g h e =
      let (row, f, h1) = >>=-eq-ok (Model.row_of current) _ h in
      let at = g ∙ ap some (eq_of_row_of current row f) in
      let own : row.id ≡ id =
        v.identified EntityKind.registered_model id (Row.registered_model row) row.id at refl in
      upsert_one-IsValid platform s t v EntityKind.registered_model id _ acts tt out
        (IsFree-of_same platform s v EntityKind.registered_model id (Row.registered_model row)
          (Row.registered_model (record row { max_version_number = some next }))
          (child_key platform row.schema_id row.name) at refl refl)
        (λ i q. ground arith) h1 e

  pub set_max_version-Keeps :
      (id : Uuid) (next : ℤ) → Keeps platform (set_max_version platform id next)
  unfolding set_max_version
  set_max_version-Keeps id next s t acts out v h e =
      set_max_at-IsValid next id (get s EntityKind.registered_model id) s t acts out v refl h e
