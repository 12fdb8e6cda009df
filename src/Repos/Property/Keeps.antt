-- ===== src/Repos/Property/Keeps.antt =====
-- The writes of one property in crates/uc-db/src/repos/property.rs keep the snapshot's invariant.
use unity_catalog.Prelude.{
  Option, none, some, List, [], ok, >>=-eq-ok, ◌≡◌, refl, ap, ◌∙◌, subst, arith, inl, inr,
  Option-cases, ◌>>=◌,
}
use unity_catalog.Prelude.Text.{Text}
use unity_catalog.Models.{Uuid, PropertyRow}
use unity_catalog.Store.Kind.{EntityKind}
use unity_catalog.Store.Platform.{Platform}
use unity_catalog.Store.Row
use unity_catalog.Store.Row.{Row}
use unity_catalog.Store.NaturalKey.{natural_key_for, property_key}
use unity_catalog.Store.Action.{Action}
use unity_catalog.Store.Snapshot.{Snapshot, get, get_by_natural_key, apply_all}
use unity_catalog.Store.Snapshot.Scan.{ids_under_prefix}
use unity_catalog.Store.Snapshot.Unique.{IsFree}
use unity_catalog.Store.Valid.{IsValid, IsFree-of_none, IsFree-of_same, found-key}
use unity_catalog.Repos.Build.{
  Keeps, upsert_one-IsValid, remove-IsValid, removes-IsValid, nothing-IsValid, removals,
}
use unity_catalog.Repos.Property.{
  row_of, id_or, property_of, delete_for_entity, set, delete_found, delete_key,
}

eq_of_row_of : (r : Row) (c : PropertyRow) → row_of r ≡ ok c → r ≡ Row.property c
unfolding row_of
eq_of_row_of (Row.property r) c h = ground arith
eq_of_row_of _ c h = ground arith

module _ {Value : Type 0} (platform : Platform Value) where
  pub delete_for_entity-Keeps :
      (entity_id : Uuid) (entity_type : Text)
      → Keeps platform (delete_for_entity platform entity_id entity_type)
  unfolding delete_for_entity
  delete_for_entity-Keeps entity_id entity_type s t acts out v h e =
      let ids =
        ids_under_prefix s EntityKind.property (property_key platform entity_id entity_type []) in
      let q : removals EntityKind.property ids ≡ acts = ground arith in
      removes-IsValid platform s t v EntityKind.property ids (rw q e)

  -- The id that `set` writes under is the one that has the key, or the key is free.
  id_or-IsFree :
      (s : Snapshot) (fresh id : Uuid) (row : Row) (key : Text)
      → IsValid platform s
      → natural_key_for platform row ≡ some key
      → id_or fresh (get_by_natural_key s EntityKind.property key) ≡ ok id
      → IsFree platform s EntityKind.property id row
  unfolding id_or
  id_or-IsFree s fresh id row key v n h =
      elim (Option-cases (get_by_natural_key s EntityKind.property key)) [
        | inl absent ↦ IsFree-of_none platform s v EntityKind.property id row key n absent
        | inr (prev, there) ↦
            let h0 : (row_of prev >>= λ (r : PropertyRow). ok r.id) ≡ ok id = ground arith in
            let (found, f, h1) = >>=-eq-ok (row_of prev) _ h0 in
            let (own, i, g, m) = found-key platform s v EntityKind.property key prev there in
            let same : prev ≡ Row.property found = eq_of_row_of prev found f in
            let named : found.id ≡ own =
              v.identified EntityKind.property own (Row.property found) found.id (g ∙ ap some same)
                (unfold Row.row_id in refl) in
            let at : own ≡ id = ground arith in
            IsFree-of_same platform s v EntityKind.property id prev row key
              (subst (λ (x : Uuid). get s EntityKind.property x ≡ some prev) at g) m n
      ]

  pub set-Keeps :
      (fresh entity_id : Uuid) (entity_type key value : Text)
      → Keeps platform (set platform fresh entity_id entity_type key value)
  unfolding set natural_key_for Row.row_of Row.row_id
  set-Keeps fresh entity_id entity_type key value s t acts out v h e =
      let natural = property_key platform entity_id entity_type key in
      let (id, i, h1) =
        >>=-eq-ok (id_or fresh (get_by_natural_key s EntityKind.property natural)) _ h in
      upsert_one-IsValid platform s t v EntityKind.property id _ acts tt out
        (id_or-IsFree s fresh id (Row.property (property_of id entity_id entity_type key value))
          natural v refl i)
        (λ own q. ground arith) h1 e

  delete_found-IsValid :
      (found : Option Row) (s t : Snapshot) (acts : List (Action Value)) (out : Unit)
      → IsValid platform s
      → delete_found platform found ≡ ok (acts, out)
      → apply_all platform s acts ≡ ok t
      → IsValid platform t
  unfolding delete_found
  delete_found-IsValid none s t acts out v h e = nothing-IsValid platform s t v acts tt out h e
  delete_found-IsValid (some existing) s t acts out v h e =
      let (row, r, h1) = >>=-eq-ok (row_of existing) _ h in
      remove-IsValid platform s t v EntityKind.property row.id acts tt out h1 e

  pub delete_key-Keeps :
      (entity_id : Uuid) (entity_type key : Text)
      → Keeps platform (delete_key platform entity_id entity_type key)
  unfolding delete_key
  delete_key-Keeps entity_id entity_type key s t acts out v h e =
      delete_found-IsValid
        (get_by_natural_key s EntityKind.property (property_key platform entity_id entity_type key))
        s t acts out v h e
