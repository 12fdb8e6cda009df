-- ===== src/Repos/Property.antt =====
-- crates/uc-db/src/repos/property.rs. The map of properties is its entries, in any order.
pub mod Keeps
use unity_catalog.Prelude.{
  ℕ, suc, Bool, true, false, Option, none, some, List, [], ◌∷◌, ◌++◌, Result, ok, err, internal,
  ◌>>=◌, if◌then◌else◌,
}
use unity_catalog.Prelude.Text.{Text}
use unity_catalog.Prelude.Order.{less, bytes_ord}
use unity_catalog.Prelude.HashMap
use unity_catalog.Prelude.HashMap.{HashMap}
use unity_catalog.Models.{Uuid, PropertyRow}
use unity_catalog.Store.Kind.{EntityKind}
use unity_catalog.Store.Platform.{Platform}
use unity_catalog.Store.Row.{Row}
use unity_catalog.Store.NaturalKey.{property_key}
use unity_catalog.Store.Action.{Action}
use unity_catalog.Store.Snapshot.{Snapshot, get, get_by_natural_key}
use unity_catalog.Store.Snapshot.Scan.{ids_under_prefix}
use unity_catalog.Repos.Build.{Build, writes, upsert_row, upsert_one, removals}

unfoldable pub row_of : Row → Result PropertyRow
row_of (Row.property r) = ok r
row_of _ = err internal

-- the properties of the rows at `ids`, a later one over an earlier one of its key
unfoldable pub collect : Snapshot → List Uuid → HashMap Text Text → Result (HashMap Text Text)
unfolding row_of
collect snap [] out = ok out
collect snap (id ∷ ids) out = elim (get snap EntityKind.property id) [
  | none ↦ collect snap ids out
  | some v ↦
      row_of v >>= λ row. collect snap ids (HashMap.insert row.property_key row.property_value out)
]

-- `entries.sort_by(|a, b| a.0.cmp(b.0))`
unfoldable pub insert_entry : Text × Text → List (Text × Text) → List (Text × Text)
insert_entry entry [] = entry ∷ []
insert_entry entry (e ∷ es) =
    let rest = insert_entry entry es in if less e.0 entry.0 then e ∷ rest else entry ∷ e ∷ es

unfoldable pub sort_entries : List (Text × Text) → List (Text × Text)
unfolding insert_entry
sort_entries [] = []
sort_entries (e ∷ es) = insert_entry e (sort_entries es)

-- the row that is written
abbrev pub property_of : Uuid → Uuid → Text → Text → Text → PropertyRow
property_of id entity_id entity_type key value = record {
  id = id;
  entity_id = entity_id;
  entity_type = entity_type;
  property_key = key;
  property_value = value;
}

-- the id of the row that a lookup found, or a fresh one
unfoldable pub id_or : Uuid → Option Row → Result Uuid
unfolding row_of
id_or fresh none = ok fresh
id_or fresh (some v) = row_of v >>= λ row. ok row.id

module _ {Value : Type 0} (platform : Platform Value) where
  unfoldable pub get_for_entity : Snapshot → Uuid → Text → Result (HashMap Text Text)
  unfolding collect
  get_for_entity snap entity_id entity_type =
      collect snap
        (ids_under_prefix snap EntityKind.property (property_key platform entity_id entity_type []))
        []

  -- `fresh n` is the id that the n-th call of `Uuid::now_v7()` gives
  unfoldable pub inserts :
      Uuid → Text → (ℕ → Uuid) → ℕ → List (Text × Text) → Result (List (Action Value))
  inserts entity_id entity_type fresh n [] = ok []
  inserts entity_id entity_type fresh n ((key, value) ∷ entries) =
      let row = property_of (fresh n) entity_id entity_type key value in
      upsert_row platform EntityKind.property row.id row >>= λ act.
      inserts entity_id entity_type fresh (suc n) entries >>= λ acts. ok (act ∷ acts)

  unfoldable pub replace : Uuid → Text → (ℕ → Uuid) → List (Text × Text) → Build Value Unit
  unfolding inserts sort_entries
  replace entity_id entity_type fresh properties snap =
      inserts entity_id entity_type fresh 0 (sort_entries properties) >>= λ acts.
      writes
        (removals EntityKind.property (
            ids_under_prefix snap EntityKind.property
              (property_key platform entity_id entity_type []))
          ++ acts)
        tt

  unfoldable pub delete_for_entity : Uuid → Text → Build Value Unit
  delete_for_entity entity_id entity_type snap =
      writes
        (removals EntityKind.property (
          ids_under_prefix snap EntityKind.property
            (property_key platform entity_id entity_type [])))
        tt

  unfoldable pub set : (fresh entity_id : Uuid) (entity_type key value : Text) → Build Value Unit
  unfolding id_or
  set fresh entity_id entity_type key value snap =
      id_or fresh (
        get_by_natural_key snap EntityKind.property
          (property_key platform entity_id entity_type key))
      >>= λ id.
          let row = property_of id entity_id entity_type key value in
          upsert_one platform EntityKind.property id row tt

  unfoldable pub delete_found : Option Row → Result {0} (List (Action Value) × Unit)
  unfolding row_of
  delete_found none = writes [] tt
  delete_found (some existing) =
      row_of existing >>= λ row. writes (Action.remove EntityKind.property row.id ∷ []) tt

  unfoldable pub delete_key : (entity_id : Uuid) (entity_type key : Text) → Build Value Unit
  unfolding delete_found
  delete_key entity_id entity_type key snap = delete_found (
      get_by_natural_key snap EntityKind.property (property_key platform entity_id entity_type key))
