-- ===== src/Repos/Casbin.antt =====
-- crates/uc-db/src/repos/casbin.rs: the store of the policy rules. `Uuid::now_v7()` is an argument,
-- the id that the call makes.
pub mod Keeps
use unity_catalog.Prelude.{
  Bool, true, false, Option, none, some, List, [], ◌∷◌, Result, ok, err, internal, ◌>>=◌, is_some,
  not, map, traverse, if◌then◌else◌,
}
use unity_catalog.Prelude.Text.{Text}
use unity_catalog.Models.{Uuid, CasbinRule}
use unity_catalog.Store.Kind.{EntityKind}
use unity_catalog.Store.Platform.{Platform}
use unity_catalog.Store.Row.{Row}
use unity_catalog.Store.NaturalKey.{rule_key}
use unity_catalog.Store.Action.{Action}
use unity_catalog.Store.Snapshot.{Snapshot, id_by_natural_key}
use unity_catalog.Store.Snapshot.Scan.{iter_by_id}
use unity_catalog.Repos.Build.{Build, writes, upsert_one, exists_key, removals}

unfoldable pub rule_of : Row → Result CasbinRule
rule_of (Row.casbin_rule r) = ok r
rule_of _ = err internal

unfoldable pub load_all : Snapshot → Result (List CasbinRule)
unfolding rule_of
load_all snap = traverse (λ entry. rule_of entry.1) (iter_by_id snap EntityKind.casbin_rule)

-- `filter_map(|k| snap.id_by_natural_key(EntityKind::CasbinRule, k))`
unfoldable pub ids_of_rules : Snapshot → List CasbinRule → List Uuid
ids_of_rules snap [] = []
ids_of_rules snap (rule ∷ rules) =
    let rest = ids_of_rules snap rules in
    elim (id_by_natural_key snap EntityKind.casbin_rule (rule_key rule)) [
      | none ↦ rest
      | some id ↦ id ∷ rest
    ]

abbrev pub is_empty {ℓ} : {A : Type ℓ} → List A → Bool
is_empty [] = true
is_empty (_ ∷ _) = false

module _ {Value : Type 0} (platform : Platform Value) where
  unfoldable pub insert : (fresh : Uuid) (rule : CasbinRule) → Build Value Bool
  insert fresh rule snap =
      if exists_key snap EntityKind.casbin_rule (rule_key rule)
      then writes [] false
      else upsert_one platform EntityKind.casbin_rule fresh rule true

  -- `Remove` of the rule that the lookup found
  abbrev pub delete_found : Option Uuid → Result (List (Action Value) × Bool)
  delete_found none = writes [] false
  delete_found (some id) = writes (Action.remove EntityKind.casbin_rule id ∷ []) true

  unfoldable pub delete : CasbinRule → Build Value Bool
  delete rule snap = delete_found (id_by_natural_key snap EntityKind.casbin_rule (rule_key rule))

  unfoldable pub delete_many : List CasbinRule → Build Value Bool
  unfolding ids_of_rules
  delete_many rules snap =
      let ids = ids_of_rules snap rules in
      writes (removals EntityKind.casbin_rule ids) (not (is_empty ids))

  unfoldable pub clear : Build Value Unit
  clear snap =
      writes
        (removals EntityKind.casbin_rule
          (map (λ entry. entry.0) (iter_by_id snap EntityKind.casbin_rule)))
        tt
