-- ===== src/Repos/Casbin/Keeps.antt =====
-- The writes of crates/uc-db/src/repos/casbin.rs keep the snapshot's invariant.
use unity_catalog.Prelude.{
  Bool, true, false, Option, none, some, List, ok, ◌≡◌, refl, inl, inr, Option-cases, arith, map,
}
use unity_catalog.Models.{Uuid, CasbinRule}
use unity_catalog.Store.Kind.{EntityKind}
use unity_catalog.Store.Platform.{Platform}
use unity_catalog.Store.Row
use unity_catalog.Store.Row.{Row}
use unity_catalog.Store.NaturalKey.{natural_key_for, rule_key}
use unity_catalog.Store.Action.{Action}
use unity_catalog.Store.Snapshot.{Snapshot, get_by_natural_key, id_by_natural_key, apply_all}
use unity_catalog.Store.Snapshot.Scan.{iter_by_id}
use unity_catalog.Store.Valid.{IsValid, IsFree-of_none}
use unity_catalog.Repos.Build.{
  Keeps, upsert_one-IsValid, remove-IsValid, removes-IsValid, nothing-IsValid, removals,
}
use unity_catalog.Repos.Casbin.{ids_of_rules, insert, delete, delete_found, delete_many, clear}

module _ {Value : Type 0} (platform : Platform Value) where
  pub insert-Keeps :
      (fresh : Uuid) (rule : CasbinRule) → Keeps platform (insert platform fresh rule)
  unfolding insert natural_key_for Row.row_of Row.row_id
  insert-Keeps fresh rule s t acts out v h e =
      elim (Option-cases (get_by_natural_key s EntityKind.casbin_rule (rule_key rule))) [
        | inr (r, there) ↦ nothing-IsValid platform s t v acts false out (ground arith) e
        | inl absent ↦
            upsert_one-IsValid platform s t v EntityKind.casbin_rule fresh rule acts true out
              (IsFree-of_none platform s v EntityKind.casbin_rule fresh (Row.casbin_rule rule)
                (rule_key rule) refl absent)
              (λ own q. ground arith) (ground arith) e
      ]

  delete_found-IsValid :
      (found : Option Uuid) (s t : Snapshot) (acts : List (Action Value)) (out : Bool)
      → IsValid platform s
      → delete_found platform found ≡ ok (acts, out)
      → apply_all platform s acts ≡ ok t
      → IsValid platform t
  delete_found-IsValid none s t acts out v h e = nothing-IsValid platform s t v acts false out h e
  delete_found-IsValid (some id) s t acts out v h e =
      remove-IsValid platform s t v EntityKind.casbin_rule id acts true out h e

  pub delete-Keeps : (rule : CasbinRule) → Keeps platform (delete platform rule)
  unfolding delete
  delete-Keeps rule s t acts out v h e =
      delete_found-IsValid (id_by_natural_key s EntityKind.casbin_rule (rule_key rule)) s t acts out
        v h e

  pub delete_many-Keeps : (rules : List CasbinRule) → Keeps platform (delete_many platform rules)
  unfolding delete_many
  delete_many-Keeps rules s t acts out v h e =
      let ids = ids_of_rules s rules in
      let q : removals EntityKind.casbin_rule ids ≡ acts = ground arith in
      removes-IsValid platform s t v EntityKind.casbin_rule ids (rw q e)

  pub clear-Keeps : Keeps platform (clear platform)
  unfolding clear
  clear-Keeps s t acts out v h e =
      let ids = map (λ (entry : Uuid × Row). entry.0) (iter_by_id s EntityKind.casbin_rule) in
      let q : removals EntityKind.casbin_rule ids ≡ acts = ground arith in
      removes-IsValid platform s t v EntityKind.casbin_rule ids (rw q e)
