-- ===== src/Repos/Function/Keeps.antt =====
-- The writes of crates/uc-db/src/repos/function.rs keep the snapshot's invariant.
use unity_catalog.Prelude.{
  List, [], ◌∷◌, ok, >>=-eq-ok, ◌≡◌, refl, sym, ◌∙◌, subst, inl, inr, Bool-cases, arith, is_some,
  resource_already_exists, ◌>>=◌,
}
use unity_catalog.Models.{Uuid, FunctionRow, FunctionParamRow}
use unity_catalog.Store.Kind.{EntityKind}
use unity_catalog.Store.Platform.{Platform}
use unity_catalog.Store.Row
use unity_catalog.Store.Row.{Row}
use unity_catalog.Store.NaturalKey.{natural_key_for, child_key}
use unity_catalog.Store.Action.{Action}
use unity_catalog.Store.Snapshot.{Snapshot, get, apply, apply_all, displace, place}
use unity_catalog.Store.Snapshot.Scan.{iter}
use unity_catalog.Store.Valid.{IsValid, place-IsValid, displace-IsValid}
use unity_catalog.Repos.Build.{
  Keeps, create-IsValid, removes-IsValid, upsert_row, apply-upsert_row, removals,
}
use unity_catalog.Repos.Function.{params_of, create, param_actions, insert_params, drop, delete}

module _ {Value : Type 0} (platform : Platform Value) where
  pub create-Keeps : (row : FunctionRow) → Keeps platform (create platform row)
  unfolding create natural_key_for Row.row_of Row.row_id
  create-Keeps row s t acts out v h e =
      create-IsValid platform s t v EntityKind.function row.id row
        (child_key platform row.schema_id row.name) resource_already_exists acts _ out refl
        (λ own q. ground arith) h e

  param_actions-IsValid :
      (params : List FunctionParamRow) (acts : List (Action Value)) (s t : Snapshot)
      → IsValid platform s
      → param_actions platform params ≡ ok acts
      → apply_all platform s acts ≡ ok t
      → IsValid platform t
  unfolding param_actions apply_all natural_key_for Row.row_of Row.row_id Row.kind
  param_actions-IsValid [] acts s t v h e =
      let q : [] ≡ acts = ground arith in let r : s ≡ t = ground arith in rw (← r) v
  param_actions-IsValid (p ∷ ps) acts s t v h e =
      let (act, a, h1) = >>=-eq-ok (upsert_row platform EntityKind.function_parameter p.id p) _ h in
      let (rest, b, h2) = >>=-eq-ok (param_actions platform ps) _ h1 in
      let q : act ∷ rest ≡ acts = ground arith in
      let placed = apply-upsert_row platform s EntityKind.function_parameter p.id p act a in
      let e' = subst (λ (x : List (Action Value)). apply_all platform s x ≡ ok t) (sym q) e in
      let (u, c, e2) =
        >>=-eq-ok (apply platform s act) (λ (w : Snapshot). apply_all platform w rest) e' in
      let at : place platform s EntityKind.function_parameter p.id (Row.function_parameter p) ≡ u =
        ok_eq (sym placed ∙ c) in
      let w =
        place-IsValid platform s v EntityKind.function_parameter p.id (Row.function_parameter p)
          refl (λ key id n i. absurd cc) (λ own n. ground arith) in
      param_actions-IsValid ps rest u t (subst (IsValid platform) at w) b e2
    where
      ok_eq : {x y : Snapshot} → ok x ≡ ok y → x ≡ y
      ok_eq e = ground arith

  pub insert_params-Keeps :
      (params : List FunctionParamRow) → Keeps platform (insert_params platform params)
  unfolding insert_params
  insert_params-Keeps params s t acts out v h e =
      let (made, a, h1) = >>=-eq-ok (param_actions platform params) _ h in
      let q : made ≡ acts = ground arith in param_actions-IsValid params made s t v a (rw q e)

  pub delete-Keeps : (id : Uuid) → Keeps platform (delete platform id)
  unfolding delete apply_all apply
  delete-Keeps id s t acts out v h e = elim (Bool-cases (is_some (get s EntityKind.function id))) [
    | inr missing ↦ absurd (ground arith)
    | inl there ↦
        let h0 : (params_of id (iter s EntityKind.function_parameter) >>= drop platform id)
            ≡ ok (acts, out) =
          ground arith in
        let (ids, p, h1) = >>=-eq-ok (params_of id (iter s EntityKind.function_parameter)) _ h0 in
        let q : Action.remove EntityKind.function id ∷ removals EntityKind.function_parameter ids
            ≡ acts =
          ground arith in
        let s' = displace platform s EntityKind.function id in
        let e' : apply_all platform s
              (Action.remove EntityKind.function id ∷ removals EntityKind.function_parameter ids)
            ≡ ok t =
          subst (λ (x : List (Action Value)). apply_all platform s x ≡ ok t) (sym q) e in
        removes-IsValid platform s' t (displace-IsValid platform s v EntityKind.function id)
          EntityKind.function_parameter ids e'
  ]
