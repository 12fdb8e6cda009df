-- ===== src/Repos/Table/Columns.antt =====
-- `insert_columns` of crates/uc-db/src/repos/table.rs, which looks no position up: what it takes for its
-- columns to keep the snapshot's invariant.
use unity_catalog.Prelude.{List, [], ◌∷◌, ok, >>=-eq-ok, ◌≡◌, refl, sym, ◌∙◌, subst, arith}
use unity_catalog.Models.{ColumnRow}
use unity_catalog.Store.Kind.{EntityKind}
use unity_catalog.Store.Platform.{Platform}
use unity_catalog.Store.Row
use unity_catalog.Store.Row.{Row}
use unity_catalog.Store.Action.{Action}
use unity_catalog.Store.Snapshot.{Snapshot, apply, apply_all, place}
use unity_catalog.Store.Snapshot.Unique.{IsFree}
use unity_catalog.Store.Valid.{IsValid, place-IsValid}
use unity_catalog.Repos.Build.{upsert_row, apply-upsert_row}
use unity_catalog.Repos.Table.{column_actions, insert_columns}

module _ {Value : Type 0} (platform : Platform Value) where
  -- each column finds its position in its table free, or its own, when its turn comes
  abbrev pub AreFree : Snapshot → List ColumnRow → Type 0
  AreFree s [] = Unit
  AreFree s (column ∷ columns) =
      IsFree platform s EntityKind.column column.id (Row.column column)
      × AreFree (place platform s EntityKind.column column.id (Row.column column)) columns

  column_actions-IsValid :
      (columns : List ColumnRow) (acts : List (Action Value)) (s t : Snapshot)
      → IsValid platform s
      → AreFree s columns
      → column_actions platform columns ≡ ok acts
      → apply_all platform s acts ≡ ok t
      → IsValid platform t
  unfolding column_actions apply_all Row.row_of Row.row_id Row.kind
  column_actions-IsValid [] acts s t v f h e =
      let q : [] ≡ acts = ground arith in let r : s ≡ t = ground arith in rw (← r) v
  column_actions-IsValid (c ∷ cs) acts s t v f h e =
      let (act, a, h1) = >>=-eq-ok (upsert_row platform EntityKind.column c.id c) _ h in
      let (rest, b, h2) = >>=-eq-ok (column_actions platform cs) _ h1 in
      let q : act ∷ rest ≡ acts = ground arith in
      let placed = apply-upsert_row platform s EntityKind.column c.id c act a in
      let e' = subst (λ (x : List (Action Value)). apply_all platform s x ≡ ok t) (sym q) e in
      let (u, d, e2) =
        >>=-eq-ok (apply platform s act) (λ (w : Snapshot). apply_all platform w rest) e' in
      let at : place platform s EntityKind.column c.id (Row.column c) ≡ u =
        ok_eq (sym placed ∙ d) in
      let w =
        place-IsValid platform s v EntityKind.column c.id (Row.column c) refl f.0
          (λ own n. ground arith) in
      column_actions-IsValid cs rest u t (subst (IsValid platform) at w)
        (subst (λ (x : Snapshot). AreFree x cs) at f.1) b e2
    where
      ok_eq : {x y : Snapshot} → ok x ≡ ok y → x ≡ y
      ok_eq e = ground arith

  pub insert_columns-IsValid :
      (columns : List ColumnRow) (acts : List (Action Value)) (out : Unit) (s t : Snapshot)
      → IsValid platform s
      → AreFree s columns
      → insert_columns platform columns s ≡ ok (acts, out)
      → apply_all platform s acts ≡ ok t
      → IsValid platform t
  unfolding insert_columns
  insert_columns-IsValid columns acts out s t v f h e =
      let (made, a, h1) = >>=-eq-ok (column_actions platform columns) _ h in
      let q : made ≡ acts = ground arith in column_actions-IsValid columns made s t v f a (rw q e)
