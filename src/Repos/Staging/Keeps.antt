-- ===== src/Repos/Staging/Keeps.antt =====
-- The writes of crates/uc-db/src/repos/staging.rs keep the snapshot's invariant.
use unity_catalog.Prelude.{ℤ, Option, none, some, List, ok, >>=-eq-ok, ◌≡◌, refl, ap, ◌∙◌, arith}
use unity_catalog.Models.{Uuid, StagingTableRow}
use unity_catalog.Store.Kind.{EntityKind}
use unity_catalog.Store.Platform.{Platform}
use unity_catalog.Store.Row
use unity_catalog.Store.Row.{Row}
use unity_catalog.Store.NaturalKey.{natural_key_for}
use unity_catalog.Store.Action.{Action}
use unity_catalog.Store.Snapshot.{Snapshot, get, apply_all}
use unity_catalog.Store.Valid.{IsValid}
use unity_catalog.Repos.Build.{Keeps, upsert_one-IsValid, nothing-IsValid}
use unity_catalog.Repos.Staging.{row_of, create, mark_committed, mark_committed_at}

eq_of_row_of : (r : Row) (c : StagingTableRow) → row_of r ≡ ok c → r ≡ Row.staging_table c
unfolding row_of
eq_of_row_of (Row.staging_table r) c h = ground arith
eq_of_row_of _ c h = ground arith

module _ {Value : Type 0} (platform : Platform Value) where
  pub create-Keeps : (row : StagingTableRow) → Keeps platform (create platform row)
  unfolding create natural_key_for Row.row_of Row.row_id
  create-Keeps row s t acts out v h e =
      upsert_one-IsValid platform s t v EntityKind.staging_table row.id row acts row out
        (λ key id n i. absurd cc) (λ own q. ground arith) h e

  mark_committed_at-IsValid :
      (found : Option Row) (id : Uuid) (committed_at : ℤ) (s t : Snapshot)
      (acts : List (Action Value)) (out : Unit)
      → IsValid platform s
      → get s EntityKind.staging_table id ≡ found
      → mark_committed_at platform found id committed_at ≡ ok (acts, out)
      → apply_all platform s acts ≡ ok t
      → IsValid platform t
  unfolding mark_committed_at natural_key_for Row.row_of Row.row_id
  mark_committed_at-IsValid none id committed_at s t acts out v g h e =
      nothing-IsValid platform s t v acts tt out h e
  mark_committed_at-IsValid (some current) id committed_at s t acts out v g h e =
      let (found, f, h1) = >>=-eq-ok (row_of current) _ h in
      let at : get s EntityKind.staging_table id ≡ some (Row.staging_table found) =
        g ∙ ap some (eq_of_row_of current found f) in
      let own : found.id ≡ id =
        v.identified EntityKind.staging_table id (Row.staging_table found) found.id at refl in
      upsert_one-IsValid platform s t v EntityKind.staging_table id _ acts tt out
        (λ key i n m. absurd cc) (λ i q. ground arith) h1 e

  pub mark_committed-Keeps :
      (id : Uuid) (committed_at : ℤ) → Keeps platform (mark_committed platform id committed_at)
  unfolding mark_committed
  mark_committed-Keeps id committed_at s t acts out v h e =
      mark_committed_at-IsValid (get s EntityKind.staging_table id) id committed_at s t acts out v
        refl h e
