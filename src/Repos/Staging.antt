-- ===== src/Repos/Staging.antt =====
-- crates/uc-db/src/repos/staging.rs
pub mod Keeps
use unity_catalog.Prelude.{
  Bool, true, false, ℤ, Option, none, some, List, [], ◌∷◌, Result, ok, err, internal, ok_or, ◌>>=◌,
  traverse, not_found, ltb, leb, keep, if◌then◌else◌,
}
use unity_catalog.Prelude.Text.{Text}
use unity_catalog.Prelude.Order.{eqb, bytes_ord}
use unity_catalog.Models.{Uuid, StagingTableRow}
use unity_catalog.Store.Kind.{EntityKind}
use unity_catalog.Store.Platform.{Platform}
use unity_catalog.Store.Row.{Row}
use unity_catalog.Store.Action.{Action}
use unity_catalog.Store.Snapshot.{Snapshot, get}
use unity_catalog.Store.Snapshot.Scan.{iter}
use unity_catalog.Repos.Build.{Build, writes, upsert_one}

unfoldable pub row_of : Row → Result StagingTableRow
row_of (Row.staging_table r) = ok r
row_of _ = err internal

unfoldable pub get_by_id : Snapshot → Uuid → Result StagingTableRow
unfolding row_of
get_by_id snap id = ok_or not_found (get snap EntityKind.staging_table id) >>= row_of

-- `hits.sort_by_key(|s| s.id)` and the first: the first of the rows with the least id
unfoldable pub least_id : List StagingTableRow → Option StagingTableRow
least_id [] = none
least_id (row ∷ rows) = elim (least_id rows) [
  | none ↦ some row
  | some best ↦ if leb row.id best.id then some row else some best
]

unfoldable pub get_by_location : Snapshot → Text → Result StagingTableRow
unfolding row_of least_id
get_by_location snap location = traverse row_of (iter snap EntityKind.staging_table) >>= λ rows.
    ok_or not_found (least_id (keep (λ row. eqb row.staging_location location) rows))

module _ {Value : Type 0} (platform : Platform Value) where
  unfoldable pub create : (row : StagingTableRow) → Build Value StagingTableRow
  create row snap = upsert_one platform EntityKind.staging_table row.id row row

  unfoldable pub mark_committed_at :
      Option Row → (id : Uuid) (committed_at : ℤ) → Result {0} (List (Action Value) × Unit)
  unfolding row_of
  mark_committed_at none id committed_at = writes [] tt
  mark_committed_at (some current) id committed_at = do
    found ← row_of current
    let row : StagingTableRow = record found {
      stage_committed = true;
      stage_committed_at = some committed_at;
    }
    upsert_one platform EntityKind.staging_table id row tt

  -- A row that is not there is no error, and nothing is written.
  unfoldable pub mark_committed : (id : Uuid) (committed_at : ℤ) → Build Value Unit
  unfolding mark_committed_at
  mark_committed id committed_at snap =
      mark_committed_at (get snap EntityKind.staging_table id) id committed_at
