-- ===== src/Repos/Delta.antt =====
-- crates/uc-db/src/repos/delta.rs
pub mod Rows
pub mod Listed
pub mod Once
use unity_catalog.Prelude.{
  ℤ, true, Option, none, some, List, [], ◌∷◌, Result, ok, err, internal, ok_or, ◌>>=◌, ◌≡◌,
}
use unity_catalog.Prelude.Text.{Text, bytes}
use unity_catalog.Models.{Uuid, DeltaCommitRow}
use unity_catalog.Store.Platform.{Platform}
use unity_catalog.Store.Delta.{
  DeltaLog, Documents, append, versions, read, latest_version, mutate_commit,
}
use unity_catalog.Store.Protocol.{Outcome}

-- serde_json's text of a row, which is read back as the row it was written for
pub record CommitText : Type 0 where
  pub to_vec : DeltaCommitRow → Option Text
  pub from_slice : Text → Option DeltaCommitRow
  pub from_slice-to_vec :
      (row : DeltaCommitRow) (text : Text) → to_vec row ≡ some text → from_slice text ≡ some row

module _ {Value : Type 0} (platform : Platform Value) (text : CommitText) where
  unfoldable pub decode : Text → Result DeltaCommitRow
  decode bytes = ok_or internal (text.from_slice bytes)

  -- the answer of an append
  abbrev pub answer : DeltaCommitRow → Outcome → Result DeltaCommitRow
  answer row (ok _) = ok row
  answer row (err code) = err code

  unfoldable pub insert_text :
      DeltaCommitRow → Option Text → DeltaLog → DeltaLog × Result DeltaCommitRow
  insert_text row none d = (d, err internal)
  insert_text row (some body) d =
      let appended = append platform row.table_id row.commit_version body d in
      (appended.0, answer row appended.1)

  unfoldable pub insert : DeltaCommitRow → DeltaLog → DeltaLog × Result DeltaCommitRow
  unfolding insert_text
  insert row d = insert_text row (text.to_vec row) d

  -- a version that is listed but cannot be read is a hole
  unfoldable pub rows_at : Uuid → List ℤ → DeltaLog → Result (List DeltaCommitRow)
  unfolding decode
  rows_at table_id [] d = ok []
  rows_at table_id (version ∷ rest) d =
      ok_or internal (read platform table_id version d) >>= λ bytes.
      decode bytes >>= λ row. rows_at table_id rest d >>= λ rows. ok (row ∷ rows)

  unfoldable pub list_for_table :
      Uuid → (starting_version ending_version : Option ℤ) → DeltaLog → Result (List DeltaCommitRow)
  unfolding rows_at
  list_for_table table_id starting_version ending_version d =
      versions platform table_id starting_version ending_version d >>= λ vs. rows_at table_id vs d

  unfoldable pub mark_backfilled : Documents → Uuid → ℤ → DeltaLog → DeltaLog × Outcome
  mark_backfilled docs table_id version d =
      mutate_commit platform docs table_id version
        (docs.set (bytes "is_backfilled_latest_commit") (docs.of_bool true)) d
