-- ===== src/Repos/Delta/Once.antt =====
-- UNIQUE(table_id, commit_version) of the Delta commits, with the listing.
use unity_catalog.Prelude.{
  ℤ, none, some, List, Result, ok, err, commit_version_conflict, All, ◌≡◌, ◌⊎◌, refl, sym, ap, ◌∙◌,
  arith, inl, inr, subst,
}
use unity_catalog.Prelude.Text.{Text}
use unity_catalog.Prelude.Order.{bytes_ord}
use unity_catalog.Prelude.BTreeMap
use unity_catalog.Prelude.Sort.{Has}
use unity_catalog.Models.{Uuid, DeltaCommitRow}
use unity_catalog.Store.Platform.{Platform}
use unity_catalog.Store.Keys.{delta_commit_key}
use unity_catalog.Store.Keys.Tables.{IsI64}
use unity_catalog.Store.Log.Memory
use unity_catalog.Store.Protocol.Advance.{put_if_absent-cases, put-IsSorted}
use unity_catalog.Store.Delta.{DeltaLog, append, append_put, read}
use unity_catalog.Store.Delta.Listing.{versions_in}
use unity_catalog.Store.Protocol.{Outcome}
use unity_catalog.Repos.Delta.{CommitText, answer, insert_text, insert, list_for_table}
use unity_catalog.Repos.Delta.Rows.{rows_at-all}
use unity_catalog.Repos.Delta.Listed.{list_for_table_eq, own_read, given_after, listed_after}

module _ {Value : Type 0} (platform : Platform Value) where
  append_taken :
      (table_id : Uuid) (version : ℤ) (body there : Text) (d : DeltaLog)
      → read platform table_id version d ≡ some there
      → append platform table_id version body d ≡ (d, err commit_version_conflict)
  unfolding append append_put read
  append_taken table_id version body there d h =
      elim (put_if_absent-cases (delta_commit_key platform table_id version) body d.log) [
        | inl (found, g, e) ↦ rw e refl
        | inr (absent, e) ↦ absurd (ground arith)
      ]

  append_new :
      (table_id : Uuid) (version : ℤ) (body : Text) (d : DeltaLog)
      → read platform table_id version d ≡ none
      → ((append platform table_id version body d).1 ≡ ok tt)
        × ((append platform table_id version body d).0.log
            ≡ Memory.put (delta_commit_key platform table_id version) body d.log)
  unfolding append append_put read
  append_new table_id version body d h =
      elim (put_if_absent-cases (delta_commit_key platform table_id version) body d.log) [
        | inl (found, g, e) ↦ absurd (ground arith)
        | inr (absent, e) ↦ rw e (refl, refl)
      ]

module _ {Value : Type 0} (platform : Platform Value) (text : CommitText) where
  insert_eq :
      (row : DeltaCommitRow) (body : Text) (d : DeltaLog)
      → text.to_vec row ≡ some body
      → insert platform text row d ≡ (
        (append platform row.table_id row.commit_version body d).0,
        answer platform text row (append platform row.table_id row.commit_version body d).1,
      )
  unfolding insert insert_text
  insert_eq row body d p = rw p refl

  -- In a log whose keys are in order and whose commits of the table can be listed, the commit of an i64
  -- version that nobody has claimed, if it can be written, is stored, and the listing of the table then
  -- gives the rows that it gave before and this one, and no others. A second commit of that version of
  -- that table straight after, if it can be written, is refused as a version conflict and leaves the whole
  -- state as it is.
  pub insert-once :
      (row later : DeltaCommitRow) (body other : Text) (d : DeltaLog) (rows : List DeltaCommitRow)
      → BTreeMap.IsSorted d.log
      → IsI64 row.commit_version
      → text.to_vec row ≡ some body
      → text.to_vec later ≡ some other
      → read platform row.table_id row.commit_version d ≡ none
      → list_for_table platform text row.table_id none none d ≡ ok rows
      → later.table_id ≡ row.table_id
      → later.commit_version ≡ row.commit_version
      → ((insert platform text row d).1 ≡ ok row)
        × ((now : List DeltaCommitRow) × (list_for_table platform text row.table_id none none
                (insert platform text row d).0
              ≡ ok now)
            × Has row now
            × All (λ r. Has r now) rows
            × All (λ r. (r ≡ row) ⊎ Has r rows) now)
        × (insert platform text later (insert platform text row d).0
            ≡ ((insert platform text row d).0, err commit_version_conflict))
  insert-once row later body other d rows s fits p p' absent listed same_table same_version =
      let made = append_new platform row.table_id row.commit_version body d absent in
      let e = (insert platform text row d).0 in
      let log_eq : e.log
          ≡ Memory.put (delta_commit_key platform row.table_id row.commit_version) body d.log =
        ap (λ (x : DeltaLog × Result DeltaCommitRow). x.0.log) (insert_eq row body d p) ∙ made.1 in
      let sorted : BTreeMap.IsSorted e.log =
        subst BTreeMap.IsSorted (sym log_eq) (put-IsSorted _ body d.log s) in
      let read_before = sym (list_for_table_eq platform text row.table_id d s) ∙ listed in
      let (now, n) =
        rows_at-all platform text row.table_id e (versions_in platform row.table_id e.log)
          (given_after platform text row body d e fits p absent log_eq rows read_before) in
      let after =
        listed_after platform text row body d e fits p absent log_eq rows read_before now n in
      let there : read platform later.table_id later.commit_version e ≡ some body =
        ap (λ (t : Uuid). read platform t later.commit_version e) same_table
        ∙ ap (λ (v : ℤ). read platform row.table_id v e) same_version
        ∙ own_read platform text row body d e fits p absent log_eq in
      (
        ap (λ (x : DeltaLog × Result DeltaCommitRow). x.1) (insert_eq row body d p)
            ∙ ap (answer platform text row) made.0,
        (now, list_for_table_eq platform text row.table_id e sorted ∙ n, after.0, after.1, after.2),
        insert_eq later other e p'
            ∙ ap (λ (x : DeltaLog × Outcome). (x.0, answer platform text later x.1))
                (append_taken platform later.table_id later.commit_version other body e there),
      )
