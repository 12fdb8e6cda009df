-- ===== src/Repos/Delta/Listed.antt =====
-- `list_for_table` of crates/uc-db/src/repos/delta.rs after one more commit.
use unity_catalog.Prelude.{
  ℤ, none, some, List, [], ◌∷◌, Result, ok, All, ◌≡◌, ◌⊎◌, refl, sym, ap, ◌∙◌, arith, inl, inr,
  is_some, ◌>>=◌, subst, Option-cases, Bool-cases,
}
use unity_catalog.Prelude.Text.{Text}
use unity_catalog.Prelude.Order.{eqb, eqb→eq, eq→eqb, bytes_ord}
use unity_catalog.Prelude.BTreeMap
use unity_catalog.Prelude.Sort.{Has}
use unity_catalog.Models.{Uuid, DeltaCommitRow}
use unity_catalog.Store.Platform.{Platform}
use unity_catalog.Store.Keys.{delta_commit_key, delta_version_from_key}
use unity_catalog.Store.Keys.Tables.{IsI64, delta_version_from_key-delta_commit_key}
use unity_catalog.Store.Log.Memory
use unity_catalog.Store.Protocol.Advance.{get-put_cases, get-put_self, get-put_other}
use unity_catalog.Store.Delta.{DeltaLog, read}
use unity_catalog.Store.Delta.Listing.{
  IsCommit, versions_in, versions_eq, Has-versions_in, IsCommit-of_version, IsCommit-of_read,
}
use unity_catalog.Repos.Delta.{CommitText, rows_at, list_for_table}
use unity_catalog.Repos.Delta.Rows.{Gives, Gives-unique, rows_at-Gives, Has-rows_at, Gives-of_row}

All-of :
    (P : DeltaCommitRow → Type 0) (rows : List DeltaCommitRow)
    → ((row : DeltaCommitRow) → Has row rows → P row)
    → All P rows
All-of P [] f = tt
All-of P (row ∷ rows) f = (f row (inl refl), All-of P rows (λ r i. f r (inr i)))

module _ {Value : Type 0} (platform : Platform Value) (text : CommitText) where
  pub list_for_table_eq :
      (table_id : Uuid) (d : DeltaLog)
      → BTreeMap.IsSorted d.log
      → list_for_table platform text table_id none none d
        ≡ rows_at platform text table_id (versions_in platform table_id d.log) d
  unfolding list_for_table
  list_for_table_eq table_id d s =
      ap (λ (r : Result (List ℤ)). r >>= λ (vs : List ℤ). rows_at platform text table_id vs d)
        (versions_eq platform table_id d s)

  -- one more commit, in a state whose log has it
  module _ (row : DeltaCommitRow) (body : Text) (d e : DeltaLog) (fits : IsI64 row.commit_version)
      (written : text.to_vec row ≡ some body)
      (absent : read platform row.table_id row.commit_version d ≡ none)
      (log_eq : e.log
        ≡ Memory.put (delta_commit_key platform row.table_id row.commit_version) body d.log) where
    pub own_read : read platform row.table_id row.commit_version e ≡ some body
    unfolding read
    own_read = rw log_eq (get-put_self _ body d.log)

    own_row : Gives platform text row.table_id e row.commit_version row
    own_row = (body, own_read, text.from_slice-to_vec row body written)

    kept_row :
        (v : ℤ) (r : DeltaCommitRow)
        → Gives platform text row.table_id d v r
        → Gives platform text row.table_id e v r
    unfolding read
    kept_row v r (there, g, p) = (
      there,
      rw log_eq (
          get-put_other (delta_commit_key platform row.table_id row.commit_version) body
            (delta_commit_key platform row.table_id v) d.log
            (λ same. clash (ap (λ (key : Text). Memory.get key d.log) same))
          ∙ g),
      p,
    )
      where
        clash :
            Memory.get (delta_commit_key platform row.table_id row.commit_version) d.log
              ≡ Memory.get (delta_commit_key platform row.table_id v) d.log
            → ⊥
        clash same = let q : none ≡ some there = sym absent ∙ same ∙ g in absurd (ground arith)

    new_or_old :
        (v : ℤ)
        → IsCommit platform row.table_id e.log v
        → (v ≡ row.commit_version) ⊎ IsCommit platform row.table_id d.log v
    new_or_old v (key, there, under, above, named) = elim (Option-cases (Memory.get key e.log)) [
      | inl missing ↦ absurd (ground (arith, ap is_some missing))
      | inr (found, g) ↦
          elim (get-put_cases (delta_commit_key platform row.table_id row.commit_version) body key
            found d.log (ap (Memory.get key) (sym log_eq) ∙ g)) [
              | inl (same, _) ↦
                  let q : some v ≡ some row.commit_version =
                    sym named
                    ∙ ap delta_version_from_key (sym same)
                    ∙ delta_version_from_key-delta_commit_key platform row.table_id
                        row.commit_version fits in
                  inl (ground arith)
              | inr old ↦ inr (key, ap is_some old, under, above, named)
            ]
    ]

    old-IsCommit :
        (v : ℤ) → IsCommit platform row.table_id d.log v → IsCommit platform row.table_id e.log v
    old-IsCommit v (key, there, under, above, named) = (
      key,
      rw log_eq
          (elim (Bool-cases (eqb (delta_commit_key platform row.table_id row.commit_version) key)) [
            | inl same ↦
                rw (← eqb→eq (delta_commit_key platform row.table_id row.commit_version) key same)
                  (ap is_some (get-put_self _ body d.log))
            | inr apart ↦
                ap is_some (
                  get-put_other (delta_commit_key platform row.table_id row.commit_version) body key
                    d.log (λ q. absurd (ground (arith, eq→eqb _ key q))))
                ∙ there
          ]),
      under,
      above,
      named,
    )

    abbrev before_of : List ℤ
    before_of = versions_in platform row.table_id d.log

    abbrev after_of : List ℤ
    after_of = versions_in platform row.table_id e.log

    module _ (rows : List DeltaCommitRow)
        (read_before : rows_at platform text row.table_id before_of d ≡ ok rows) where
      pub given_after :
          (v : ℤ) → Has v after_of → (r : DeltaCommitRow) × Gives platform text row.table_id e v r
      given_after v i = elim (new_or_old v (IsCommit-of_version platform row.table_id e.log v i)) [
        | inl q ↦ (row, subst (λ (x : ℤ). Gives platform text row.table_id e x row) (sym q) own_row)
        | inr c ↦
            let (r, g, _) =
              rows_at-Gives platform text row.table_id d before_of rows v read_before
                (Has-versions_in platform row.table_id d.log v c) in
            (r, kept_row v r g)
      ]

      -- The listing gives the rows that it gave, and the new one.
      pub listed_after :
          (now : List DeltaCommitRow)
          → rows_at platform text row.table_id after_of e ≡ ok now
          → Has row now × All (λ r. Has r now) rows × All (λ r. (r ≡ row) ⊎ Has r rows) now
      listed_after now n = (
        Has-rows_at platform text row.table_id e after_of now row.commit_version row n
            (Has-versions_in platform row.table_id e.log row.commit_version
              (IsCommit-of_read platform row.table_id e row.commit_version body fits own_read))
            own_row,
        All-of (λ r. Has r now) rows
            (λ r i.
              let (v, j, g) =
                Gives-of_row platform text row.table_id d before_of rows r read_before i in
              Has-rows_at platform text row.table_id e after_of now v r n
                (Has-versions_in platform row.table_id e.log v
                  (old-IsCommit v (IsCommit-of_version platform row.table_id d.log v j)))
                (kept_row v r g)),
        All-of (λ r. (r ≡ row) ⊎ Has r rows) now
            (λ r i.
              let (v, j, g) = Gives-of_row platform text row.table_id e after_of now r n i in
              elim (new_or_old v (IsCommit-of_version platform row.table_id e.log v j)) [
                | inl q ↦ inl (
                    Gives-unique platform text row.table_id e row.commit_version r row
                      (subst (λ (x : ℤ). Gives platform text row.table_id e x r) q g) own_row)
                | inr c ↦
                    let (r', g', k) =
                      rows_at-Gives platform text row.table_id d before_of rows v read_before
                        (Has-versions_in platform row.table_id d.log v c) in
                    inr (
                      subst (λ (x : DeltaCommitRow). Has x rows)
                        (Gives-unique platform text row.table_id e v r' r (kept_row v r' g') g) k)
              ]),
      )
