-- ===== src/Tests/Delta.antt =====
-- Two commits of one version of a table, and an edit of it.
use unity_catalog.Prelude.{
  List, All, ◌⊎◌, ℕ, zero, ℤ, pos, Bool, true, false, Option, none, some, [], ◌∷◌, length, ok, err,
  commit_version_conflict, is_some, ◌≡◌, refl, ap, arith, if◌then◌else◌,
}
use unity_catalog.Prelude.Text.{Text}
use unity_catalog.Models.{Uuid, DeltaCommitRow}
use unity_catalog.Store.Delta.{DeltaLog, Documents, append, read, mutate_commit}
use unity_catalog.Store.Delta.Claims.{append-claims, mutate_commit-claims}
use unity_catalog.Store.Log.Memory
use unity_catalog.Prelude.BTreeMap
use unity_catalog.Repos.Delta.{CommitText, insert, list_for_table, rows_at}
use unity_catalog.Store.Delta.{versions, start_of, versions_of, sort_versions}
use unity_catalog.Store.Log.Listing.{list_all_in_range, pages}
use unity_catalog.Prelude.Sort.{Has}
use unity_catalog.Repos.Delta.Once.{insert-once}
use unity_catalog.Tests.Instance.{unary}
use unity_catalog.Tests.Json.{numbers, length-unary}

abbrev row_at : ℕ → DeltaCommitRow
row_at n = record {
  id = n;
  table_id = 0;
  commit_version = pos 0;
  commit_filename = [];
  commit_filesize = pos 0;
  commit_file_modification_timestamp = pos 0;
  commit_timestamp = pos 0;
  is_backfilled_latest_commit = false;
}

abbrev text_of : Uuid → Uuid → ℤ → Text → ℤ → ℤ → ℤ → Bool → Option Text
text_of id zero (pos zero) [] (pos zero) (pos zero) (pos zero) false = some (unary id)
text_of _ _ _ _ _ _ _ _ = none

row_of_text :
    (id table_id : Uuid) (version : ℤ) (name : Text) (size modified made : ℤ) (flag : Bool)
    (text : Text)
    → text_of id table_id version name size modified made flag ≡ some text
    → some (row_at (length text))
      ≡ some (record {
        id = id;
        table_id = table_id;
        commit_version = version;
        commit_filename = name;
        commit_filesize = size;
        commit_file_modification_timestamp = modified;
        commit_timestamp = made;
        is_backfilled_latest_commit = flag;
      })
row_of_text id zero (pos zero) [] (pos zero) (pos zero) (pos zero) false text h =
    let q : unary id ≡ text = ground arith in
    rw (← q) (ap (λ (n : ℕ). some (row_at n)) (length-unary id))
row_of_text _ _ _ _ _ _ _ _ _ h = absurd (ground arith)

abbrev text : CommitText
text = record {
  to_vec = λ r.
      text_of r.id r.table_id r.commit_version r.commit_filename r.commit_filesize
        r.commit_file_modification_timestamp r.commit_timestamp r.is_backfilled_latest_commit;
  from_slice = λ s. some (row_at (length s));
  from_slice-to_vec = λ r s h.
      row_of_text r.id r.table_id r.commit_version r.commit_filename r.commit_filesize
        r.commit_file_modification_timestamp r.commit_timestamp r.is_backfilled_latest_commit s h;
}

abbrev nothing : DeltaLog
nothing = record { log = []; latest_hint = [] }

abbrev docs : Documents
docs = record {
  Doc = Text;
  from_slice = λ s. some s;
  to_vec = λ doc. some doc;
  get = λ name doc. none;
  equal = λ a b. true;
  set = λ key value doc. value;
  of_bool = λ b. if b then 116 ∷ [] else 102 ∷ [];
}

append-claims_example :
    ((append numbers 0 (pos 0) (97 ∷ []) nothing).1
      ≡ (if is_some (read numbers 0 (pos 0) nothing) then err commit_version_conflict else ok tt))
    × (read numbers 0 (pos 0) (append numbers 0 (pos 0) (97 ∷ []) nothing).0 ≡ (
        if is_some (read numbers 0 (pos 0) nothing)
        then read numbers 0 (pos 0) nothing
        else some (97 ∷ [])))
    × (read numbers 0 (pos 1) (append numbers 0 (pos 0) (97 ∷ []) nothing).0
        ≡ read numbers 0 (pos 1) nothing)
append-claims_example =
    append-claims numbers 0 (pos 0) (pos 1) (97 ∷ []) nothing (λ e. absurd (ground arith))

abbrev one_commit : DeltaLog
one_commit = (append numbers 0 (pos 0) (97 ∷ []) nothing).0

mutate_commit-claims_example :
    (is_some (
        read numbers 0
          (pos 0)
          (mutate_commit numbers docs 0 (pos 0) (λ doc. 98 ∷ doc) one_commit).0)
      ≡ is_some (read numbers 0 (pos 0) one_commit))
    × (read numbers 0 (pos 1) (mutate_commit numbers docs 0 (pos 0) (λ doc. 98 ∷ doc) one_commit).0
        ≡ read numbers 0 (pos 1) one_commit)
mutate_commit-claims_example =
    mutate_commit-claims numbers docs 0 (pos 0) (pos 1) (λ doc. 98 ∷ doc) one_commit
      (λ e. absurd (ground arith))

unclaimed : read numbers 0 (pos 0) nothing ≡ none
unfolding read Memory.get BTreeMap.get
unclaimed = refl

nothing_listed : list_for_table numbers text 0 none none nothing ≡ ok []
unfolding list_for_table versions start_of versions_of sort_versions rows_at list_all_in_range pages
    Memory.list_after Memory.len
nothing_listed = refl

insert-once_example :
    ((insert numbers text (row_at 3) nothing).1 ≡ ok (row_at 3))
    × ((now : List DeltaCommitRow) × (list_for_table numbers text 0 none none
            (insert numbers text (row_at 3) nothing).0
          ≡ ok now)
        × Has (row_at 3) now
        × All (λ r. Has r now) []
        × All (λ r. (r ≡ row_at 3) ⊎ Has r []) now)
    × (insert numbers text (row_at 4) (insert numbers text (row_at 3) nothing).0
        ≡ ((insert numbers text (row_at 3) nothing).0, err commit_version_conflict))
insert-once_example =
    insert-once numbers text (row_at 3) (row_at 4) (unary 3) (unary 4) nothing [] tt (omega arith)
      refl refl unclaimed nothing_listed refl refl
