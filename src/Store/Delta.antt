-- ===== src/Store/Delta.antt =====
-- `DeltaLog` of crates/uc-db/src/store/delta_log.rs, over the log in memory, and the operations of
-- crates/uc-db/src/repos/delta.rs. The listings run on one unit of fuel for each object, and one more;
-- where it would not do, the error is `internal`.
pub mod Claims
pub mod Members
pub mod Listing
use unity_catalog.Prelude.{
  ℕ, suc, ℤ, pos, negsuc, Bool, true, false, not, ◌&&◌, Option, none, some, List, [], ◌∷◌, Result,
  ok, err, ErrorCode, internal, commit_version_conflict, ok_or, ◌>>=◌, leb_ℤ, map_option, keep,
  traverse, if◌then◌else◌,
}
use unity_catalog.Prelude.Text.{Text, bytes}
use unity_catalog.Prelude.Order.{nat_ord}
use unity_catalog.Prelude.HashMap
use unity_catalog.Prelude.HashMap.{HashMap}
use unity_catalog.Models.{Uuid, DeltaCommitRow}
use unity_catalog.Store.Platform.{Platform}
use unity_catalog.Store.Keys.{partition_prefix, delta_commit_key, delta_version_from_key}
use unity_catalog.Store.Log.Memory
use unity_catalog.Store.Log.Memory.{MemoryLog, PutResult}
use unity_catalog.Store.Log.Listing.{list_all_in_range, list_all_after}
use unity_catalog.Store.Protocol.{Outcome}

pub record DeltaLog : Type 0 where
  pub log : MemoryLog
  pub latest_hint : HashMap Uuid ℤ

-- `serde_json::Value` of a commit: its parser and printer, the members of an object, `==`, the
-- assignment of a member (`doc[key] = value`) and `Value::Bool`
pub record Documents : Type 1 where
  pub Doc : Type 0
  pub from_slice : Text → Option Doc
  pub to_vec : Doc → Option Text
  pub get : Text → Doc → Option Doc
  pub equal : Option Doc → Option Doc → Bool
  pub set : Text → Doc → Doc → Doc
  pub of_bool : Bool → Doc

abbrev pub max_ℤ : ℤ → ℤ → ℤ
max_ℤ a b = if leb_ℤ a b then b else a

-- `let entry = hint.entry(table_id).or_insert(v); *entry = (*entry).max(v)`
unfoldable pub raise_hint : Uuid → ℤ → HashMap Uuid ℤ → HashMap Uuid ℤ
raise_hint table_id v hint = elim (HashMap.get table_id hint) [
  | none ↦ HashMap.insert table_id v hint
  | some entry ↦ HashMap.insert table_id (max_ℤ entry v) hint
]

-- `sort_unstable`, by insertion
unfoldable pub insert_version : ℤ → List ℤ → List ℤ
insert_version v [] = v ∷ []
insert_version v (w ∷ ws) =
    let rest = insert_version v ws in if leb_ℤ v w then v ∷ w ∷ ws else w ∷ rest

unfoldable pub sort_versions : List ℤ → List ℤ
unfolding insert_version
sort_versions [] = []
sort_versions (v ∷ vs) = insert_version v (sort_versions vs)

-- `filter_map(|k| version_from_key(k))`
unfoldable pub versions_of : List Text → List ℤ
versions_of [] = []
versions_of (key ∷ keys) =
    let rest = versions_of keys in
    elim (delta_version_from_key key) [ none ↦ rest | some version ↦ version ∷ rest ]

-- `max()`
unfoldable pub greatest : List ℤ → Option ℤ
greatest [] = none
greatest (v ∷ vs) = elim (greatest vs) [ none ↦ some v | some best ↦ some (max_ℤ v best) ]

-- `v - 1`
abbrev pub before : ℤ → ℤ
before (pos (suc n)) = pos n
before (pos _) = negsuc 0
before (negsuc n) = negsuc (suc n)

abbrev pub at_most : Option ℤ → ℤ → Bool
at_most none v = true
at_most (some e) v = leb_ℤ v e

abbrev pub listed : Option (Result (List Text)) → Result (List Text)
listed none = err internal
listed (some keys) = keys

-- `match (hint, beyond)`
abbrev pub latest_of : Option ℤ → Option ℤ → Option ℤ
latest_of hint (some v) = some v
latest_of (some v) none = some v
latest_of none none = none

module _ {Value : Type 0} (platform : Platform Value) where
  unfoldable pub append_put : Uuid → ℤ → MemoryLog × PutResult → DeltaLog → DeltaLog × Outcome
  unfolding raise_hint
  append_put table_id version (o, PutResult.created) d =
      (record { log = o; latest_hint = raise_hint table_id version d.latest_hint }, ok tt)
  append_put table_id version (o, PutResult.already_exists) d =
      (record d { log = o }, err commit_version_conflict)

  unfoldable pub append : Uuid → ℤ → Text → DeltaLog → DeltaLog × Outcome
  unfolding append_put
  append table_id version body d =
      append_put table_id version
        (Memory.put_if_absent (delta_commit_key platform table_id version) body d.log) d

  -- where the listing of `versions` starts
  unfoldable pub start_of : Uuid → Option ℤ → Text
  start_of table_id none = partition_prefix platform table_id
  start_of table_id (some v) =
      if leb_ℤ v (pos 0)
      then partition_prefix platform table_id
      else delta_commit_key platform table_id (before v)

  unfoldable pub versions : Uuid → (starting ending : Option ℤ) → DeltaLog → Result (List ℤ)
  unfolding start_of versions_of sort_versions
  versions table_id starting ending d =
      listed (
        list_all_in_range (suc (Memory.len d.log))
          (λ prefix cursor. ok (Memory.list_after prefix cursor d.log))
          (partition_prefix platform table_id) (start_of table_id starting)
          (map_option (delta_commit_key platform table_id) ending))
      >>= λ keys. ok (sort_versions (keep (at_most ending) (versions_of keys)))

  unfoldable pub read : Uuid → ℤ → DeltaLog → Option Text
  read table_id version d = Memory.get (delta_commit_key platform table_id version) d.log

  unfoldable pub raise_latest : Uuid → Option ℤ → DeltaLog → DeltaLog
  unfolding raise_hint
  raise_latest table_id none d = d
  raise_latest table_id (some v) d = record d { latest_hint = raise_hint table_id v d.latest_hint }

  unfoldable pub latest_version : Uuid → DeltaLog → DeltaLog × Result (Option ℤ)
  unfolding versions_of greatest raise_latest
  latest_version table_id d =
      let hint = HashMap.get table_id d.latest_hint in
      let after : Text = elim hint [
        | none ↦ partition_prefix platform table_id
        | some v ↦ delta_commit_key platform table_id v
      ] in
      elim (listed (
        list_all_after (suc (Memory.len d.log))
          (λ prefix cursor. ok (Memory.list_after prefix cursor d.log))
          (partition_prefix platform table_id) after)) [
            | err code ↦ (d, err code)
            | ok keys ↦
                let latest = latest_of hint (greatest (versions_of keys)) in
                (raise_latest table_id latest d, ok latest)
          ]

  module _ (docs : Documents) where
    -- the members that the object key is made of are untouched
    unfoldable pub same_identity : docs.Doc → docs.Doc → Bool
    same_identity a b =
        docs.equal (docs.get (bytes "table_id") a) (docs.get (bytes "table_id") b)
        && docs.equal (docs.get (bytes "commit_version") a) (docs.get (bytes "commit_version") b)

    -- the object to put, or the error
    unfoldable pub edited : (edit : docs.Doc → docs.Doc) → Text → Result Text
    unfolding same_identity
    edited edit body = ok_or internal (docs.from_slice body) >>= λ doc.
        if same_identity doc (edit doc)
        then ok_or internal (docs.to_vec (edit doc))
        else err internal

    unfoldable pub put_edited : Text → Result Text → DeltaLog → DeltaLog × Outcome
    put_edited key (err code) d = (d, err code)
    put_edited key (ok body) d = (record d { log = Memory.put key body d.log }, ok tt)

    -- A commit that is not there is no error.
    unfoldable pub edit_found :
        Text → (edit : docs.Doc → docs.Doc) → Option Text → DeltaLog → DeltaLog × Outcome
    unfolding edited put_edited
    edit_found key edit none d = (d, ok tt)
    edit_found key edit (some body) d = put_edited key (edited edit body) d

    unfoldable pub mutate_commit :
        Uuid → ℤ → (edit : docs.Doc → docs.Doc) → DeltaLog → DeltaLog × Outcome
    unfolding edit_found
    mutate_commit table_id version edit d =
        let key = delta_commit_key platform table_id version in
        edit_found key edit (Memory.get key d.log) d
