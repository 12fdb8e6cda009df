-- ===== src/Store/Delta/Listing.antt =====
-- What `versions` of crates/uc-db/src/store/delta_log.rs lists when it is given no bounds.
use unity_catalog.Prelude.{
  suc, ◌≤◌, ℤ, true, Option, none, some, List, [], ◌∷◌, ◌++◌, length, keep, is_some, Result, ok,
  ◌≡◌, refl, ap, arith, ◌>>=◌,
}
use unity_catalog.Prelude.Text.{Text, bytes, starts_with, starts_with-append}
use unity_catalog.Prelude.Order.{less, bytes_ord}
use unity_catalog.Prelude.BTreeMap
use unity_catalog.Prelude.Sort.{Has}
use unity_catalog.Prelude.Keep.{Has-keep, Has-keep_of}
use unity_catalog.Prelude.Decimal.{padded_ℤ}
use unity_catalog.Models.{Uuid}
use unity_catalog.Store.Platform.{Platform}
use unity_catalog.Store.Keys.{partition_prefix, delta_commit_key, delta_version_from_key}
use unity_catalog.Store.Keys.Tables.{IsI64, delta_version_from_key-delta_commit_key}
use unity_catalog.Store.Log.Memory
use unity_catalog.Store.Log.Memory.{MemoryLog}
use unity_catalog.Store.Log.Memory.Contract.{
  keys_under, list_after-IsPaging, keys_under-IsSorted, length-keep,
}
use unity_catalog.Store.Log.Listing.{within}
use unity_catalog.Store.Log.Listing.Complete.{list_all_in_range_complete}
use unity_catalog.Store.Delta.{
  DeltaLog, versions, start_of, versions_of, sort_versions, at_most, listed, read,
}
use unity_catalog.Store.Delta.Members.{
  Has-sort_versions, Has-sort_versions_back, Has-versions_of, Names-of_version, Has-keys_under,
  keys_under-Has, less-append,
}

length-keys_under : (prefix : Text) (o : MemoryLog) → length (keys_under prefix o) ≤ length o
unfolding keys_under
length-keys_under prefix [] = omega arith
length-keys_under prefix ((k, b) ∷ o) = ground (arith, length-keys_under prefix o)

less-append_end : (p a : Text) → less p (p ++ (a ++ bytes ".json")) ≡ true
less-append_end p [] = less-append p b'.' (bytes "json")
less-append_end p (c ∷ a) = less-append p c (a ++ bytes ".json")

module _ {Value : Type 0} (platform : Platform Value) (table_id : Uuid) where
  abbrev prefix : Text
  prefix = partition_prefix platform table_id

  -- the keys that a listing without bounds gives
  abbrev keys_of : MemoryLog → List Text
  keys_of o = keep (within none) (keep (less prefix) (keys_under prefix o))

  -- an object under the table's prefix whose key names the version
  abbrev pub IsCommit : MemoryLog → ℤ → Type 0
  IsCommit o v =
      (key : Text) × (is_some (Memory.get key o) ≡ true)
      × (starts_with prefix key ≡ true)
      × (less prefix key ≡ true)
      × (delta_version_from_key key ≡ some v)

  abbrev pub versions_in : MemoryLog → List ℤ
  versions_in o = sort_versions (keep (at_most none) (versions_of (keys_of o)))

  pub versions_eq :
      (d : DeltaLog)
      → BTreeMap.IsSorted d.log
      → versions platform table_id none none d ≡ ok (versions_in d.log)
  unfolding versions start_of Memory.len
  versions_eq d s =
      ap
        (λ (r : Option (Result (List Text))). listed r >>= λ (keys : List Text).
          ok (sort_versions (keep (at_most none) (versions_of keys))))
        (list_all_in_range_complete (λ p cursor. ok (Memory.list_after p cursor d.log)) prefix none
          (keys_under prefix d.log) (keys_under-IsSorted prefix d.log s)
          (list_after-IsPaging prefix d.log) (suc (length d.log)) prefix
          (omega (
            arith,
            length-keep (less prefix) (keys_under prefix d.log),
            length-keys_under prefix d.log,
          )))

  pub Has-versions_in : (o : MemoryLog) (v : ℤ) → IsCommit o v → Has v (versions_in o)
  unfolding Memory.get
  Has-versions_in o v (key, there, under, above, named) =
      Has-sort_versions v (keep (at_most none) (versions_of (keys_of o))) (
        Has-keep_of (at_most none) v (versions_of (keys_of o))
          (Has-versions_of v (keys_of o) (
            key,
            Has-keep_of (within none) key (keep (less prefix) (keys_under prefix o))
                (Has-keep_of (less prefix) key (keys_under prefix o)
                  (Has-keys_under prefix key o there under) above)
                refl,
            named,
          ))
          refl)

  pub IsCommit-of_version : (o : MemoryLog) (v : ℤ) → Has v (versions_in o) → IsCommit o v
  unfolding Memory.get
  IsCommit-of_version o v h =
      let kept = Has-sort_versions_back v (keep (at_most none) (versions_of (keys_of o))) h in
      let (key, i, named) =
        Names-of_version v (keys_of o)
          (Has-keep (at_most none) v (versions_of (keys_of o)) kept).0 in
      let inside = (Has-keep (within none) key (keep (less prefix) (keys_under prefix o)) i).0 in
      let (j, above) = Has-keep (less prefix) key (keys_under prefix o) inside in
      let (there, under) = keys_under-Has prefix key o j in (key, there, under, above, named)

  -- A version of a table that can be read is a commit of it.
  pub IsCommit-of_read :
      (d : DeltaLog) (v : ℤ) (body : Text)
      → IsI64 v
      → read platform table_id v d ≡ some body
      → IsCommit d.log v
  unfolding read delta_commit_key
  IsCommit-of_read d v body fits r = (
    delta_commit_key platform table_id v,
    ap is_some r,
    starts_with-append prefix (padded_ℤ 20 v ++ bytes ".json"),
    less-append_end prefix (padded_ℤ 20 v),
    delta_version_from_key-delta_commit_key platform table_id v fits,
  )
