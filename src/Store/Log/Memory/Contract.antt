-- ===== src/Store/Log/Memory/Contract.antt =====
-- The contract of `ObjectLog` that the log protocol relies on.
use unity_catalog.Prelude.{
  Bool, none, some, List, [], ◌∷◌, ◌≡◌, refl, inl, inr, arith, Option-cases, Bool-cases, is_some,
  keep, ℕ, suc, ◌≤◌, ◌<◌, length, take, ok, sym, ap, ◌∙◌, if◌then◌else◌,
}
use unity_catalog.Prelude.Text.{Text, starts_with}
use unity_catalog.Prelude.Order.{eqb, eqb→eq, eqb_refl, less, bytes_ord}
use unity_catalog.Prelude.BTreeMap
use unity_catalog.Store.Log.Listing.{within, list_all_after}
use unity_catalog.Store.Log.Listing.Sorted.{IsSorted, IsAbove}
use unity_catalog.Store.Log.Listing.Complete.{IsPaging, list_all_in_range_complete}
use unity_catalog.Store.Log.Memory.{MemoryLog, PutResult, put_if_absent, get, list_after}

-- A conditional put reports `already_exists` exactly when its key is taken. Afterwards the key holds what
-- it held, or the new object if it held nothing, and every other key holds what it held, also when the log
-- was empty.
pub put_if_absent_kept :
    (key body other : Text) (o : MemoryLog)
    → ((put_if_absent key body o).1
        ≡ (if is_some (get key o) then PutResult.already_exists else PutResult.created))
      × (get key (put_if_absent key body o).0
          ≡ (if is_some (get key o) then get key o else some body))
      × (get other (put_if_absent key body o).0
          ≡ (if eqb key other then get key (put_if_absent key body o).0 else get other o))
unfolding put_if_absent get
put_if_absent_kept key body other o = elim (Option-cases (BTreeMap.get key o)) [
  | inl absent ↦ (
    ground arith,
    ground (arith, BTreeMap.get-insert key key body o, eqb_refl key),
    ground (
      arith,
      BTreeMap.get-insert key other body o,
      BTreeMap.get-insert key key body o,
      eqb_refl key,
    ),
  )
  | inr (there, e) ↦ (
    ground arith,
    ground arith,
    elim (Bool-cases (eqb key other)) [
      | inl same ↦ ground (arith, eqb→eq key other)
      | inr apart ↦ ground arith
    ],
  )
]

-- the keys of the log under a prefix, in the order of the map
unfoldable pub keys_under : Text → MemoryLog → List Text
keys_under prefix [] = []
keys_under prefix ((key, _) ∷ o) =
    let rest = keys_under prefix o in if starts_with prefix key then key ∷ rest else rest

list_after-eq :
    (prefix start : Text) (o : MemoryLog)
    → list_after prefix start o ≡ keep (less start) (keys_under prefix o)
unfolding list_after keys_under
list_after-eq prefix start [] = refl
list_after-eq prefix start ((key, v) ∷ o) = ground (arith, list_after-eq prefix start o)

take_all : (keys : List Text) → take (suc (length keys)) keys ≡ keys
take_all [] = refl
take_all (k ∷ keys) = ap (λ (rest : List Text). k ∷ rest) (take_all keys)

-- The log in memory lists in pages, each of which is the whole rest.
pub list_after-IsPaging :
    (prefix : Text) (o : MemoryLog)
    → IsPaging (λ p cursor. ok (list_after p cursor o)) prefix (keys_under prefix o)
list_after-IsPaging prefix o cursor = (
  length (keep (less cursor) (keys_under prefix o)),
  ap ok (list_after-eq prefix cursor o ∙ sym (take_all (keep (less cursor) (keys_under prefix o)))),
)

IsAbove-keys_under :
    (prefix key : Text) (o : MemoryLog) → BTreeMap.IsAbove key o → IsAbove key (keys_under prefix o)
unfolding keys_under
IsAbove-keys_under prefix key [] s = tt
IsAbove-keys_under prefix key ((k, v) ∷ o) s = ground (arith, IsAbove-keys_under prefix key o s.1)

pub keys_under-IsSorted :
    (prefix : Text) (o : MemoryLog) → BTreeMap.IsSorted o → IsSorted (keys_under prefix o)
unfolding keys_under
keys_under-IsSorted prefix [] s = tt
keys_under-IsSorted prefix ((k, v) ∷ o) s =
    ground (arith, keys_under-IsSorted prefix o s.1, IsAbove-keys_under prefix k o s.0)

pub length-keep : (p : Text → Bool) (keys : List Text) → length (keep p keys) ≤ length keys
length-keep p [] = omega arith
length-keep p (k ∷ keys) = ground (arith, length-keep p keys)

-- Listing a log in memory to its end gives every key under the prefix after the start, in order.
pub list_all_after_memory :
    (fuel : ℕ) (prefix start : Text) (o : MemoryLog)
    → BTreeMap.IsSorted o
    → length (keys_under prefix o) < fuel
    → list_all_after fuel (λ p cursor. ok (list_after p cursor o)) prefix start
      ≡ some (ok (keep (less start) (keys_under prefix o)))
unfolding list_all_after
list_all_after_memory fuel prefix start o s enough =
    list_all_in_range_complete (λ p cursor. ok (list_after p cursor o)) prefix none
      (keys_under prefix o) (keys_under-IsSorted prefix o s) (list_after-IsPaging prefix o) fuel
      start (omega (arith, length-keep (less start) (keys_under prefix o)))
    ∙ ap (λ (xs : List Text). some (ok xs))
        (keep_everything (keep (less start) (keys_under prefix o)))
  where
    keep_everything : (keys : List Text) → keep (within none) keys ≡ keys
    keep_everything [] = refl
    keep_everything (k ∷ keys) = ap (λ (rest : List Text). k ∷ rest) (keep_everything keys)
