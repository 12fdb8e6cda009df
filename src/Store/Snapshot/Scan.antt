-- ===== src/Store/Snapshot/Scan.antt =====
-- The reads of `Snapshot` that go over the index or over the rows of a kind.
use unity_catalog.Prelude.{
  ℕ, Bool, true, ◌&&◌, Option, none, some, List, [], ◌∷◌, ◌++◌, length, take, drop, map,
  if◌then◌else◌,
}
use unity_catalog.Prelude.Text.{Text, starts_with}
use unity_catalog.Prelude.Order.{eqb, less, bytes_ord, pair_ord, nat_ord}
use unity_catalog.Prelude.HashMap
use unity_catalog.Prelude.BTreeMap
use unity_catalog.Prelude.BTreeMap.Segment.{keep_keys}
use unity_catalog.Models.{Uuid}
use unity_catalog.Store.Kind.{EntityKind, kind_ord}
use unity_catalog.Store.Row.{Row}
use unity_catalog.Store.Snapshot.{Snapshot, Index, get}

abbrev pub or_empty : Option Text → Text
or_empty none = []
or_empty (some a) = a

-- `after.is_none_or(|a| name > a)`
abbrev pub is_after : Option Text → Text → Bool
is_after none name = true
is_after (some a) name = less a name

-- `.filter_map(|(_, id)| self.get(kind, *id))`
unfoldable pub rows_at : Snapshot → EntityKind → Index → List Row
rows_at s kind [] = []
rows_at s kind ((key, id) ∷ index) =
    let rest = rows_at s kind index in elim (get s kind id) [ none ↦ rest | some row ↦ row ∷ rest ]

abbrev pub of_kind : EntityKind → EntityKind × Text → Bool
of_kind kind key = eqb key.0 kind

unfoldable pub scan : Snapshot → EntityKind → Option Text → ℕ → List Row
scan s kind after limit = take limit (
    rows_at s kind (
      keep_keys (λ key. is_after after key.1)
        (BTreeMap.take_while (of_kind kind)
          (BTreeMap.range (kind, or_empty after) s.by_natural_key))))

-- `*k == kind && nk.starts_with(prefix)`
abbrev pub is_under : EntityKind → Text → EntityKind × Text → Bool
is_under kind prefix key = eqb key.0 kind && starts_with prefix key.1

-- `&nk[prefix.len()..] > a`
abbrev pub is_after_in : Text → Option Text → EntityKind × Text → Bool
is_after_in prefix after key = is_after after (drop (length prefix) key.1)

unfoldable pub scan_prefix : Snapshot → EntityKind → Text → Option Text → ℕ → List Row
scan_prefix s kind prefix after limit = take limit (
    rows_at s kind (
      keep_keys (is_after_in prefix after) (
        BTreeMap.take_while (is_under kind prefix)
          (BTreeMap.range (kind, prefix ++ or_empty after) s.by_natural_key))))

unfoldable pub ids_under_prefix : Snapshot → EntityKind → Text → List Uuid
ids_under_prefix s kind prefix =
    map (λ entry. entry.1)
      (BTreeMap.take_while (is_under kind prefix) (BTreeMap.range (kind, prefix) s.by_natural_key))

-- `iter`: the rows of one kind, in the order of the map
unfoldable pub iter : Snapshot → EntityKind → List Row
iter s kind = elim (HashMap.get kind s.entities) [
  | none ↦ []
  | some rows ↦ map (λ entry. entry.1) rows
]

insert_by_id : Uuid × Row → List (Uuid × Row) → List (Uuid × Row)
insert_by_id entry [] = entry ∷ []
insert_by_id entry (e ∷ es) =
    let rest = insert_by_id entry es in if less e.0 entry.0 then e ∷ rest else entry ∷ e ∷ es

sort_by_id : List (Uuid × Row) → List (Uuid × Row)
sort_by_id [] = []
sort_by_id (e ∷ es) = insert_by_id e (sort_by_id es)

-- `iter_by_id`: the rows of one kind with their ids, ordered by id
unfoldable pub iter_by_id : Snapshot → EntityKind → List (Uuid × Row)
unfolding insert_by_id sort_by_id
iter_by_id s kind = elim (HashMap.get kind s.entities) [ none ↦ [] | some rows ↦ sort_by_id rows ]
