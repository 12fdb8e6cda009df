-- ===== src/Store/Snapshot.antt =====
-- `Snapshot` of crates/uc-db/src/store/mod.rs: the materialised state and its natural-key index.
pub mod Lookup
pub mod Coherent
pub mod Unique
pub mod Found
pub mod Same
pub mod Scan
pub mod Prefix
use unity_catalog.Prelude.{ℕ, Option, none, some, List, [], Result, ok, ◌>>=◌}
use unity_catalog.Prelude.Text.{Text}
use unity_catalog.Prelude.Order.{bytes_ord, pair_ord, nat_ord}
use unity_catalog.Prelude.HashMap
use unity_catalog.Prelude.HashMap.{HashMap}
use unity_catalog.Prelude.BTreeMap
use unity_catalog.Prelude.BTreeMap.{BTreeMap}
use unity_catalog.Models.{Uuid}
use unity_catalog.Store.Kind.{EntityKind, kind_ord}
use unity_catalog.Store.Platform.{Platform}
use unity_catalog.Store.Row.{Row, from_body}
use unity_catalog.Store.NaturalKey.{natural_key_for}
use unity_catalog.Store.Action.{Action}

abbrev pub Index : Type 0
Index = BTreeMap (EntityKind × Text) Uuid

pub record Snapshot : Type 0 where
  pub version : ℕ
  pub entities : HashMap EntityKind (HashMap Uuid Row)
  pub by_natural_key : Index

-- `Snapshot::default()`
abbrev pub empty : Snapshot
empty = record { version = 0; entities = []; by_natural_key = [] }

-- `self.entities.get(&kind)?.get(&id)`
unfoldable pub get : Snapshot → EntityKind → Uuid → Option Row
get s kind id = elim (HashMap.get kind s.entities) [ none ↦ none | some rows ↦ HashMap.get id rows ]

unfoldable pub id_by_natural_key : Snapshot → EntityKind → Text → Option Uuid
id_by_natural_key s kind key = BTreeMap.get (kind, key) s.by_natural_key

unfoldable pub get_by_natural_key : Snapshot → EntityKind → Text → Option Row
get_by_natural_key s kind key = elim (BTreeMap.get (kind, key) s.by_natural_key) [
  | none ↦ none
  | some id ↦ get s kind id
]

-- `entry(kind).or_default()`
rows_of : Snapshot → EntityKind → HashMap Uuid Row
rows_of s kind = elim (HashMap.get kind s.entities) [ none ↦ [] | some rows ↦ rows ]

-- `if let Some(nk) = natural_key_for(&row) { index.insert((kind, nk), id) }`
index_row : EntityKind → Uuid → Option Text → Index → Index
index_row kind id none index = index
index_row kind id (some key) index = BTreeMap.insert (kind, key) id index

-- `if let Some(nk) = natural_key_for(&prev) { index.remove(&(kind, nk)) }`
unindex_key : EntityKind → Option Text → Index → Index
unindex_key kind none index = index
unindex_key kind (some key) index = BTreeMap.remove (kind, key) index

module _ {Value : Type 0} (platform : Platform Value) where
  unindex_row : EntityKind → Option Row → Index → Index
  unindex_row kind none index = index
  unindex_row kind (some prev) index = unindex_key kind (natural_key_for platform prev) index

  -- The writes of an upsert, once its body is read.
  unfoldable pub place : Snapshot → EntityKind → Uuid → Row → Snapshot
  unfolding rows_of index_row unindex_row unindex_key
  place s kind id row = record s {
    entities = HashMap.insert kind (HashMap.insert id row (rows_of s kind)) s.entities;
    by_natural_key =
        index_row kind id (natural_key_for platform row)
          (unindex_row kind (get s kind id) s.by_natural_key);
  }

  unfoldable pub displace : Snapshot → EntityKind → Uuid → Snapshot
  unfolding rows_of unindex_row unindex_key
  displace s kind id = record s {
    entities = HashMap.insert kind (HashMap.remove id (rows_of s kind)) s.entities;
    by_natural_key = unindex_row kind (get s kind id) s.by_natural_key;
  }

  -- `Snapshot::apply`
  unfoldable pub apply : Snapshot → Action Value → Result Snapshot
  unfolding place displace
  apply s (Action.upsert kind id body) =
      from_body platform kind body >>= λ row. ok (place s kind id row)
  apply s (Action.remove kind id) = ok (displace s kind id)

  -- the loop over the actions of a commit
  unfoldable pub apply_all : Snapshot → List (Action Value) → Result Snapshot
  apply_all s [] = ok s
  apply_all s (List.◌∷◌ act acts) = apply s act >>= λ s'. apply_all s' acts
