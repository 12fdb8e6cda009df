-- ===== src/Store/Snapshot/Lookup.antt =====
-- What `place` and `displace` do to each read of a snapshot.
use unity_catalog.Prelude.{
  Bool, true, false, ◌&&◌, Option, none, some, ◌≡◌, refl, ap, ◌∙◌, arith, if◌then◌else◌,
}
use unity_catalog.Prelude.Text.{Text}
use unity_catalog.Prelude.Order.{eqb, eqb→eq, eqb_refl, bytes_ord, pair_ord, nat_ord}
use unity_catalog.Prelude.HashMap
use unity_catalog.Prelude.BTreeMap
use unity_catalog.Models.{Uuid}
use unity_catalog.Store.Kind.{EntityKind, kind_ord}
use unity_catalog.Store.Platform.{Platform}
use unity_catalog.Store.Row.{Row}
use unity_catalog.Store.NaturalKey.{natural_key_for}
use unity_catalog.Store.Snapshot.{
  Snapshot, get, rows_of, place, displace, id_by_natural_key, Index, index_row, unindex_key,
  unindex_row,
}

abbrev pub same : EntityKind → Uuid → EntityKind → Uuid → Bool
same k id k' id' = eqb k k' && eqb id id'

module _ (s : Snapshot) (k : EntityKind) where
  get-rows_of : (id : Uuid) → get s k id ≡ HashMap.get id (rows_of s k)
  unfolding get rows_of
  get-rows_of id = ground (arith, HashMap.get-nil {V = Row} id)

-- Is this the index entry of kind `k` that `own` names?
abbrev pub is_key : EntityKind → Option Text → EntityKind → Text → Bool
is_key k none k' key = false
is_key k (some own) k' key = eqb {K = EntityKind × Text} (k, own) (k', key)

pub eq_of_is_key :
    (k : EntityKind) (own : Option Text) (k' : EntityKind) (key : Text)
    → is_key k own k' key ≡ true
    → (k ≡ k') × (own ≡ some key)
eq_of_is_key k none k' key h = cc
eq_of_is_key k (some own) k' key h =
    let e = eqb→eq {K = EntityKind × Text} (k, own) (k', key) h in
    (ap (λ (p : EntityKind × Text). p.0) e, ap (λ (p : EntityKind × Text). some p.1) e)

pub is_key_self : (k : EntityKind) (key : Text) → is_key k (some key) k key ≡ true
is_key_self k key = eqb_refl {K = EntityKind × Text} (k, key)

pub eq_of_same :
    (k : EntityKind) (id : Uuid) (k' : EntityKind) (id' : Uuid)
    → same k id k' id' ≡ true
    → (k ≡ k') × (id ≡ id')
eq_of_same k id k' id' h = ground (arith, eqb→eq k k', eqb→eq id id')

pub same_self : (k : EntityKind) (id : Uuid) → same k id k id ≡ true
same_self k id = ground (arith, eqb_refl k, eqb_refl id)

module _ (k : EntityKind) (k' : EntityKind) (key : Text) (index : Index) where
  get-index_row :
      (id : Uuid) (own : Option Text)
      → BTreeMap.get (k', key) (index_row k id own index)
        ≡ (if is_key k own k' key then some id else BTreeMap.get (k', key) index)
  unfolding index_row
  get-index_row id none = refl
  get-index_row id (some own) = BTreeMap.get-insert (k, own) (k', key) id index

  get-unindex_key :
      (own : Option Text)
      → BTreeMap.get (k', key) (unindex_key k own index)
        ≡ (if is_key k own k' key then none else BTreeMap.get (k', key) index)
  unfolding unindex_key
  get-unindex_key none = refl
  get-unindex_key (some own) = BTreeMap.get-remove (k, own) (k', key) index

module _ {Value : Type 0} (platform : Platform Value) where
  abbrev pub key_of : Option Row → Option Text
  key_of none = none
  key_of (some prev) = natural_key_for platform prev

module _ {Value : Type 0} (platform : Platform Value) (s : Snapshot) (k : EntityKind)
    (id : Uuid) where
  pub get-place :
      (row : Row) (k' : EntityKind) (id' : Uuid)
      → get (place platform s k id row) k' id'
        ≡ (if same k id k' id' then some row else get s k' id')
  unfolding get place
  get-place row k' id' = ground (
    arith,
    HashMap.get-insert k k' (HashMap.insert id row (rows_of s k)) s.entities,
    HashMap.get-insert id id' row (rows_of s k),
    eqb→eq k k',
    get-rows_of s k id',
  )

  pub get-displace :
      (k' : EntityKind) (id' : Uuid)
      → get (displace platform s k id) k' id' ≡ (if same k id k' id' then none else get s k' id')
  unfolding get displace
  get-displace k' id' = ground (
    arith,
    HashMap.get-insert k k' (HashMap.remove id (rows_of s k)) s.entities,
    HashMap.get-remove id id' (rows_of s k),
    eqb→eq k k',
    get-rows_of s k id',
  )

  -- the key under which the index held the row that an action replaces
  abbrev pub old_key : Option Text
  old_key = key_of platform (get s k id)

  get-unindex_row :
      (prev : Option Row) (k' : EntityKind) (key : Text)
      → BTreeMap.get (k', key) (unindex_row platform k prev s.by_natural_key) ≡ (
          if is_key k (key_of platform prev) k' key
          then none
          else BTreeMap.get (k', key) s.by_natural_key)
  unfolding unindex_row
  get-unindex_row none k' key = refl
  get-unindex_row (some prev) k' key =
      get-unindex_key k k' key s.by_natural_key (natural_key_for platform prev)

  pub id_by_natural_key-displace :
      (k' : EntityKind) (key : Text)
      → id_by_natural_key (displace platform s k id) k' key
        ≡ (if is_key k old_key k' key then none else id_by_natural_key s k' key)
  unfolding displace id_by_natural_key
  id_by_natural_key-displace k' key = get-unindex_row (get s k id) k' key

  pub id_by_natural_key-place :
      (row : Row) (k' : EntityKind) (key : Text)
      → id_by_natural_key (place platform s k id row) k' key ≡ (
          if is_key k (natural_key_for platform row) k' key
          then some id
          else if is_key k old_key k' key
          then none
          else id_by_natural_key s k' key)
  unfolding place id_by_natural_key
  id_by_natural_key-place row k' key =
      get-index_row k k' key (unindex_row platform k (get s k id) s.by_natural_key) id
        (natural_key_for platform row)
      ∙ ap
          (λ (o : Option Uuid).
            if is_key k (natural_key_for platform row) k' key then some id else o)
          (get-unindex_row (get s k id) k' key)
