-- ===== src/Store/Snapshot/Coherent.antt =====
-- The natural-key index and the rows agree, whatever actions are applied.
use unity_catalog.Prelude.{
  true, false, Option, none, some, List, [], ◌∷◌, ok, ◌≡◌, refl, ◌∙◌, inl, inr, Bool-cases, arith,
  >>=-eq-ok,
}
use unity_catalog.Prelude.Text.{Text}
use unity_catalog.Prelude.Order.{bytes_ord, pair_ord, nat_ord}
use unity_catalog.Prelude.HashMap
use unity_catalog.Prelude.BTreeMap
use unity_catalog.Models.{Uuid}
use unity_catalog.Store.Kind.{EntityKind, kind_ord}
use unity_catalog.Store.Platform.{Platform}
use unity_catalog.Store.Row.{Row, kind, from_body}
use unity_catalog.Store.NaturalKey.{natural_key_for}
use unity_catalog.Store.Action.{Action}
use unity_catalog.Store.Snapshot.{
  Snapshot, Index, get, id_by_natural_key, index_row, unindex_key, unindex_row, place, displace,
  apply, apply_all, empty,
}
use unity_catalog.Store.Snapshot.Lookup.{
  get-place, get-displace, id_by_natural_key-place, id_by_natural_key-displace, is_key, key_of,
  same, eq_of_is_key, is_key_self, eq_of_same, same_self,
}

-- What holds of every snapshot that actions have built.
pub record IsCoherent {Value : Type 0} (platform : Platform Value) (s : Snapshot) : Type 0 where
  -- the index is in the order of its keys
  pub sorted : BTreeMap.IsSorted s.by_natural_key
  -- a row stands under its own kind
  pub kinded : (k : EntityKind) (id : Uuid) (r : Row) → get s k id ≡ some r → kind r ≡ k
  -- an entry of the index leads to a row that has the entry's key
  pub sound :
      (k : EntityKind) (key : Text) (id : Uuid)
      → id_by_natural_key s k key ≡ some id
      → (r : Row) × (get s k id ≡ some r) × (natural_key_for platform r ≡ some key)

-- A body that is read gives a row of the kind that was asked for.
pub kind-from_body :
    {Value : Type 0} (platform : Platform Value) (k : EntityKind) (body : Value) (r : Row)
    → from_body platform k body ≡ ok r
    → kind r ≡ k
unfolding from_body kind
kind-from_body platform EntityKind.metastore body r h = ground arith
kind-from_body platform _ body r h = ground arith

module _ {Value : Type 0} (platform : Platform Value) (s : Snapshot) (k : EntityKind) where
  unindex_row-IsSorted :
      (prev : Option Row)
      → BTreeMap.IsSorted s.by_natural_key
      → BTreeMap.IsSorted (unindex_row platform k prev s.by_natural_key)
  unfolding unindex_row
  unindex_row-IsSorted none h = h
  unindex_row-IsSorted (some prev) h = go (natural_key_for platform prev)
    where
      go : (own : Option Text) → BTreeMap.IsSorted (unindex_key k own s.by_natural_key)
      go none = unfold unindex_key in h
      go (some key) = unfold unindex_key in BTreeMap.remove-IsSorted (k, key) s.by_natural_key h

  place-IsSorted :
      (id : Uuid) (row : Row)
      → BTreeMap.IsSorted s.by_natural_key
      → BTreeMap.IsSorted (place platform s k id row).by_natural_key
  unfolding place
  place-IsSorted id row h =
      go (natural_key_for platform row) (unindex_row platform k (get s k id) s.by_natural_key)
        (unindex_row-IsSorted (get s k id) h)
    where
      go :
          (own : Option Text) (index : Index)
          → BTreeMap.IsSorted index
          → BTreeMap.IsSorted (index_row k id own index)
      go none index a = unfold index_row in a
      go (some key) index a = unfold index_row in BTreeMap.insert-IsSorted (k, key) id index a

  displace-IsSorted :
      (id : Uuid)
      → BTreeMap.IsSorted s.by_natural_key
      → BTreeMap.IsSorted (displace platform s k id).by_natural_key
  unfolding displace
  displace-IsSorted id h = unindex_row-IsSorted (get s k id) h

module _ {Value : Type 0} (platform : Platform Value) (s : Snapshot) (k : EntityKind)
    (id : Uuid) where
  -- At the replaced row's own place nothing else is indexed under the key it had.
  old-key-is_key :
      (k' : EntityKind) (id' : Uuid) (r : Row) (key : Text)
      → same k id k' id' ≡ true
      → get s k' id' ≡ some r
      → natural_key_for platform r ≡ some key
      → is_key k (key_of platform (get s k id)) k' key ≡ true
  old-key-is_key k' id' r key h g n =
      let e = eq_of_same k id k' id' h in rw (e.0, e.1, g, n) (is_key_self k' key)

  place_sound :
      IsCoherent platform s
      → (row : Row) (k' : EntityKind) (key : Text) (id' : Uuid)
      → id_by_natural_key (place platform s k id row) k' key ≡ some id'
      → (r : Row) × (get (place platform s k id row) k' id' ≡ some r)
        × (natural_key_for platform r ≡ some key)
  place_sound c row k' key id' h =
      elim (Bool-cases (is_key k (natural_key_for platform row) k' key)) [
        | inl own ↦
            let e = eq_of_is_key k (natural_key_for platform row) k' key own in
            let i : id ≡ id' = ground (arith, id_by_natural_key-place platform s k id row k' key) in
            let t : same k id k' id' ≡ true = rw (e.0, i) (same_self k' id') in
            (row, get-place platform s k id row k' id' ∙ rw t refl, e.1)
        | inr other ↦
            let before : id_by_natural_key s k' key ≡ some id' =
              ground (arith, id_by_natural_key-place platform s k id row k' key) in
            let gone : is_key k (key_of platform (get s k id)) k' key ≡ false =
              ground (arith, id_by_natural_key-place platform s k id row k' key) in
            let (r, g, n) = c.sound k' key id' before in
            let apart : same k id k' id' ≡ false = ground (arith, old-key-is_key k' id' r key) in
            (r, get-place platform s k id row k' id' ∙ rw apart g, n)
      ]

  displace_sound :
      IsCoherent platform s
      → (k' : EntityKind) (key : Text) (id' : Uuid)
      → id_by_natural_key (displace platform s k id) k' key ≡ some id'
      → (r : Row) × (get (displace platform s k id) k' id' ≡ some r)
        × (natural_key_for platform r ≡ some key)
  displace_sound c k' key id' h =
      let before : id_by_natural_key s k' key ≡ some id' =
        ground (arith, id_by_natural_key-displace platform s k id k' key) in
      let gone : is_key k (key_of platform (get s k id)) k' key ≡ false =
        ground (arith, id_by_natural_key-displace platform s k id k' key) in
      let (r, g, n) = c.sound k' key id' before in
      let apart : same k id k' id' ≡ false = ground (arith, old-key-is_key k' id' r key) in
      (r, get-displace platform s k id k' id' ∙ rw apart g, n)

  pub place-IsCoherent :
      (row : Row)
      → kind row ≡ k
      → IsCoherent platform s
      → IsCoherent platform (place platform s k id row)
  place-IsCoherent row e c = record {
    sorted = place-IsSorted platform s k id row c.sorted;
    kinded = λ k' id' r h.
        ground
          (arith, get-place platform s k id row k' id', eq_of_same k id k' id', c.kinded k' id' r);
    sound = place_sound c row;
  }

  pub displace-IsCoherent : IsCoherent platform s → IsCoherent platform (displace platform s k id)
  displace-IsCoherent c = record {
    sorted = displace-IsSorted platform s k id c.sorted;
    kinded = λ k' id' r h. ground (arith, get-displace platform s k id k' id', c.kinded k' id' r);
    sound = displace_sound c;
  }

module _ {Value : Type 0} (platform : Platform Value) where
  -- Applying an action to a coherent snapshot, when it succeeds, gives a coherent snapshot.
  pub apply-IsCoherent :
      (s : Snapshot) (act : Action Value) (t : Snapshot)
      → IsCoherent platform s
      → apply platform s act ≡ ok t
      → IsCoherent platform t
  unfolding apply
  apply-IsCoherent s (Action.upsert k id body) t c h =
      let (row, e, p) =
        >>=-eq-ok (from_body platform k body) (λ (row : Row). ok (place platform s k id row)) h in
      let q : place platform s k id row ≡ t = ground arith in
      rw (← q) (place-IsCoherent platform s k id row (kind-from_body platform k body row e) c)
  apply-IsCoherent s (Action.remove k id) t c h =
      let q : displace platform s k id ≡ t = ground arith in
      rw (← q) (displace-IsCoherent platform s k id c)

  -- Applying any actions that apply, whatever rows they carry, to a coherent snapshot gives a coherent
  -- one: the index is sorted, a row stands under its own kind, and an index entry points at a row that
  -- has that natural key.
  pub apply_all-IsCoherent :
      (acts : List (Action Value)) (s t : Snapshot)
      → IsCoherent platform s
      → apply_all platform s acts ≡ ok t
      → IsCoherent platform t
  unfolding apply_all
  apply_all-IsCoherent [] s t c h = let q : s ≡ t = ground arith in rw (← q) c
  apply_all-IsCoherent (act ∷ acts) s t c h =
      let (s', e, p) =
        >>=-eq-ok (apply platform s act) (λ (u : Snapshot). apply_all platform u acts) h in
      apply_all-IsCoherent acts s' t (apply-IsCoherent s act s' c e) p

  pub empty-IsCoherent : IsCoherent platform empty
  unfolding get id_by_natural_key HashMap.get BTreeMap.get
  empty-IsCoherent = record {
    sorted = tt;
    kinded = λ k id r h. ground arith;
    sound = λ k key id h. absurd (ground arith);
  }
