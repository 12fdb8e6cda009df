-- ===== src/Store/Valid.antt =====
-- The invariant of a snapshot that the repositories keep: the index is coherent, every row is
-- indexed, and a row stands under the id that it carries.
use unity_catalog.Prelude.{none, some, ◌≡◌, inl, inr, sym, ap, ◌∙◌, Option-cases, arith}
use unity_catalog.Prelude.Text.{Text}
use unity_catalog.Prelude.HashMap
use unity_catalog.Prelude.HashMap.{HashMap}
use unity_catalog.Models.{Uuid}
use unity_catalog.Store.Kind.{EntityKind, kind_ord}
use unity_catalog.Store.Platform.{Platform}
use unity_catalog.Store.Row.{Row, kind, row_id}
use unity_catalog.Store.NaturalKey.{natural_key_for}
use unity_catalog.Store.Snapshot.{
  Snapshot, empty, get, id_by_natural_key, get_by_natural_key, place, displace,
}
use unity_catalog.Store.Snapshot.Lookup.{get-place, get-displace, eq_of_same}
use unity_catalog.Store.Snapshot.Coherent.{
  IsCoherent, place-IsCoherent, displace-IsCoherent, empty-IsCoherent,
}
use unity_catalog.Store.Snapshot.Unique.{IsIndexed, IsFree, place-IsIndexed, displace-IsIndexed}

pub record IsValid {Value : Type 0} (platform : Platform Value) (s : Snapshot) : Type 0 where
  pub coherent : IsCoherent platform s
  pub indexed : IsIndexed platform s
  pub identified :
      (k : EntityKind) (id : Uuid) (r : Row) (own : Uuid)
      → get s k id ≡ some r
      → row_id r ≡ some own
      → own ≡ id

-- a row may stand under `id`
abbrev pub Carries : Row → Uuid → Type 0
Carries row id = (own : Uuid) → row_id row ≡ some own → own ≡ id

module _ {Value : Type 0} (platform : Platform Value) (s : Snapshot) (v : IsValid platform s) where
  pub place-IsValid :
      (k : EntityKind) (id : Uuid) (row : Row)
      → kind row ≡ k
      → IsFree platform s k id row
      → Carries row id
      → IsValid platform (place platform s k id row)
  place-IsValid k id row e free own = record {
    coherent = place-IsCoherent platform s k id row e v.coherent;
    indexed = place-IsIndexed platform s v.indexed k id row free;
    identified = λ k' id' r o g h. ground (
      arith,
      get-place platform s k id row k' id',
      eq_of_same k id k' id',
      v.identified k' id' r o,
      own o,
    );
  }

  pub displace-IsValid : (k : EntityKind) (id : Uuid) → IsValid platform (displace platform s k id)
  displace-IsValid k id = record {
    coherent = displace-IsCoherent platform s k id v.coherent;
    indexed = displace-IsIndexed platform s v.indexed k id;
    identified = λ k' id' r o g h.
        ground (arith, get-displace platform s k id k' id', v.identified k' id' r o);
  }

  -- A key that no lookup finds is not in the index.
  pub id_by_natural_key-none :
      (k : EntityKind) (key : Text)
      → get_by_natural_key s k key ≡ none
      → id_by_natural_key s k key ≡ none
  unfolding get_by_natural_key
  id_by_natural_key-none k key h = elim (Option-cases (id_by_natural_key s k key)) [
    | inl e ↦ e
    | inr (id, e) ↦
        let (r, g, n) = v.coherent.sound k key id e in
        absurd (unfold id_by_natural_key in ground arith)
  ]

  -- A key under which a lookup finds a row is that row's key.
  pub found-key :
      (k : EntityKind) (key : Text) (r : Row)
      → get_by_natural_key s k key ≡ some r
      → (id : Uuid) × (id_by_natural_key s k key ≡ some id)
        × (get s k id ≡ some r)
        × (natural_key_for platform r ≡ some key)
  unfolding get_by_natural_key
  found-key k key r h = elim (Option-cases (id_by_natural_key s k key)) [
    | inl e ↦ absurd (unfold id_by_natural_key in ground arith)
    | inr (id, e) ↦
        let (r', g, n) = v.coherent.sound k key id e in
        let q : r' ≡ r = unfold id_by_natural_key in ground arith in
        (id, e, g ∙ ap some q, ap (natural_key_for platform) (sym q) ∙ n)
  ]

  pub IsFree-of_none :
      (k : EntityKind) (id : Uuid) (row : Row) (key : Text)
      → natural_key_for platform row ≡ some key
      → get_by_natural_key s k key ≡ none
      → IsFree platform s k id row
  IsFree-of_none k id row key n h key' id' n' e = ground (arith, id_by_natural_key-none k key h)

  -- A row that keeps the key of the row it replaces.
  pub IsFree-of_same :
      (k : EntityKind) (id : Uuid) (prev row : Row) (key : Text)
      → get s k id ≡ some prev
      → natural_key_for platform prev ≡ some key
      → natural_key_for platform row ≡ some key
      → IsFree platform s k id row
  IsFree-of_same k id prev row key g n m key' id' n' e = ground (arith, v.indexed k id prev key g n)

module _ {Value : Type 0} (platform : Platform Value) where
  pub empty-IsValid : IsValid platform empty
  unfolding get
  empty-IsValid = record {
    coherent = empty-IsCoherent platform;
    indexed = λ k id r key h n. absurd (no_row k id r h);
    identified = λ k id r own h n. absurd (no_row k id r h);
  }
    where
      no_row : (k : EntityKind) (id : Uuid) (r : Row) → get empty k id ≡ some r → ⊥
      no_row k id r h = ground (arith, HashMap.get-nil {V = HashMap Uuid Row} k)
