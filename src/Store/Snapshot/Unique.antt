-- ===== src/Store/Snapshot/Unique.antt =====
-- The UNIQUE constraints: every row is in the index under its natural key, so that no two rows of a
-- kind share one.
use unity_catalog.Prelude.{
  true, false, Option, none, some, ◌≡◌, refl, ap, ◌∙◌, inl, inr, Bool-cases, arith,
}
use unity_catalog.Prelude.Text.{Text}
use unity_catalog.Models.{Uuid}
use unity_catalog.Store.Kind.{EntityKind}
use unity_catalog.Store.Platform.{Platform}
use unity_catalog.Store.Row.{Row}
use unity_catalog.Store.NaturalKey.{natural_key_for}
use unity_catalog.Store.Snapshot.{Snapshot, get, id_by_natural_key, place, displace}
use unity_catalog.Store.Snapshot.Lookup.{
  get-place, get-displace, id_by_natural_key-place, id_by_natural_key-displace, is_key, key_of,
  same, eq_of_is_key, is_key_self, eq_of_same, same_self,
}

-- The row is in the index under its own key. This is the UNIQUE constraint of its kind.
abbrev pub IsIndexed : {Value : Type 0} (platform : Platform Value) (s : Snapshot) → Type 0
IsIndexed platform s =
    (k : EntityKind) (id : Uuid) (r : Row) (key : Text)
    → get s k id ≡ some r
    → natural_key_for platform r ≡ some key
    → id_by_natural_key s k key ≡ some id

-- No other entity of the kind has the row's key.
abbrev pub IsFree :
    {Value : Type 0} (platform : Platform Value) (s : Snapshot) (k : EntityKind) (id : Uuid)
    (row : Row)
    → Type 0
IsFree platform s k id row =
    (key : Text) (id' : Uuid)
    → natural_key_for platform row ≡ some key
    → id_by_natural_key s k key ≡ some id'
    → id' ≡ id

module _ {Value : Type 0} (platform : Platform Value) (s : Snapshot) (ix : IsIndexed platform s)
    (k : EntityKind) (id : Uuid) where
  -- another row of the snapshot keeps its index entry when the row at `id` goes
  kept_key :
      (k' : EntityKind) (id' : Uuid) (r : Row) (key : Text)
      → same k id k' id' ≡ false
      → get s k' id' ≡ some r
      → natural_key_for platform r ≡ some key
      → (prev : Option Row) → get s k id ≡ prev
      → is_key k (key_of platform prev) k' key ≡ false
  kept_key k' id' r key h g n none e = refl
  kept_key k' id' r key h g n (some prev) e =
      elim (Bool-cases (is_key k (natural_key_for platform prev) k' key)) [
        | inr no_clash ↦ no_clash
        | inl clash ↦
            let (kk, nk) = eq_of_is_key k (natural_key_for platform prev) k' key clash in
            let a = ix k id prev key e nk in
            let b = ix k' id' r key g n in
            let i : id ≡ id' = ground arith in
            let t : same k id k' id' ≡ true = rw (kk, i) (same_self k' id') in absurd (ground arith)
      ]

  not_taken :
      (row : Row)
      → IsFree platform s k id row
      → (k' : EntityKind) (id' : Uuid) (key : Text) → same k id k' id' ≡ false
      → id_by_natural_key s k' key ≡ some id'
      → is_key k (natural_key_for platform row) k' key ≡ false
  not_taken row free k' id' key apart b =
      elim (Bool-cases (is_key k (natural_key_for platform row) k' key)) [
        | inr no_clash ↦ no_clash
        | inl clash ↦
            let (kk, nk) = eq_of_is_key k (natural_key_for platform row) k' key clash in
            let i : id' ≡ id = free key id' nk (rw kk b) in
            let t : same k id k' id' ≡ true = rw (kk, i) (same_self k' id) in absurd (ground arith)
      ]

  pub place-IsIndexed :
      (row : Row) → IsFree platform s k id row → IsIndexed platform (place platform s k id row)
  place-IsIndexed row free k' id' r key g n = elim (Bool-cases (same k id k' id')) [
    | inl here ↦
        let e = eq_of_same k id k' id' here in
        let q : row ≡ r = ground (arith, get-place platform s k id row k' id') in
        let t : is_key k (natural_key_for platform row) k' key ≡ true =
          rw (q, n, e.0) (is_key_self k' key) in
        id_by_natural_key-place platform s k id row k' key ∙ rw t (ap some e.1)
    | inr apart ↦
        let g' : get s k' id' ≡ some r = ground (arith, get-place platform s k id row k' id') in
        let b = ix k' id' r key g' n in
        let f : is_key k (natural_key_for platform row) k' key ≡ false =
          not_taken row free k' id' key apart b in
        id_by_natural_key-place platform s k id row k' key
        ∙ rw (f, kept_key k' id' r key apart g' n (get s k id) refl) b
  ]

  pub displace-IsIndexed : IsIndexed platform (displace platform s k id)
  displace-IsIndexed k' id' r key g n = elim (Bool-cases (same k id k' id')) [
    | inl here ↦ absurd (ground (arith, get-displace platform s k id k' id'))
    | inr apart ↦
        let g' : get s k' id' ≡ some r = ground (arith, get-displace platform s k id k' id') in
        id_by_natural_key-displace platform s k id k' key
        ∙ rw (kept_key k' id' r key apart g' n (get s k id) refl) (ix k' id' r key g' n)
  ]
