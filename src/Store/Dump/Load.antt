-- ===== src/Store/Dump/Load.antt =====
-- Placing rows of a snapshot, one by one, into a part of it.
use unity_catalog.Prelude.{
  true, Option, none, some, List, [], ◌∷◌, All, ◌≡◌, refl, sym, ap, ◌∙◌, arith,
}
use unity_catalog.Prelude.Text.{Text}
use unity_catalog.Models.{Uuid}
use unity_catalog.Store.Kind.{EntityKind}
use unity_catalog.Store.Platform.{Platform}
use unity_catalog.Store.Row.{Row}
use unity_catalog.Store.NaturalKey.{natural_key_for}
use unity_catalog.Store.Snapshot.{Snapshot, get, id_by_natural_key, place}
use unity_catalog.Store.Snapshot.Lookup.{
  get-place, id_by_natural_key-place, is_key, eq_of_is_key, is_key_self, key_of, eq_of_same,
}
use unity_catalog.Store.Snapshot.Found.{get-place_self}
use unity_catalog.Store.Snapshot.Unique.{IsIndexed}
use unity_catalog.Store.Dump.{Resident}

-- what the first snapshot holds, the second holds
pub record IsPart (u s : Snapshot) : Type 0 where
  pub rows : (k : EntityKind) (id : Uuid) (r : Row) → get u k id ≡ some r → get s k id ≡ some r
  pub keys :
      (k : EntityKind) (key : Text) (id : Uuid)
      → id_by_natural_key u k key ≡ some id
      → id_by_natural_key s k key ≡ some id

pub IsPart-refl : (s : Snapshot) → IsPart s s
IsPart-refl s = record { rows = λ k id r h. h; keys = λ k key id h. h }

pub IsPart-trans : (u v s : Snapshot) → IsPart u v → IsPart v s → IsPart u s
IsPart-trans u v s e f = record {
  rows = λ k id r h. f.rows k id r (e.rows k id r h);
  keys = λ k key id h. f.keys k key id (e.keys k key id h);
}

-- the snapshot holds the row
abbrev pub Holds : Snapshot → Resident → Type 0
Holds s e = get s e.0 e.1.0 ≡ some e.1.1

module _ {Value : Type 0} (platform : Platform Value) where
  -- and finds it under its key
  abbrev pub Finds : Snapshot → Resident → Type 0
  Finds s e =
      (key : Text)
      → natural_key_for platform e.1.1 ≡ some key
      → id_by_natural_key s e.0 key ≡ some e.1.0

  unfoldable pub place_all : Snapshot → List Resident → Snapshot
  place_all u [] = u
  place_all u (e ∷ es) = place_all (place platform u e.0 e.1.0 e.1.1) es

  module _ (s : Snapshot) (ix : IsIndexed platform s) (k : EntityKind) (id : Uuid) (row : Row)
      (holds : get s k id ≡ some row) where
    place-IsPart_of : (u : Snapshot) → IsPart u s → IsPart (place platform u k id row) s
    place-IsPart_of u p = record {
      rows = λ k' id' r h.
          ground
            (arith, get-place platform u k id row k' id', eq_of_same k id k' id', p.rows k' id' r);
      keys = λ k' key id' h. ground (
        arith,
        id_by_natural_key-place platform u k id row k' key,
        eq_of_is_key k (natural_key_for platform row) k' key,
        ix k id row key holds,
        p.keys k' key id',
      );
    }

    -- the row that stood there was the same one
    old_of : (u : Snapshot) (prev : Row) → IsPart u s → get u k id ≡ some prev → prev ≡ row
    old_of u prev p g = ground (arith, p.rows k id prev g)

    old_key_cases :
        (u : Snapshot) (prev : Option Row) (k' : EntityKind) (key : Text)
        → IsPart u s
        → get u k id ≡ prev
        → is_key k (key_of platform prev) k' key ≡ true
        → is_key k (natural_key_for platform row) k' key ≡ true
    old_key_cases u none k' key p g h = cc
    old_key_cases u (some prev) k' key p g h =
        ap (λ (r : Row). is_key k (natural_key_for platform r) k' key) (sym (old_of u prev p g)) ∙ h

    IsPart-place : (u : Snapshot) → IsPart u s → IsPart u (place platform u k id row)
    IsPart-place u p = record {
      rows = λ k' id' r h.
          ground
            (arith, get-place platform u k id row k' id', eq_of_same k id k' id', p.rows k' id' r);
      keys = λ k' key id' h. ground (
        arith,
        id_by_natural_key-place platform u k id row k' key,
        eq_of_is_key k (natural_key_for platform row) k' key,
        ix k id row key holds,
        p.keys k' key id',
        old_key_cases u (get u k id) k' key p refl,
      );
    }

  place-Finds :
      (u : Snapshot) (k : EntityKind) (id : Uuid) (row : Row)
      → Finds (place platform u k id row) (k, (id, row))
  place-Finds u k id row key n =
      id_by_natural_key-place platform u k id row k key ∙ rw n (rw (is_key_self k key) refl)

  -- Placing rows of an indexed snapshot into a part of it keeps it a part, keeps what it had, and the
  -- rows are there and are found.
  pub place_all-loads :
      (s : Snapshot)
      → IsIndexed platform s
      → (es : List Resident) (u : Snapshot) → All (Holds s) es
      → IsPart u s
      → IsPart (place_all u es) s
        × IsPart u (place_all u es)
        × All (Holds (place_all u es)) es
        × All (Finds (place_all u es)) es
  unfolding place_all
  place_all-loads s ix [] u h p = (p, IsPart-refl u, tt, tt)
  place_all-loads s ix (e ∷ es) u h p =
      let v = place platform u e.0 e.1.0 e.1.1 in
      let pv = place-IsPart_of s ix e.0 e.1.0 e.1.1 h.0 u p in
      let (q, kept, a, b) = place_all-loads s ix es v h.1 pv in
      (
        q,
        IsPart-trans u v (place_all v es) (IsPart-place s ix e.0 e.1.0 e.1.1 h.0 u p) kept,
        (kept.rows e.0 e.1.0 e.1.1 (get-place_self platform u e.0 e.1.0 e.1.1), a),
        ((λ key n. kept.keys e.0 key e.1.0 (place-Finds u e.0 e.1.0 e.1.1 key n)), b),
      )
