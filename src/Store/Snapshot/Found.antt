-- ===== src/Store/Snapshot/Found.antt =====
-- What a natural-key lookup finds after one action.
use unity_catalog.Prelude.{false, none, some, ◌≡◌, refl, ◌∙◌, arith}
use unity_catalog.Prelude.Text.{Text}
use unity_catalog.Models.{Uuid}
use unity_catalog.Store.Kind.{EntityKind}
use unity_catalog.Store.Platform.{Platform}
use unity_catalog.Store.Row.{Row}
use unity_catalog.Store.NaturalKey.{natural_key_for}
use unity_catalog.Store.Snapshot.{
  Snapshot, get, id_by_natural_key, get_by_natural_key, place, displace,
}
use unity_catalog.Store.Snapshot.Lookup.{
  get-place, get-displace, id_by_natural_key-place, id_by_natural_key-displace, is_key, is_key_self,
  same_self,
}

get_by_natural_key-eq :
    (s : Snapshot) (k : EntityKind) (key : Text) (id : Uuid)
    → id_by_natural_key s k key ≡ some id
    → get_by_natural_key s k key ≡ get s k id
unfolding get_by_natural_key id_by_natural_key
get_by_natural_key-eq s k key id h = ground arith

get_by_natural_key-eq_none :
    (s : Snapshot) (k : EntityKind) (key : Text)
    → id_by_natural_key s k key ≡ none
    → get_by_natural_key s k key ≡ none
unfolding get_by_natural_key id_by_natural_key
get_by_natural_key-eq_none s k key h = ground arith

module _ {Value : Type 0} (platform : Platform Value) (s : Snapshot) (k : EntityKind)
    (id : Uuid) where
  pub get-place_self : (row : Row) → get (place platform s k id row) k id ≡ some row
  get-place_self row = ground (arith, get-place platform s k id row k id, same_self k id)

  pub get-displace_self : get (displace platform s k id) k id ≡ none
  get-displace_self = ground (arith, get-displace platform s k id k id, same_self k id)

  -- A row that is written is found under its key.
  pub place-found :
      (row : Row) (key : Text)
      → natural_key_for platform row ≡ some key
      → get_by_natural_key (place platform s k id row) k key ≡ some row
  place-found row key n =
      let e : id_by_natural_key (place platform s k id row) k key ≡ some id =
        id_by_natural_key-place platform s k id row k key ∙ rw n (rw (is_key_self k key) refl) in
      get_by_natural_key-eq (place platform s k id row) k key id e ∙ get-place_self row

  -- The key of the row that is written over is not found any more, unless the new row has it too.
  pub place-renamed :
      (prev row : Row) (old : Text)
      → get s k id ≡ some prev
      → natural_key_for platform prev ≡ some old
      → is_key k (natural_key_for platform row) k old ≡ false
      → get_by_natural_key (place platform s k id row) k old ≡ none
  place-renamed prev row old g n other =
      get_by_natural_key-eq_none (place platform s k id row) k old (
        id_by_natural_key-place platform s k id row k old
        ∙ rw other (rw g (rw n (rw (is_key_self k old) refl))))

  pub displace-missing :
      (prev : Row) (key : Text)
      → get s k id ≡ some prev
      → natural_key_for platform prev ≡ some key
      → get_by_natural_key (displace platform s k id) k key ≡ none
  displace-missing prev key g n =
      get_by_natural_key-eq_none (displace platform s k id) k key (
        id_by_natural_key-displace platform s k id k key
        ∙ rw g (rw n (rw (is_key_self k key) refl)))
