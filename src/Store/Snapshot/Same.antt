-- ===== src/Store/Snapshot/Same.antt =====
-- Snapshots that answer every lookup alike. They may differ in the order of their hash maps and in
-- their version.
use unity_catalog.Prelude.{List, [], ◌∷◌, ok, >>=-eq-ok, ◌≡◌, refl, sym, ap, ◌∙◌, arith}
use unity_catalog.Prelude.Text.{Text}
use unity_catalog.Models.{Uuid}
use unity_catalog.Store.Kind.{EntityKind}
use unity_catalog.Store.Platform.{Platform}
use unity_catalog.Store.Row.{Row, from_body}
use unity_catalog.Store.Action.{Action}
use unity_catalog.Store.Snapshot.{
  Snapshot, get, id_by_natural_key, place, displace, apply, apply_all,
}
use unity_catalog.Store.Snapshot.Lookup.{
  get-place, get-displace, id_by_natural_key-place, id_by_natural_key-displace, key_of,
}

pub record IsSame (s t : Snapshot) : Type 0 where
  pub rows : (k : EntityKind) (id : Uuid) → get s k id ≡ get t k id
  pub keys : (k : EntityKind) (key : Text) → id_by_natural_key s k key ≡ id_by_natural_key t k key

pub IsSame-refl : (s : Snapshot) → IsSame s s
IsSame-refl s = record { rows = λ k id. refl; keys = λ k key. refl }

pub IsSame-sym : (s t : Snapshot) → IsSame s t → IsSame t s
IsSame-sym s t e = record { rows = λ k id. sym (e.rows k id); keys = λ k key. sym (e.keys k key) }

pub IsSame-trans : (s t u : Snapshot) → IsSame s t → IsSame t u → IsSame s u
IsSame-trans s t u e f = record {
  rows = λ k id. e.rows k id ∙ f.rows k id;
  keys = λ k key. e.keys k key ∙ f.keys k key;
}

module _ {Value : Type 0} (platform : Platform Value) where
  place-IsSame :
      (s t : Snapshot) (k : EntityKind) (id : Uuid) (row : Row)
      → IsSame s t
      → IsSame (place platform s k id row) (place platform t k id row)
  place-IsSame s t k id row e =
      let old : key_of platform (get s k id) ≡ key_of platform (get t k id) =
        ap (key_of platform) (e.rows k id) in
      record {
        rows = λ k' id'. ground (
          arith,
          get-place platform s k id row k' id',
          get-place platform t k id row k' id',
          e.rows k' id',
        );
        keys = λ k' key.
            id_by_natural_key-place platform s k id row k' key
            ∙ (rw (old, e.keys k' key) refl)
            ∙ sym (id_by_natural_key-place platform t k id row k' key);
      }

  displace-IsSame :
      (s t : Snapshot) (k : EntityKind) (id : Uuid)
      → IsSame s t
      → IsSame (displace platform s k id) (displace platform t k id)
  displace-IsSame s t k id e =
      let old : key_of platform (get s k id) ≡ key_of platform (get t k id) =
        ap (key_of platform) (e.rows k id) in
      record {
        rows = λ k' id'. ground (
          arith,
          get-displace platform s k id k' id',
          get-displace platform t k id k' id',
          e.rows k' id',
        );
        keys = λ k' key.
            id_by_natural_key-displace platform s k id k' key
            ∙ (rw (old, e.keys k' key) refl)
            ∙ sym (id_by_natural_key-displace platform t k id k' key);
      }

  apply-IsSame :
      (s t s' : Snapshot) (act : Action Value)
      → IsSame s t
      → apply platform s act ≡ ok s'
      → (t' : Snapshot) × (apply platform t act ≡ ok t') × IsSame s' t'
  unfolding apply
  apply-IsSame s t s' (Action.upsert k id body) e h =
      let (row, r, h1) = >>=-eq-ok (from_body platform k body) _ h in
      let q : place platform s k id row ≡ s' = ground arith in
      (place platform t k id row, rw r refl, rw (← q) (place-IsSame s t k id row e))
  apply-IsSame s t s' (Action.remove k id) e h =
      let q : displace platform s k id ≡ s' = ground arith in
      (displace platform t k id, refl, rw (← q) (displace-IsSame s t k id e))

  -- Actions that apply to a snapshot apply to one that answers alike, and leave them alike.
  pub apply_all-IsSame :
      (acts : List (Action Value)) (s t s' : Snapshot)
      → IsSame s t
      → apply_all platform s acts ≡ ok s'
      → (t' : Snapshot) × (apply_all platform t acts ≡ ok t') × IsSame s' t'
  unfolding apply_all
  apply_all-IsSame [] s t s' e h = let q : s ≡ s' = ground arith in (t, refl, rw (← q) e)
  apply_all-IsSame (act ∷ acts) s t s' e h =
      let (u, a, h1) =
        >>=-eq-ok (apply platform s act) (λ (w : Snapshot). apply_all platform w acts) h in
      let (v, b, f) = apply-IsSame s t u act e a in
      let (t', c, g) = apply_all-IsSame acts u v s' f h1 in (t', rw b c, g)
