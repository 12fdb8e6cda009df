-- ===== src/Repos/Build.antt =====
-- What the repositories share: the closure that `StoreInner::commit` runs, and what it keeps.
use unity_catalog.Prelude.{
  Option, none, some, List, [], ◌∷◌, Result, ok, err, internal, ok_or, ◌>>=◌, >>=-eq-ok, ◌≡◌, refl,
  Bool, false, not, ◌&&◌, is_some, arith, ErrorCode, inl, inr, Option-cases, Bool-cases, ap, sym,
  ◌∙◌, if◌then◌else◌,
}
use unity_catalog.Prelude.Text.{Text}
use unity_catalog.Prelude.Order.{eqb, eqb→eq, bytes_ord}
use unity_catalog.Models.{Uuid}
use unity_catalog.Store.Kind.{EntityKind}
use unity_catalog.Store.Platform.{Platform, RowOf}
use unity_catalog.Store.Row.{Row, kind, row_of, from_body-to_value}
use unity_catalog.Store.NaturalKey.{natural_key_for}
use unity_catalog.Store.Action.{Action}
use unity_catalog.Store.Snapshot.{
  Snapshot, get, get_by_natural_key, place, displace, apply, apply_all,
}
use unity_catalog.Store.Snapshot.Unique.{IsFree}
use unity_catalog.Store.Valid.{
  IsValid, Carries, place-IsValid, displace-IsValid, IsFree-of_none, IsFree-of_same,
}

-- `FnMut(&Snapshot) -> Result<(Vec<Action>, T), UcError>`
abbrev pub Build : Type 0 → Type 0 → Type 0
Build Value A = Snapshot → Result (List (Action Value) × A)

-- `Ok((actions, out))`
abbrev pub writes : {Value A : Type 0} → List (Action Value) → A → Result (List (Action Value) × A)
writes acts out = ok (acts, out)

-- `if let Some(c) = given { row.field = c }`
abbrev pub replaced {ℓ} : {A : Type ℓ} → Option A → A → A
replaced none old = old
replaced (some new) old = new

-- `if let Some(c) = given { row.field = Some(c) }`: COALESCE
abbrev pub coalesce {ℓ} : {A : Type ℓ} → Option A → Option A → Option A
coalesce none old = old
coalesce (some new) old = some new

none_of_is_some {ℓ} : {A : Type ℓ} (o : Option A) → is_some o ≡ false → o ≡ none
none_of_is_some none h = refl
none_of_is_some (some a) h = cc

-- `target != current && snap.get_by_natural_key(kind, key).is_some()`
abbrev pub is_taken : Snapshot → EntityKind → Text → Text → Text → Bool
is_taken snap kind current target key =
    not (eqb target current) && is_some (get_by_natural_key snap kind key)

-- `if let Some(target) = new_name { if taken { return Err(code) } row.name = target }`: the name
-- that the row has afterwards
unfoldable pub check_rename :
    Snapshot → EntityKind → (Text → Text) → ErrorCode → Text → Option Text → Result Text
check_rename snap kind key_of code current none = ok current
check_rename snap kind key_of code current (some target) =
    if is_taken snap kind current target (key_of target) then err code else ok target

-- `snap.get_by_natural_key(kind, key).is_some()`
abbrev pub exists_key : Snapshot → EntityKind → Text → Bool
exists_key snap kind key = is_some (get_by_natural_key snap kind key)

pub kind-row_of : (k : EntityKind) (r : RowOf k) → kind (row_of k r) ≡ k
unfolding kind row_of
kind-row_of EntityKind.metastore r = refl
kind-row_of _ r = refl

-- `ids.map(|id| Action::Remove { kind, id })`
abbrev pub removals : {Value : Type 0} → EntityKind → List Uuid → List (Action Value)
removals k [] = []
removals k (id ∷ ids) = Action.remove k id ∷ removals k ids

module _ {Value : Type 0} (platform : Platform Value) where
  -- `serde_json::to_value(&row)` with its error mapped, and `Action::Upsert { kind, id, body }`
  unfoldable pub upsert_row : (k : EntityKind) → Uuid → RowOf k → Result (Action Value)
  upsert_row k id row =
      ok_or internal (platform.to_value k row) >>= λ body. ok (Action.upsert k id body)

  -- `Ok((vec![Action::Upsert { kind, id, body }], out))` after the body is made
  unfoldable pub upsert_one :
      {A : Type 0} (k : EntityKind) → Uuid → RowOf k → A → Result (List (Action Value) × A)
  upsert_one k id row out = upsert_row k id row >>= λ act. writes (act ∷ []) out

  -- What a closure writes keeps the invariant.
  abbrev pub Keeps : {A : Type 0} → Build Value A → Type 0
  Keeps {A} build =
      (s t : Snapshot) (acts : List (Action Value)) (out : A)
      → IsValid platform s
      → build s ≡ ok (acts, out)
      → apply_all platform s acts ≡ ok t
      → IsValid platform t

  pub apply-upsert_row :
      (s : Snapshot) (k : EntityKind) (id : Uuid) (row : RowOf k) (act : Action Value)
      → upsert_row k id row ≡ ok act
      → apply platform s act ≡ ok (place platform s k id (row_of k row))
  unfolding upsert_row
  apply-upsert_row s k id row act h = go (platform.to_value k row) refl h
    where
      go :
          (o : Option Value)
          → platform.to_value k row ≡ o
          → (ok_or internal o >>= λ (body : Value). ok (Action.upsert k id body)) ≡ ok act
          → apply platform s act ≡ ok (place platform s k id (row_of k row))
      go none e h' = cc
      go (some body) e h' =
          let q : Action.upsert k id body ≡ act = ground arith in
          rw (← q) (unfold apply in rw (from_body-to_value platform k row body e) refl)

  removes_from :
      (k : EntityKind) (ids : List Uuid) (s t : Snapshot)
      → IsValid platform s
      → apply_all platform s (removals k ids) ≡ ok t
      → IsValid platform t
  unfolding apply_all apply
  removes_from k [] s t v e = let r : s ≡ t = ground arith in rw (← r) v
  removes_from k (id ∷ ids) s t v e =
      removes_from k ids (displace platform s k id) t (displace-IsValid platform s v k id) e

  -- A closure that ends by writing one row does just that.
  pub upsert_one-place :
      {A : Type 0} (s t : Snapshot) (k : EntityKind) (id : Uuid) (row : RowOf k)
      (acts : List (Action Value)) (a out : A)
      → upsert_one k id row a ≡ ok (acts, out)
      → apply_all platform s acts ≡ ok t
      → (place platform s k id (row_of k row) ≡ t) × (a ≡ out)
  unfolding apply_all upsert_one
  upsert_one-place s t k id row acts a out h e =
      let (act, u, w) =
        >>=-eq-ok (upsert_row k id row) (λ (act : Action Value). writes (act ∷ []) a) h in
      let q : act ∷ [] ≡ acts = ground arith in
      let r : ok (place platform s k id (row_of k row)) ≡ ok t =
        ground (arith, apply-upsert_row s k id row act) in
      (ground arith, ground arith)

  module _ (s t : Snapshot) (v : IsValid platform s) where
    -- A closure that ends by writing one row.
    pub upsert_one-IsValid :
        {A : Type 0} (k : EntityKind) (id : Uuid) (row : RowOf k) (acts : List (Action Value))
        (a out : A)
        → IsFree platform s k id (row_of k row)
        → Carries (row_of k row) id
        → upsert_one k id row a ≡ ok (acts, out)
        → apply_all platform s acts ≡ ok t
        → IsValid platform t
    upsert_one-IsValid k id row acts a out free own h e =
        let (r, _) = upsert_one-place s t k id row acts a out h e in
        rw (← r) (place-IsValid platform s v k id (row_of k row) (kind-row_of k row) free own)

    pub remove-IsValid :
        {A : Type 0} (k : EntityKind) (id : Uuid) (acts : List (Action Value)) (a out : A)
        → writes (Action.remove k id ∷ []) a ≡ ok (acts, out)
        → apply_all platform s acts ≡ ok t
        → IsValid platform t
    unfolding apply_all apply
    remove-IsValid k id acts a out h e =
        let q : Action.remove k id ∷ [] ≡ acts = ground arith in
        let r : displace platform s k id ≡ t = ground arith in
        rw (← r) (displace-IsValid platform s v k id)

    pub nothing-IsValid :
        {A : Type 0} (acts : List (Action Value)) (a out : A)
        → writes [] a ≡ ok (acts, out)
        → apply_all platform s acts ≡ ok t
        → IsValid platform t
    unfolding apply_all
    nothing-IsValid acts a out h e = let r : s ≡ t = ground arith in rw (← r) v

    -- Removing any entities of one kind.
    pub removes-IsValid :
        (k : EntityKind) (ids : List Uuid)
        → apply_all platform s (removals k ids) ≡ ok t
        → IsValid platform t
    removes-IsValid k ids e = removes_from k ids s t v e

    -- A closure that writes a row unless its key is taken.
    pub create-IsValid :
        {A : Type 0} (k : EntityKind) (id : Uuid) (row : RowOf k) (key : Text) (c : ErrorCode)
        (acts : List (Action Value)) (a out : A)
        → natural_key_for platform (row_of k row) ≡ some key
        → Carries (row_of k row) id
        → (if is_some (get_by_natural_key s k key) then err c else upsert_one k id row a)
          ≡ ok (acts, out)
        → apply_all platform s acts ≡ ok t
        → IsValid platform t
    create-IsValid k id row key c acts a out n own h e =
        elim (Option-cases (get_by_natural_key s k key)) [
          | inr (r, taken) ↦ absurd (ground arith)
          | inl absent ↦
              upsert_one-IsValid k id row acts a out
                (IsFree-of_none platform s v k id (row_of k row) key n absent) own (ground arith) e
        ]

    -- A new key that `is_taken` lets through is free for the row that is renamed.
    pub IsFree-of_rename :
        (k : EntityKind) (id : Uuid) (prev row : Row) (current target old key : Text)
        → get s k id ≡ some prev
        → natural_key_for platform prev ≡ some old
        → natural_key_for platform row ≡ some key
        → (target ≡ current → key ≡ old)
        → is_taken s k current target key ≡ false
        → IsFree platform s k id row
    IsFree-of_rename k id prev row current target old key g n m same_key free =
        elim (Bool-cases (eqb target current)) [
          | inl unchanged ↦
              IsFree-of_same platform s v k id prev row old g n
                (m ∙ ap some (same_key (eqb→eq target current unchanged)))
          | inr changed ↦
              IsFree-of_none platform s v k id row key m
                (none_of_is_some (get_by_natural_key s k key) (ground arith))
        ]

    pub check_rename-IsFree :
        (k : EntityKind) (id : Uuid) (prev row : Row) (key_of : Text → Text) (code : ErrorCode)
        (current name : Text) (new_name : Option Text)
        → get s k id ≡ some prev
        → natural_key_for platform prev ≡ some (key_of current)
        → natural_key_for platform row ≡ some (key_of name)
        → check_rename s k key_of code current new_name ≡ ok name
        → IsFree platform s k id row
    unfolding check_rename
    check_rename-IsFree k id prev row key_of code current name none g n m h =
        IsFree-of_same platform s v k id prev row (key_of current) g n (ground arith)
    check_rename-IsFree k id prev row key_of code current name (some target) g n m h =
        let q : target ≡ name = ground arith in
        IsFree-of_rename k id prev row current target (key_of current) (key_of name) g n m
          (λ (e : target ≡ current). ap key_of (sym q ∙ e)) (rw (← q) (ground arith))
