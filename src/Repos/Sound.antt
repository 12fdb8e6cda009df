-- ===== src/Repos/Sound.antt =====
-- The closures of the repositories write bodies that are read back.
pub mod Steps
pub mod Versions
pub mod Requests
pub mod Unique
use unity_catalog.Prelude.{
  none, some, List, [], ◌∷◌, All, Option, Result, ok, err, internal, ErrorCode, ok_or, ◌>>=◌,
  >>=-eq-ok, eq_of_ok_or, is_some, ◌≡◌, refl, ap, arith, Bool, true, false, if◌then◌else◌,
}
use unity_catalog.Prelude.Text.{Text}
use unity_catalog.Models.{Uuid}
use unity_catalog.Store.Kind.{EntityKind}
use unity_catalog.Store.Platform.{Platform, RowOf}
use unity_catalog.Store.Row.{Row}
use unity_catalog.Store.Action.{Action}
use unity_catalog.Store.Snapshot.{Snapshot}
use unity_catalog.Store.Protocol.History.{IsReadable}
use unity_catalog.Repos.Build.{Build, writes, upsert_row, upsert_one, removals}

module _ {Value : Type 0} (platform : Platform Value) where
  -- whatever actions the result has, they are readable
  abbrev pub AreReadable : {A : Type 0} → Result (List (Action Value) × A) → Type 0
  AreReadable (ok (acts, out)) = All (IsReadable platform) acts
  AreReadable (err code) = Unit

  pub IsReadable-of :
      {A : Type 0} (r : Result (List (Action Value) × A)) (acts : List (Action Value)) (out : A)
      → AreReadable r
      → r ≡ ok (acts, out)
      → All (IsReadable platform) acts
  IsReadable-of (err code) acts out a e = cc
  IsReadable-of (ok (acts', out')) acts out a e = let q : acts' ≡ acts = ground arith in rw (← q) a

  pub upsert_one-readable :
      {A : Type 0} (k : EntityKind) (id : Uuid) (row : RowOf k) (a : A)
      → AreReadable (upsert_one platform k id row a)
  unfolding upsert_one upsert_row
  upsert_one-readable k id row a = by_value (platform.to_value k row) refl
    where
      by_value :
          (body : Option Value)
          → platform.to_value k row ≡ body
          → AreReadable (
              ok_or internal body
              >>= (λ (b : Value). ok (Action.upsert k id b))
              >>= λ (act : Action Value). writes (act ∷ []) a)
      by_value none e = tt
      by_value (some body) e = ((row, e), tt)

  pub removals-IsReadable :
      (k : EntityKind) (ids : List Uuid) → All (IsReadable platform) (removals k ids)
  removals-IsReadable k [] = tt
  removals-IsReadable k (id ∷ ids) = (tt, removals-IsReadable k ids)

  -- After a step that may fail.
  pub bind-readable {ℓ} :
      {A : Type ℓ} {B : Type 0} (first : Result A) (next : A → Result (List (Action Value) × B))
      → ((a : A) → AreReadable (next a))
      → AreReadable (first >>= next)
  bind-readable (err code) next f = tt
  bind-readable (ok a) next f = f a

  pub if-readable :
      {B : Type 0} (test : Bool) (x y : Result (List (Action Value) × B))
      → AreReadable x
      → AreReadable y
      → AreReadable (if test then x else y)
  if-readable true x y a b = a
  if-readable false x y a b = b

  -- the closures that write a row unless a test forbids it, that remove a row if it is there, and that
  -- look a row up and remove it
  pub create-readable :
      {B : Type 0} (taken : Bool) (code : ErrorCode) (k : EntityKind) (id : Uuid) (row : RowOf k)
      (b : B)
      → AreReadable (if taken then err code else upsert_one platform k id row b)
  create-readable true code k id row b = tt
  create-readable false code k id row b = upsert_one-readable k id row b

  pub delete-readable :
      (there : Bool) (code : ErrorCode) (k : EntityKind) (id : Uuid)
      → AreReadable (if there then writes (Action.remove k id ∷ []) tt else err code)
  delete-readable true code k id = (tt, tt)
  delete-readable false code k id = tt

  pub update-readable :
      {R : Type 0} {B : Type 0} (found : Result R) (named : R → Result Text) (k : EntityKind)
      (id : R → Text → Uuid) (row : R → Text → RowOf k) (b : R → Text → B)
      → AreReadable (
          found >>= λ (r : R).
          named r >>= λ (name : Text). upsert_one platform k (id r name) (row r name) (b r name))
  update-readable found named k id row b = bind-readable found _ (λ r.
      bind-readable (named r) _ (λ name. upsert_one-readable k (id r name) (row r name) (b r name)))

  pub drop-readable :
      {R : Type 0} (first : Result Row) (row_of : Row → Result R) (k : EntityKind) (id : R → Uuid)
      → AreReadable (
          first >>= λ (current : Row).
          row_of current >>= λ (row : R). writes (Action.remove k (id row) ∷ []) tt)
  drop-readable first row_of k id =
      bind-readable first _ (λ current. bind-readable (row_of current) _ (λ row. (tt, tt)))
