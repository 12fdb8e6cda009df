-- ===== src/Repos/Writes/Keeps.antt =====
-- The UNIQUE constraints after any run of writes.
use unity_catalog.Prelude.{some, List, [], ◌∷◌, Result, ok, err, >>=-eq-ok, ◌≡◌, refl, arith, ◌>>=◌}
use unity_catalog.Prelude.Text.{Text}
use unity_catalog.Models.{Uuid}
use unity_catalog.Store.Kind.{EntityKind}
use unity_catalog.Store.Platform.{Platform}
use unity_catalog.Store.Row.{Row}
use unity_catalog.Store.NaturalKey.{natural_key_for}
use unity_catalog.Store.Action.{Action}
use unity_catalog.Store.Snapshot.{Snapshot, empty, get, apply_all}
use unity_catalog.Store.Valid.{IsValid, empty-IsValid}
use unity_catalog.Repos.Build.{Build}
use unity_catalog.Repos.Requests.{silent, committed, or_unchanged}
use unity_catalog.Repos.Requests.Keeps.{closure-Keeps}
use unity_catalog.Repos.Table
use unity_catalog.Repos.Table.Columns.{insert_columns-IsValid}
use unity_catalog.Repos.User
use unity_catalog.Repos.User.Adopt.{find_or_create-IsValid}
use unity_catalog.Repos.Writes.{Write, build_of, run_write, run_writes, Fits, AllFit}

module _ {Value : Type 0} (platform : Platform Value) where
  -- whatever the closure gives on this snapshot keeps the invariant
  abbrev KeepsAt : {A : Type 0} → Build Value A → Snapshot → Type 0
  KeepsAt {A} build s =
      (t : Snapshot) (acts : List (Action Value)) (out : A)
      → build s ≡ ok (acts, out)
      → apply_all platform s acts ≡ ok t
      → IsValid platform t

  silent-KeepsAt :
      {A : Type 0} (build : Build Value A) (s : Snapshot)
      → KeepsAt build s
      → KeepsAt (silent platform build) s
  unfolding silent
  silent-KeepsAt build s keeps t acts out h e =
      let (r, b, q) = >>=-eq-ok (build s) _ h in
      let same : r.0 ≡ acts = ground arith in keeps t r.0 r.1 b (rw same e)

  build_of-KeepsAt :
      (write : Write) (s : Snapshot)
      → IsValid platform s
      → Fits platform write s
      → KeepsAt (build_of platform write) s
  unfolding build_of
  build_of-KeepsAt (Write.request made) s v f =
      λ t acts out h e. closure-Keeps platform made s t acts out v h e
  build_of-KeepsAt (Write.insert_columns columns) s v f =
      silent-KeepsAt (Table.insert_columns platform columns) s
        (λ t acts out h e. insert_columns-IsValid platform columns acts out s t v f h e)
  build_of-KeepsAt (Write.find_or_create_user fresh external_id now) s v f =
      silent-KeepsAt (User.find_or_create_by_external_id platform fresh external_id now) s
        (λ t acts out h e.
          find_or_create-IsValid platform fresh external_id now s t acts out v f h e)

  committed-at :
      {A : Type 0} (build : Build Value A) (s : Snapshot)
      → IsValid platform s
      → KeepsAt build s
      → IsValid platform (or_unchanged platform s (committed platform build s))
  unfolding committed
  committed-at build s v keeps = step (build s >>= λ r. apply_all platform s r.0) refl
    where
      step :
          (r : Result Snapshot)
          → (build s >>= λ made. apply_all platform s made.0) ≡ r
          → IsValid platform (or_unchanged platform s r)
      step (err code) e = v
      step (ok t) e = let (r, b, a) = >>=-eq-ok (build s) _ e in keeps t r.0 r.1 b a

  run_writes-IsValid :
      (writes : List Write) (s : Snapshot)
      → IsValid platform s
      → AllFit platform writes s
      → IsValid platform (run_writes platform writes s)
  unfolding run_writes run_write
  run_writes-IsValid [] s v f = v
  run_writes-IsValid (write ∷ writes) s v f =
      run_writes-IsValid writes (run_write platform write s)
        (committed-at (build_of platform write) s v (build_of-KeepsAt write s v f.0)) f.1

  -- After any sequence of the requests, of insertions of columns and of `find_or_create_by_external_id` on
  -- an empty store, two entities of one kind whose rows have the same natural key are the same entity.
  -- The condition is on the two writes that do not look their keys up: each column finds its position in
  -- its table free or its own, and an external id that no user has is nobody's name. `Property.replace`
  -- is not among the writes.
  pub run_writes_unique :
      (writes : List Write) (k : EntityKind) (a b : Uuid) (r q : Row) (key : Text)
      → AllFit platform writes empty
      → get (run_writes platform writes empty) k a ≡ some r
      → get (run_writes platform writes empty) k b ≡ some q
      → natural_key_for platform r ≡ some key
      → natural_key_for platform q ≡ some key
      → a ≡ b
  run_writes_unique writes k a b r q key f ga gb na nb =
      let v = run_writes-IsValid writes empty (empty-IsValid platform) f in
      ground (arith, v.indexed k a r key ga na, v.indexed k b q key gb nb)
