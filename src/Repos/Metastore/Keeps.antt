-- ===== src/Repos/Metastore/Keeps.antt =====
-- The closure of `get_or_init` of crates/uc-db/src/repos/metastore.rs is sound.
use unity_catalog.Prelude.{List, [], ◌∷◌, ok, >>=-eq-ok, ◌≡◌, arith}
use unity_catalog.Prelude.Text.{Text}
use unity_catalog.Models.{Uuid, MetastoreRow}
use unity_catalog.Store.Kind.{EntityKind}
use unity_catalog.Store.Platform.{Platform}
use unity_catalog.Store.Row
use unity_catalog.Store.Row.{Row}
use unity_catalog.Store.NaturalKey.{natural_key_for}
use unity_catalog.Store.Action.{Action}
use unity_catalog.Store.Snapshot.{Snapshot, apply_all}
use unity_catalog.Store.Snapshot.Scan.{iter}
use unity_catalog.Store.Valid.{IsValid}
use unity_catalog.Repos.Build.{Keeps, upsert_one-IsValid, nothing-IsValid}
use unity_catalog.Repos.Metastore.{row_of, init_unless, get_or_init}

module _ {Value : Type 0} (platform : Platform Value) (fresh : Uuid) (name : Text) where
  init_unless-IsValid :
      (rows : List Row) (s t : Snapshot) (acts : List (Action Value)) (out : MetastoreRow)
      → IsValid platform s
      → init_unless platform fresh name rows ≡ ok (acts, out)
      → apply_all platform s acts ≡ ok t
      → IsValid platform t
  unfolding init_unless natural_key_for Row.row_of Row.row_id
  init_unless-IsValid (existing ∷ rows) s t acts out v h e =
      let (row, r, h1) = >>=-eq-ok (row_of existing) _ h in
      nothing-IsValid platform s t v acts row out h1 e
  init_unless-IsValid [] s t acts out v h e =
      upsert_one-IsValid platform s t v EntityKind.metastore fresh _ acts _ out
        (λ key id n i. absurd cc) (λ own q. ground arith) h e

  pub get_or_init-Keeps : Keeps platform (get_or_init platform fresh name)
  unfolding get_or_init
  get_or_init-Keeps s t acts out v h e =
      init_unless-IsValid (iter s EntityKind.metastore) s t acts out v h e
