-- ===== src/Repos/Sound/Versions.antt =====
-- The closures of crates/uc-db/src/repos/model.rs about model versions write readable bodies.
use unity_catalog.Prelude.{ℤ, Bool, true, false, Option, none, some, List, [], ◌∷◌, ◌>>=◌}
use unity_catalog.Models.{Uuid, ModelVersionRow}
use unity_catalog.Store.Kind.{EntityKind}
use unity_catalog.Store.Platform.{Platform}
use unity_catalog.Store.Row.{Row}
use unity_catalog.Store.Snapshot.{Snapshot}
use unity_catalog.Store.Protocol.History.{IsReadable}
use unity_catalog.Store.Dump.Residents.{All-append}
use unity_catalog.Repos.Build.{removals}
use unity_catalog.Repos.Sound.{AreReadable, upsert_one-readable, removals-IsReadable, bind-readable}
use unity_catalog.Repos.Model
use unity_catalog.Repos.Version

module _ {Value : Type 0} (platform : Platform Value) where
  pub edit-readable :
      (edit : ModelVersionRow → ModelVersionRow) (id : Uuid) (found : Option Row)
      → AreReadable platform (Version.edit_at platform edit id found)
  unfolding Version.edit_at
  edit-readable edit id none = tt
  edit-readable edit id (some current) =
      bind-readable platform (Version.version_of current) _
        (λ row. upsert_one-readable platform EntityKind.model_version id _ tt)

  pub set_max-readable :
      (next : ℤ) (id : Uuid) (found : Option Row)
      → AreReadable platform (Version.set_max_at platform next id found)
  unfolding Version.set_max_at
  set_max-readable next id none = tt
  set_max-readable next id (some current) =
      bind-readable platform (Model.row_of current) _
        (λ row. upsert_one-readable platform EntityKind.registered_model id _ tt)

  drop_model-readable :
      (id : Uuid) (there : Bool) (rows : List ModelVersionRow)
      → AreReadable platform (Version.drop_model platform id there rows)
  drop_model-readable id true rows =
      All-append (IsReadable platform) (removals EntityKind.model_version (Version.ids_of rows))
        (removals EntityKind.registered_model (id ∷ []))
        (removals-IsReadable platform EntityKind.model_version (Version.ids_of rows))
        (removals-IsReadable platform EntityKind.registered_model (id ∷ []))
  drop_model-readable id false rows =
      All-append (IsReadable platform) (removals EntityKind.model_version (Version.ids_of rows)) []
        (removals-IsReadable platform EntityKind.model_version (Version.ids_of rows)) tt

  pub delete_model-readable :
      (id : Uuid) (there : Bool) (s : Snapshot)
      → AreReadable platform (Version.versions_of s id >>= Version.drop_model platform id there)
  delete_model-readable id there s =
      bind-readable platform (Version.versions_of s id) _ (drop_model-readable id there)
