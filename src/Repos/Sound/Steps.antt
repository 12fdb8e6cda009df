-- ===== src/Repos/Sound/Steps.antt =====
-- Steps of the closures write bodies that are read back, whatever row they start from.
use unity_catalog.Prelude.{
  refl, internal, All, ◌≡◌, ℤ, Option, none, some, List, [], ◌∷◌, Result, ok, err, ok_or, ◌>>=◌,
}
use unity_catalog.Prelude.Text.{Text}
use unity_catalog.Models.{Uuid, FunctionParamRow}
use unity_catalog.Store.Kind.{EntityKind}
use unity_catalog.Store.Platform.{Platform}
use unity_catalog.Store.Row.{Row}
use unity_catalog.Store.Snapshot.{Snapshot}
use unity_catalog.Repos.Build.{writes, upsert_row}
use unity_catalog.Repos.Sound.{AreReadable, upsert_one-readable, bind-readable, update-readable}
use unity_catalog.Repos.Metastore
use unity_catalog.Repos.Function
use unity_catalog.Repos.Staging
use unity_catalog.Repos.Property
use unity_catalog.Store.Action.{Action}
use unity_catalog.Store.Protocol.History.{IsReadable}
use unity_catalog.Repos.Credential
use unity_catalog.Repos.ExternalLocation
use unity_catalog.Repos.Model
use unity_catalog.Repos.Table
use unity_catalog.Repos.Casbin

module _ {Value : Type 0} (platform : Platform Value) where
  pub init_unless-readable :
      (fresh : Uuid) (name : Text) (rows : List Row)
      → AreReadable platform (Metastore.init_unless platform fresh name rows)
  unfolding Metastore.init_unless
  init_unless-readable fresh name [] = upsert_one-readable platform EntityKind.metastore fresh _ _
  init_unless-readable fresh name (existing ∷ rows) =
      bind-readable platform (Metastore.row_of existing) _ (λ row. tt)

  pub credential-readable :
      (found : Option Row) (id : Uuid) (new_name comment owner credential : Option Text)
      (updated_at : ℤ) (updated_by : Option Text) (s : Snapshot)
      → AreReadable platform (
          Credential.update_at platform found id new_name comment owner credential updated_at
            updated_by s)
  unfolding Credential.update_at
  credential-readable none id new_name comment owner credential updated_at updated_by s = tt
  credential-readable (some current) id new_name comment owner credential updated_at updated_by s =
      update-readable platform (Credential.row_of current) _ EntityKind.credential _ _ _

  pub external_location-readable :
      (found : Option Row) (id : Uuid) (new_name url comment owner : Option Text)
      (credential_id : Option Uuid) (updated_at : ℤ) (updated_by : Option Text) (s : Snapshot)
      → AreReadable platform (
          ExternalLocation.update_at platform found id new_name url comment owner credential_id
            updated_at updated_by s)
  unfolding ExternalLocation.update_at
  external_location-readable none id new_name url comment owner credential_id updated_at updated_by
        s =
      tt
  external_location-readable (some current) id new_name url comment owner credential_id updated_at
        updated_by s =
      update-readable platform (ExternalLocation.row_of current) _ EntityKind.external_location _ _
        _

  pub model-readable :
      (found : Option Row) (id : Uuid) (new_name comment owner : Option Text) (updated_at : ℤ)
      (updated_by : Option Text) (s : Snapshot)
      → AreReadable platform
          (Model.update_model_at platform found id new_name comment owner updated_at updated_by s)
  unfolding Model.update_model_at
  model-readable none id new_name comment owner updated_at updated_by s = tt
  model-readable (some current) id new_name comment owner updated_at updated_by s =
      update-readable platform (Model.row_of current) _ EntityKind.registered_model _ _ _

  pub patch-readable :
      (found : Option Row) (id : Uuid) (count : Option ℤ) (comment : Option Text)
      (iceberg_version iceberg_timestamp : Option ℤ) (updated_at : ℤ) (s : Snapshot)
      → AreReadable platform (
          Table.patch_at platform found id count comment iceberg_version iceberg_timestamp
            updated_at s)
  unfolding Table.patch_at
  patch-readable none id count comment iceberg_version iceberg_timestamp updated_at s = tt
  patch-readable (some current) id count comment iceberg_version iceberg_timestamp updated_at s =
      bind-readable platform (Table.table_of current) _
        (λ found. upsert_one-readable platform EntityKind.table id _ tt)

  pub rename-readable :
      (found : Option Row) (id : Uuid) (new_name : Text) (updated_at : ℤ) (s : Snapshot)
      → AreReadable platform (Table.rename_at platform found id new_name updated_at s)
  unfolding Table.rename_at
  rename-readable none id new_name updated_at s = tt
  rename-readable (some current) id new_name updated_at s =
      update-readable platform (Table.table_of current) _ EntityKind.table _ _ _

  -- after one more row the actions are still readable
  abbrev AreAllReadable : Result (List (Action Value)) → Type 0
  AreAllReadable (ok acts) = All (IsReadable platform) acts
  AreAllReadable (err code) = Unit

  cons_all :
      (id : Uuid) (p : FunctionParamRow) (rest : Result (List (Action Value)))
      → AreAllReadable rest
      → AreAllReadable (
          upsert_row platform EntityKind.function_parameter id p >>= λ (act : Action Value).
          rest >>= λ (acts : List (Action Value)). ok (act ∷ acts))
  unfolding upsert_row
  cons_all id p rest a = by_value (platform.to_value EntityKind.function_parameter p) refl rest a
    where
      by_value :
          (body : Option Value)
          → platform.to_value EntityKind.function_parameter p ≡ body
          → (rest : Result (List (Action Value))) → AreAllReadable rest
          → AreAllReadable (
              ok_or internal body
              >>= (λ (b : Value). ok (Action.upsert EntityKind.function_parameter id b))
              >>= λ (act : Action Value). rest >>= λ (acts : List (Action Value)). ok (act ∷ acts))
      by_value none e rest a = tt
      by_value (some body) e (err code) a = tt
      by_value (some body) e (ok acts) a = ((p, e), a)

  pub param_actions-readable :
      (params : List FunctionParamRow) → AreAllReadable (Function.param_actions platform params)
  unfolding Function.param_actions
  param_actions-readable [] = tt
  param_actions-readable (p ∷ ps) =
      cons_all p.id p (Function.param_actions platform ps) (param_actions-readable ps)

  pub params-readable :
      (r : Result (List (Action Value)))
      → AreAllReadable r
      → AreReadable platform (r >>= λ (acts : List (Action Value)). writes acts tt)
  params-readable (err code) a = tt
  params-readable (ok acts) a = a

  pub staging-readable :
      (found : Option Row) (id : Uuid) (committed_at : ℤ)
      → AreReadable platform (Staging.mark_committed_at platform found id committed_at)
  unfolding Staging.mark_committed_at
  staging-readable none id committed_at = tt
  staging-readable (some current) id committed_at =
      bind-readable platform (Staging.row_of current) _
        (λ found. upsert_one-readable platform EntityKind.staging_table id _ tt)

  pub unset-readable :
      (found : Option Row) → AreReadable platform (Property.delete_found platform found)
  unfolding Property.delete_found
  unset-readable none = tt
  unset-readable (some existing) =
      bind-readable platform (Property.row_of existing) _ (λ row. (tt, tt))

  pub delete_rule-readable :
      (found : Option Uuid) → AreReadable platform (Casbin.delete_found platform found)
  delete_rule-readable none = tt
  delete_rule-readable (some id) = (tt, tt)
