-- ===== src/Repos/Sound/Requests.antt =====
-- The closure of every request may be committed.
use unity_catalog.Prelude.{
  is_some, keep, true, List, [], Result, ok, err, ok_or, ◌>>=◌, map, not_found, catalog_not_found,
  schema_not_found,
}
use unity_catalog.Store.Kind.{EntityKind}
use unity_catalog.Store.Platform.{Platform}
use unity_catalog.Store.NaturalKey.{child_key, property_key, rule_key}
use unity_catalog.Store.Snapshot.{Snapshot, get, get_by_natural_key, id_by_natural_key}
use unity_catalog.Store.Snapshot.Scan.{iter, iter_by_id, ids_under_prefix}
use unity_catalog.Store.Log.Commit.{JsonLines}
use unity_catalog.Store.Protocol.{PointerText}
use unity_catalog.Store.Protocol.Arms.{IsSound}
use unity_catalog.Repos.Build.{Build, exists_key}
use unity_catalog.Repos.Requests.{Request, silent, closure}
use unity_catalog.Repos.Requests.Keeps.{closure-Keeps}
use unity_catalog.Repos.Sound.{
  AreReadable, IsReadable-of, upsert_one-readable, removals-IsReadable, bind-readable, if-readable,
  create-readable, delete-readable, update-readable, drop-readable,
}
use unity_catalog.Repos.Metastore
use unity_catalog.Repos.Function
use unity_catalog.Repos.Staging
use unity_catalog.Repos.Property
use unity_catalog.Repos.Catalog
use unity_catalog.Repos.Schema
use unity_catalog.Repos.Volume
use unity_catalog.Repos.User
use unity_catalog.Repos.Credential
use unity_catalog.Repos.ExternalLocation
use unity_catalog.Repos.Model
use unity_catalog.Repos.Version
use unity_catalog.Repos.Table
use unity_catalog.Repos.Casbin
use unity_catalog.Repos.Sound.Versions.{edit-readable, set_max-readable, delete_model-readable}
use unity_catalog.Repos.Sound.Steps.{
  init_unless-readable, credential-readable, external_location-readable, model-readable,
  patch-readable, rename-readable, param_actions-readable, params-readable, staging-readable,
  unset-readable, delete_rule-readable,
}

module _ {Value : Type 0} (platform : Platform Value) where
  -- every result of the closure is readable
  abbrev Writes : {A : Type 0} → Build Value A → Type 0
  Writes build = (s : Snapshot) → AreReadable platform (build s)

  silent-Writes :
      {A : Type 0} (build : Build Value A) → Writes build → Writes (silent platform build)
  unfolding silent
  silent-Writes {A} build w s = go (build s) (w s)
    where
      go :
          (r : Result (List _ × A))
          → AreReadable platform r
          → AreReadable platform (r >>= λ (x : List _ × A). ok (x.0, tt))
      go (err code) a = tt
      go (ok (acts, out)) a = a

  closure-Writes : (request : Request) → Writes (closure platform request)
  unfolding closure Function.create Function.insert_params Function.delete Staging.create
      Staging.mark_committed Property.set Property.delete_key Property.delete_for_entity
      Metastore.get_or_init Catalog.create Catalog.update Catalog.delete Schema.create Schema.update
      Schema.delete Volume.create Volume.update Volume.delete User.create User.update User.delete
      Credential.create Credential.update Credential.delete ExternalLocation.create
      ExternalLocation.update ExternalLocation.delete Model.create_model Model.update_model
      Table.create Table.patch Table.rename Table.delete_columns Table.delete Casbin.insert
      Casbin.delete Casbin.delete_many Casbin.clear Version.create_version Version.delete_model
      Version.delete_version Version.update_version Version.set_version_status
      Version.set_max_version
  closure-Writes (Request.init_metastore fresh name) =
      silent-Writes _ (λ s. init_unless-readable platform fresh name (iter s EntityKind.metastore))
  closure-Writes (Request.create_function row) =
      silent-Writes _ (λ s. create-readable platform _ _ EntityKind.function row.id row row)
  closure-Writes (Request.insert_params params) =
      silent-Writes (Function.insert_params platform params) (λ s.
        params-readable platform (Function.param_actions platform params)
          (param_actions-readable platform params))
  closure-Writes (Request.delete_function id) = silent-Writes _ (λ s.
      if-readable platform (is_some (get s EntityKind.function id)) _ _
        (bind-readable platform (Function.params_of id (iter s EntityKind.function_parameter))
          (Function.drop platform id)
          (λ ids. (tt, removals-IsReadable platform EntityKind.function_parameter ids)))
        tt)
  closure-Writes (Request.create_staging_table row) =
      silent-Writes _ (λ s. upsert_one-readable platform EntityKind.staging_table row.id row row)
  closure-Writes (Request.commit_staging_table id committed_at) =
      silent-Writes _
        (λ s. staging-readable platform (get s EntityKind.staging_table id) id committed_at)
  closure-Writes (Request.set_property fresh entity_id entity_type key value) =
      silent-Writes _ (λ s.
        bind-readable platform
          (Property.id_or fresh (
            get_by_natural_key s EntityKind.property
              (property_key platform entity_id entity_type key)))
          _ (λ id. upsert_one-readable platform EntityKind.property id _ tt))
  closure-Writes (Request.unset_property entity_id entity_type key) = silent-Writes _ (λ s.
      unset-readable platform (
        get_by_natural_key s EntityKind.property (property_key platform entity_id entity_type key)))
  closure-Writes (Request.unset_properties entity_id entity_type) =
      silent-Writes (Property.delete_for_entity platform entity_id entity_type) (λ s.
        removals-IsReadable platform EntityKind.property
          (ids_under_prefix s EntityKind.property (property_key platform entity_id entity_type [])))
  closure-Writes (Request.create_catalog id name comment owner created_by storage_root created_at) =
      silent-Writes _ (λ s. create-readable platform _ _ EntityKind.catalog id _ _)
  closure-Writes (Request.update_catalog name new_name comment owner updated_by updated_at) =
      silent-Writes _ (λ s.
        bind-readable platform
          (ok_or catalog_not_found (get_by_natural_key s EntityKind.catalog name)) _
          (λ current. bind-readable platform (Catalog.row_of current) _ (λ found.
            bind-readable platform _ _
              (λ named. upsert_one-readable platform EntityKind.catalog _ _ _))))
  closure-Writes (Request.delete_catalog name) =
      silent-Writes _ (λ s. drop-readable platform _ Catalog.row_of EntityKind.catalog _)
  closure-Writes
        (Request.create_schema id catalog_id name comment owner created_by storage_root
          created_at) =
      silent-Writes _ (λ s. create-readable platform _ _ EntityKind.schema id _ _)
  closure-Writes (Request.update_schema id new_name comment owner updated_by updated_at) =
      silent-Writes _ (λ s.
        bind-readable platform (ok_or schema_not_found (get s EntityKind.schema id)) _
          (λ current. update-readable platform (Schema.row_of current) _ EntityKind.schema _ _ _))
  closure-Writes (Request.delete_schema id) =
      silent-Writes _ (λ s. delete-readable platform _ _ EntityKind.schema id)
  closure-Writes (Request.create_volume row) =
      silent-Writes _ (λ s. create-readable platform _ _ EntityKind.volume row.id row row)
  closure-Writes (Request.update_volume id new_name comment owner updated_at updated_by) =
      silent-Writes _ (λ s.
        bind-readable platform (ok_or not_found (get s EntityKind.volume id)) _
          (λ current. update-readable platform (Volume.row_of current) _ EntityKind.volume _ _ _))
  closure-Writes (Request.delete_volume id) =
      silent-Writes _ (λ s. delete-readable platform _ _ EntityKind.volume id)
  closure-Writes (Request.create_user id name email external_id state created_at) =
      silent-Writes _ (λ s. create-readable platform _ _ EntityKind.user id _ _)
  closure-Writes (Request.update_user id new_name email state updated_at) = silent-Writes _ (λ s.
      bind-readable platform (ok_or not_found (get s EntityKind.user id)) _
        (λ current. update-readable platform (User.row_of current) _ EntityKind.user _ _ _))
  closure-Writes (Request.delete_user id) =
      silent-Writes _ (λ s. delete-readable platform _ _ EntityKind.user id)
  closure-Writes (Request.create_credential row) =
      silent-Writes _ (λ s. create-readable platform _ _ EntityKind.credential row.id row row)
  closure-Writes
        (Request.update_credential id new_name comment owner credential updated_at updated_by) =
      silent-Writes _ (λ s.
        credential-readable platform (get s EntityKind.credential id) id new_name comment owner
          credential updated_at updated_by s)
  closure-Writes (Request.delete_credential name) =
      silent-Writes _ (λ s. drop-readable platform _ Credential.row_of EntityKind.credential _)
  closure-Writes (Request.create_external_location row) =
      silent-Writes _
        (λ s. create-readable platform _ _ EntityKind.external_location row.id row row)
  closure-Writes
        (Request.update_external_location id new_name url comment owner credential_id updated_at
          updated_by) =
      silent-Writes _ (λ s.
        external_location-readable platform (get s EntityKind.external_location id) id new_name url
          comment owner credential_id updated_at updated_by s)
  closure-Writes (Request.delete_external_location name) =
      silent-Writes _
        (λ s. drop-readable platform _ ExternalLocation.row_of EntityKind.external_location _)
  closure-Writes (Request.create_model row) =
      silent-Writes _ (λ s. create-readable platform _ _ EntityKind.registered_model row.id row row)
  closure-Writes (Request.update_model id new_name comment owner updated_at updated_by) =
      silent-Writes _ (λ s.
        model-readable platform (get s EntityKind.registered_model id) id new_name comment owner
          updated_at updated_by s)
  closure-Writes (Request.create_model_version row) =
      silent-Writes _ (λ s. upsert_one-readable platform EntityKind.model_version row.id row row)
  closure-Writes (Request.delete_model id) =
      silent-Writes _
        (λ s. delete_model-readable platform id (is_some (get s EntityKind.registered_model id)) s)
  closure-Writes (Request.delete_model_version model_id version) = silent-Writes _ (λ s.
      bind-readable platform (Version.versions_of s model_id)
        (Version.drop_versions platform version)
        (λ rows.
          removals-IsReadable platform EntityKind.model_version
            (Version.ids_of (keep (Version.is_version version) rows))))
  closure-Writes (Request.update_model_version id comment updated_at updated_by) =
      silent-Writes _ (λ s.
        edit-readable platform (Version.commented platform comment updated_at updated_by) id
          (get s EntityKind.model_version id))
  closure-Writes (Request.set_model_version_status id status) = silent-Writes _ (λ s.
      edit-readable platform (Version.with_status platform status) id
        (get s EntityKind.model_version id))
  closure-Writes (Request.set_max_version id next) =
      silent-Writes _
        (λ s. set_max-readable platform next id (get s EntityKind.registered_model id))
  closure-Writes (Request.create_table row) =
      silent-Writes _ (λ s. create-readable platform _ _ EntityKind.table row.id row row)
  closure-Writes
        (Request.patch_table id count comment iceberg_version iceberg_timestamp updated_at) =
      silent-Writes _ (λ s.
        patch-readable platform (get s EntityKind.table id) id count comment iceberg_version
          iceberg_timestamp updated_at s)
  closure-Writes (Request.rename_table id new_name updated_at) =
      silent-Writes _
        (λ s. rename-readable platform (get s EntityKind.table id) id new_name updated_at s)
  closure-Writes (Request.delete_columns table_id) =
      silent-Writes (Table.delete_columns platform table_id) (λ s.
        removals-IsReadable platform EntityKind.column
          (ids_under_prefix s EntityKind.column (child_key platform table_id [])))
  closure-Writes (Request.delete_table id) =
      silent-Writes _ (λ s. delete-readable platform _ _ EntityKind.table id)
  closure-Writes (Request.insert_rule fresh rule) = silent-Writes _ (λ s.
      if-readable platform (exists_key s EntityKind.casbin_rule (rule_key rule)) _ _ tt
        (upsert_one-readable platform EntityKind.casbin_rule fresh rule true))
  closure-Writes (Request.delete_rule rule) = silent-Writes _ (λ s.
      delete_rule-readable platform (id_by_natural_key s EntityKind.casbin_rule (rule_key rule)))
  closure-Writes (Request.delete_rules rules) =
      silent-Writes (Casbin.delete_many platform rules)
        (λ s. removals-IsReadable platform EntityKind.casbin_rule (Casbin.ids_of_rules s rules))
  closure-Writes Request.clear_rules = silent-Writes (Casbin.clear platform) (λ s.
      removals-IsReadable platform EntityKind.casbin_rule
        (map (λ entry. entry.0) (iter_by_id s EntityKind.casbin_rule)))

  pub closure-IsSound :
      (json : JsonLines platform) (pointers : PointerText) (request : Request)
      → IsSound json pointers (closure platform request)
  closure-IsSound json pointers request = record {
    readable = λ s acts out e.
        IsReadable-of platform (closure platform request s) acts out (closure-Writes request s) e;
    keeps = closure-Keeps platform request;
  }
