-- ===== src/Repos/Requests.antt =====
-- The writes of crates/uc-db/src/repos but `Property.replace` and the two of Repos/Writes, as requests to one store, each
-- with the arguments of its function. A request that fails writes nothing.
pub mod Keeps
use unity_catalog.Prelude.{ℤ, Option, none, some, List, [], ◌∷◌, Result, ok, err, ◌>>=◌}
use unity_catalog.Prelude.Text.{Text}
use unity_catalog.Models.{
  Uuid, ModelVersionRow, FunctionRow, FunctionParamRow, StagingTableRow, TableRow, VolumeRow,
  RegisteredModelRow, CredentialRow, ExternalLocationRow, CasbinRule,
}
use unity_catalog.Store.Platform.{Platform}
use unity_catalog.Store.Snapshot.{Snapshot, apply_all}
use unity_catalog.Repos.Build.{Build}
use unity_catalog.Repos.Catalog
use unity_catalog.Repos.Schema
use unity_catalog.Repos.Volume
use unity_catalog.Repos.User
use unity_catalog.Repos.Credential
use unity_catalog.Repos.ExternalLocation
use unity_catalog.Repos.Model
use unity_catalog.Repos.Table
use unity_catalog.Repos.Casbin
use unity_catalog.Repos.Metastore
use unity_catalog.Repos.Version
use unity_catalog.Repos.Function
use unity_catalog.Repos.Staging
use unity_catalog.Repos.Property

pub data Request : Type 0 where
  create_catalog :
      (id : Uuid) (name : Text) (comment owner created_by storage_root : Option Text)
      (created_at : ℤ)
      → Request
  update_catalog :
      (name : Text) (new_name comment owner updated_by : Option Text) (updated_at : ℤ) → Request
  delete_catalog : (name : Text) → Request
  create_schema :
      (id catalog_id : Uuid) (name : Text) (comment owner created_by storage_root : Option Text)
      (created_at : ℤ)
      → Request
  update_schema :
      (id : Uuid) (new_name comment owner updated_by : Option Text) (updated_at : ℤ) → Request
  delete_schema : (id : Uuid) → Request
  create_volume : (row : VolumeRow) → Request
  update_volume :
      (id : Uuid) (new_name comment owner : Option Text) (updated_at : ℤ) (updated_by : Option Text)
      → Request
  delete_volume : (id : Uuid) → Request
  create_user :
      (id : Uuid) (name : Text) (email external_id : Option Text) (state : Text) (created_at : ℤ)
      → Request
  update_user : (id : Uuid) (new_name email state : Option Text) (updated_at : ℤ) → Request
  delete_user : (id : Uuid) → Request
  create_credential : (row : CredentialRow) → Request
  update_credential :
      (id : Uuid) (new_name comment owner credential : Option Text) (updated_at : ℤ)
      (updated_by : Option Text)
      → Request
  delete_credential : (name : Text) → Request
  create_external_location : (row : ExternalLocationRow) → Request
  update_external_location :
      (id : Uuid) (new_name url comment owner : Option Text) (credential_id : Option Uuid)
      (updated_at : ℤ) (updated_by : Option Text)
      → Request
  delete_external_location : (name : Text) → Request
  create_model : (row : RegisteredModelRow) → Request
  update_model :
      (id : Uuid) (new_name comment owner : Option Text) (updated_at : ℤ) (updated_by : Option Text)
      → Request
  create_table : (row : TableRow) → Request
  patch_table :
      (id : Uuid) (column_count : Option ℤ) (comment : Option Text)
      (iceberg_version iceberg_timestamp : Option ℤ) (updated_at : ℤ)
      → Request
  rename_table : (id : Uuid) (new_name : Text) (updated_at : ℤ) → Request
  delete_columns : (table_id : Uuid) → Request
  delete_table : (id : Uuid) → Request
  insert_rule : (fresh : Uuid) (rule : CasbinRule) → Request
  delete_rule : (rule : CasbinRule) → Request
  delete_rules : (rules : List CasbinRule) → Request
  clear_rules : Request
  init_metastore : (fresh : Uuid) (name : Text) → Request
  create_model_version : (row : ModelVersionRow) → Request
  delete_model : (id : Uuid) → Request
  delete_model_version : (model_id : Uuid) (version : ℤ) → Request
  update_model_version :
      (id : Uuid) (comment : Option Text) (updated_at : ℤ) (updated_by : Option Text) → Request
  set_model_version_status : (id : Uuid) (status : Text) → Request
  set_max_version : (id : Uuid) (next : ℤ) → Request
  create_function : (row : FunctionRow) → Request
  insert_params : (params : List FunctionParamRow) → Request
  delete_function : (id : Uuid) → Request
  create_staging_table : (row : StagingTableRow) → Request
  commit_staging_table : (id : Uuid) (committed_at : ℤ) → Request
  set_property : (fresh entity_id : Uuid) (entity_type key value : Text) → Request
  unset_property : (entity_id : Uuid) (entity_type key : Text) → Request
  unset_properties : (entity_id : Uuid) (entity_type : Text) → Request

module _ {Value : Type 0} (platform : Platform Value) where
  -- the actions of a closure, applied to the snapshot it was given
  unfoldable pub committed : {A : Type 0} → Build Value A → Snapshot → Result Snapshot
  committed {A} build s = build s >>= λ (r : List _ × A). apply_all platform s r.0

  -- a closure, its answer left out
  unfoldable pub silent : {A : Type 0} → Build Value A → Build Value Unit
  silent {A} build s = build s >>= λ (r : List _ × A). ok (r.0, tt)

  unfoldable pub closure : Request → Build Value Unit
  unfolding silent
  closure (Request.create_catalog id name comment owner created_by storage_root created_at) =
      silent (Catalog.create platform id name comment owner created_by storage_root created_at)
  closure (Request.update_catalog name new_name comment owner updated_by updated_at) =
      silent (Catalog.update platform name new_name comment owner updated_by updated_at)
  closure (Request.delete_catalog name) = silent (Catalog.delete platform name)
  closure
        (Request.create_schema id catalog_id name comment owner created_by storage_root
          created_at) =
      silent
        (Schema.create platform id catalog_id name comment owner created_by storage_root created_at)
  closure (Request.update_schema id new_name comment owner updated_by updated_at) =
      silent (Schema.update platform id new_name comment owner updated_by updated_at)
  closure (Request.delete_schema id) = silent (Schema.delete platform id)
  closure (Request.create_volume row) = silent (Volume.create platform row)
  closure (Request.update_volume id new_name comment owner updated_at updated_by) =
      silent (Volume.update platform id new_name comment owner updated_at updated_by)
  closure (Request.delete_volume id) = silent (Volume.delete platform id)
  closure (Request.create_user id name email external_id state created_at) =
      silent (User.create platform id name email external_id state created_at)
  closure (Request.update_user id new_name email state updated_at) =
      silent (User.update platform id new_name email state updated_at)
  closure (Request.delete_user id) = silent (User.delete platform id)
  closure (Request.create_credential row) = silent (Credential.create platform row)
  closure (Request.update_credential id new_name comment owner credential updated_at updated_by) =
      silent (Credential.update platform id new_name comment owner credential updated_at updated_by)
  closure (Request.delete_credential name) = silent (Credential.delete platform name)
  closure (Request.create_external_location row) = silent (ExternalLocation.create platform row)
  closure
        (Request.update_external_location id new_name url comment owner credential_id updated_at
          updated_by) =
      silent (
        ExternalLocation.update platform id new_name url comment owner credential_id updated_at
          updated_by)
  closure (Request.delete_external_location name) = silent (ExternalLocation.delete platform name)
  closure (Request.create_model row) = silent (Model.create_model platform row)
  closure (Request.update_model id new_name comment owner updated_at updated_by) =
      silent (Model.update_model platform id new_name comment owner updated_at updated_by)
  closure (Request.create_table row) = silent (Table.create platform row)
  closure (Request.patch_table id count comment iceberg_version iceberg_timestamp updated_at) =
      silent (Table.patch platform id count comment iceberg_version iceberg_timestamp updated_at)
  closure (Request.rename_table id new_name updated_at) =
      silent (Table.rename platform id new_name updated_at)
  closure (Request.delete_columns table_id) = silent (Table.delete_columns platform table_id)
  closure (Request.delete_table id) = silent (Table.delete platform id)
  closure (Request.insert_rule fresh rule) = silent (Casbin.insert platform fresh rule)
  closure (Request.delete_rule rule) = silent (Casbin.delete platform rule)
  closure (Request.delete_rules rules) = silent (Casbin.delete_many platform rules)
  closure Request.clear_rules = silent (Casbin.clear platform)
  closure (Request.init_metastore fresh name) = silent (Metastore.get_or_init platform fresh name)
  closure (Request.create_model_version row) = silent (Version.create_version platform row)
  closure (Request.delete_model id) = silent (Version.delete_model platform id)
  closure (Request.delete_model_version model_id version) =
      silent (Version.delete_version platform model_id version)
  closure (Request.update_model_version id comment updated_at updated_by) =
      silent (Version.update_version platform id comment updated_at updated_by)
  closure (Request.set_model_version_status id status) =
      silent (Version.set_version_status platform id status)
  closure (Request.set_max_version id next) = silent (Version.set_max_version platform id next)
  closure (Request.create_function row) = silent (Function.create platform row)
  closure (Request.insert_params params) = silent (Function.insert_params platform params)
  closure (Request.delete_function id) = silent (Function.delete platform id)
  closure (Request.create_staging_table row) = silent (Staging.create platform row)
  closure (Request.commit_staging_table id committed_at) =
      silent (Staging.mark_committed platform id committed_at)
  closure (Request.set_property fresh entity_id entity_type key value) =
      silent (Property.set platform fresh entity_id entity_type key value)
  closure (Request.unset_property entity_id entity_type key) =
      silent (Property.delete_key platform entity_id entity_type key)
  closure (Request.unset_properties entity_id entity_type) =
      silent (Property.delete_for_entity platform entity_id entity_type)

  unfoldable pub perform : Request → Snapshot → Result Snapshot
  unfolding committed closure
  perform request = committed (closure request)

  -- what a request that fails leaves
  abbrev pub or_unchanged : Snapshot → Result Snapshot → Snapshot
  or_unchanged s (ok t) = t
  or_unchanged s (err e) = s

  unfoldable pub run_requests : List Request → Snapshot → Snapshot
  run_requests [] s = s
  run_requests (request ∷ requests) s = run_requests requests (or_unchanged s (perform request s))
