-- ===== src/Repos/Requests/Keeps.antt =====
-- Any run of the requests keeps the snapshot's invariant.
use unity_catalog.Prelude.{List, [], ◌∷◌, Result, ok, err, >>=-eq-ok, ◌≡◌, refl, arith}
use unity_catalog.Store.Platform.{Platform}
use unity_catalog.Store.Snapshot.{Snapshot}
use unity_catalog.Store.Valid.{IsValid}
use unity_catalog.Repos.Build.{Build, Keeps}
use unity_catalog.Repos.Catalog.Keeps as CatalogKeeps
use unity_catalog.Repos.Schema.Keeps as SchemaKeeps
use unity_catalog.Repos.Volume.Keeps as VolumeKeeps
use unity_catalog.Repos.User.Keeps as UserKeeps
use unity_catalog.Repos.Credential.Keeps as CredentialKeeps
use unity_catalog.Repos.ExternalLocation.Keeps as ExternalLocationKeeps
use unity_catalog.Repos.Model.Keeps as ModelKeeps
use unity_catalog.Repos.Table.Keeps as TableKeeps
use unity_catalog.Repos.Casbin.Keeps as CasbinKeeps
use unity_catalog.Repos.Metastore.Keeps as MetastoreKeeps
use unity_catalog.Repos.Version.Keeps as VersionKeeps
use unity_catalog.Repos.Function.Keeps as FunctionKeeps
use unity_catalog.Repos.Staging.Keeps as StagingKeeps
use unity_catalog.Repos.Property.Keeps as PropertyKeeps
use unity_catalog.Repos.Requests.{
  Request, silent, closure, committed, perform, run_requests, or_unchanged,
}

module _ {Value : Type 0} (platform : Platform Value) where
  committed-IsValid :
      {A : Type 0} (build : Build Value A)
      → Keeps platform build
      → (s t : Snapshot) → IsValid platform s
      → committed platform build s ≡ ok t
      → IsValid platform t
  unfolding committed
  committed-IsValid build keeps s t v e =
      let (r, b, a) = >>=-eq-ok (build s) _ e in keeps s t r.0 r.1 v b a

  silent-Keeps :
      {A : Type 0} (build : Build Value A)
      → Keeps platform build
      → Keeps platform (silent platform build)
  unfolding silent
  silent-Keeps build keeps s t acts out v h e =
      let (r, b, q) = >>=-eq-ok (build s) _ h in
      let same : r.0 ≡ acts = ground arith in keeps s t r.0 r.1 v b (rw same e)

  -- Every request keeps the invariant.
  pub closure-Keeps : (request : Request) → Keeps platform (closure platform request)
  unfolding closure
  closure-Keeps (Request.create_catalog id name comment owner created_by storage_root created_at) =
      silent-Keeps _ (
        CatalogKeeps.create-Keeps platform id name comment owner created_by storage_root created_at)
  closure-Keeps (Request.update_catalog name new_name comment owner updated_by updated_at) =
      silent-Keeps _
        (CatalogKeeps.update-Keeps platform name new_name comment owner updated_by updated_at)
  closure-Keeps (Request.delete_catalog name) =
      silent-Keeps _ (CatalogKeeps.delete-Keeps platform name)
  closure-Keeps
        (Request.create_schema id catalog_id name comment owner created_by storage_root
          created_at) =
      silent-Keeps _ (
        SchemaKeeps.create-Keeps platform id catalog_id name comment owner created_by storage_root
          created_at)
  closure-Keeps (Request.update_schema id new_name comment owner updated_by updated_at) =
      silent-Keeps _
        (SchemaKeeps.update-Keeps platform id new_name comment owner updated_by updated_at)
  closure-Keeps (Request.delete_schema id) = silent-Keeps _ (SchemaKeeps.delete-Keeps platform id)
  closure-Keeps (Request.create_volume row) = silent-Keeps _ (VolumeKeeps.create-Keeps platform row)
  closure-Keeps (Request.update_volume id new_name comment owner updated_at updated_by) =
      silent-Keeps _
        (VolumeKeeps.update-Keeps platform id new_name comment owner updated_at updated_by)
  closure-Keeps (Request.delete_volume id) = silent-Keeps _ (VolumeKeeps.delete-Keeps platform id)
  closure-Keeps (Request.create_user id name email external_id state created_at) =
      silent-Keeps _ (UserKeeps.create-Keeps platform id name email external_id state created_at)
  closure-Keeps (Request.update_user id new_name email state updated_at) =
      silent-Keeps _ (UserKeeps.update-Keeps platform id new_name email state updated_at)
  closure-Keeps (Request.delete_user id) = silent-Keeps _ (UserKeeps.delete-Keeps platform id)
  closure-Keeps (Request.create_credential row) =
      silent-Keeps _ (CredentialKeeps.create-Keeps platform row)
  closure-Keeps
        (Request.update_credential id new_name comment owner credential updated_at updated_by) =
      silent-Keeps _ (
        CredentialKeeps.update-Keeps platform id new_name comment owner credential updated_at
          updated_by)
  closure-Keeps (Request.delete_credential name) =
      silent-Keeps _ (CredentialKeeps.delete-Keeps platform name)
  closure-Keeps (Request.create_external_location row) =
      silent-Keeps _ (ExternalLocationKeeps.create-Keeps platform row)
  closure-Keeps
        (Request.update_external_location id new_name url comment owner credential_id updated_at
          updated_by) =
      silent-Keeps _ (
        ExternalLocationKeeps.update-Keeps platform id new_name url comment owner credential_id
          updated_at updated_by)
  closure-Keeps (Request.delete_external_location name) =
      silent-Keeps _ (ExternalLocationKeeps.delete-Keeps platform name)
  closure-Keeps (Request.create_model row) =
      silent-Keeps _ (ModelKeeps.create_model-Keeps platform row)
  closure-Keeps (Request.update_model id new_name comment owner updated_at updated_by) =
      silent-Keeps _
        (ModelKeeps.update_model-Keeps platform id new_name comment owner updated_at updated_by)
  closure-Keeps (Request.create_table row) = silent-Keeps _ (TableKeeps.create-Keeps platform row)
  closure-Keeps
        (Request.patch_table id count comment iceberg_version iceberg_timestamp updated_at) =
      silent-Keeps _ (
        TableKeeps.patch-Keeps platform id count comment iceberg_version iceberg_timestamp
          updated_at)
  closure-Keeps (Request.rename_table id new_name updated_at) =
      silent-Keeps _ (TableKeeps.rename-Keeps platform id new_name updated_at)
  closure-Keeps (Request.delete_columns table_id) =
      silent-Keeps _ (TableKeeps.delete_columns-Keeps platform table_id)
  closure-Keeps (Request.delete_table id) = silent-Keeps _ (TableKeeps.delete-Keeps platform id)
  closure-Keeps (Request.insert_rule fresh rule) =
      silent-Keeps _ (CasbinKeeps.insert-Keeps platform fresh rule)
  closure-Keeps (Request.delete_rule rule) = silent-Keeps _ (CasbinKeeps.delete-Keeps platform rule)
  closure-Keeps (Request.delete_rules rules) =
      silent-Keeps _ (CasbinKeeps.delete_many-Keeps platform rules)
  closure-Keeps Request.clear_rules = silent-Keeps _ (CasbinKeeps.clear-Keeps platform)
  closure-Keeps (Request.init_metastore fresh name) =
      silent-Keeps _ (MetastoreKeeps.get_or_init-Keeps platform fresh name)
  closure-Keeps (Request.create_model_version row) =
      silent-Keeps _ (VersionKeeps.create_version-Keeps platform row)
  closure-Keeps (Request.delete_model id) =
      silent-Keeps _ (VersionKeeps.delete_model-Keeps platform id)
  closure-Keeps (Request.delete_model_version model_id version) =
      silent-Keeps _ (VersionKeeps.delete_version-Keeps platform model_id version)
  closure-Keeps (Request.update_model_version id comment updated_at updated_by) =
      silent-Keeps _ (VersionKeeps.update_version-Keeps platform id comment updated_at updated_by)
  closure-Keeps (Request.set_model_version_status id status) =
      silent-Keeps _ (VersionKeeps.set_version_status-Keeps platform id status)
  closure-Keeps (Request.set_max_version id next) =
      silent-Keeps _ (VersionKeeps.set_max_version-Keeps platform id next)
  closure-Keeps (Request.create_function row) =
      silent-Keeps _ (FunctionKeeps.create-Keeps platform row)
  closure-Keeps (Request.insert_params params) =
      silent-Keeps _ (FunctionKeeps.insert_params-Keeps platform params)
  closure-Keeps (Request.delete_function id) =
      silent-Keeps _ (FunctionKeeps.delete-Keeps platform id)
  closure-Keeps (Request.create_staging_table row) =
      silent-Keeps _ (StagingKeeps.create-Keeps platform row)
  closure-Keeps (Request.commit_staging_table id committed_at) =
      silent-Keeps _ (StagingKeeps.mark_committed-Keeps platform id committed_at)
  closure-Keeps (Request.set_property fresh entity_id entity_type key value) =
      silent-Keeps _ (PropertyKeeps.set-Keeps platform fresh entity_id entity_type key value)
  closure-Keeps (Request.unset_property entity_id entity_type key) =
      silent-Keeps _ (PropertyKeeps.delete_key-Keeps platform entity_id entity_type key)
  closure-Keeps (Request.unset_properties entity_id entity_type) =
      silent-Keeps _ (PropertyKeeps.delete_for_entity-Keeps platform entity_id entity_type)

  perform-IsValid :
      (request : Request) (s t : Snapshot)
      → IsValid platform s
      → perform platform request s ≡ ok t
      → IsValid platform t
  unfolding perform
  perform-IsValid request s t v e =
      committed-IsValid (closure platform request) (closure-Keeps request) s t v e

  step-IsValid :
      (s : Snapshot) (r : Result Snapshot)
      → IsValid platform s
      → ((t : Snapshot) → r ≡ ok t → IsValid platform t)
      → IsValid platform (or_unchanged platform s r)
  step-IsValid s (ok t) v f = f t refl
  step-IsValid s (err e) v f = v

  -- From a snapshot that satisfies the invariant, any sequence of the requests of Request (which has
  -- neither `insert_columns`, `find_or_create_by_external_id` nor `Property.replace`), each of which may
  -- fail, leads to one that satisfies it: the index is coherent with the rows, every row
  -- that has a natural key is indexed under it, and a row stands under its own id.
  pub run_requests-IsValid :
      (requests : List Request) (s : Snapshot)
      → IsValid platform s
      → IsValid platform (run_requests platform requests s)
  unfolding run_requests
  run_requests-IsValid [] s v = v
  run_requests-IsValid (request ∷ requests) s v =
      run_requests-IsValid requests (or_unchanged platform s (perform platform request s))
        (step-IsValid s (perform platform request s) v (λ t e. perform-IsValid request s t v e))
