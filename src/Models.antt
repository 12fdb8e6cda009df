-- ===== src/Models.antt =====
-- The row structs of crates/uc-db/src/models/. A `Uuid` is its 128-bit value, whose order is the
-- order of UUIDs; `i64`, `i32` and `i16` fields are integers.
pub mod Policy
use unity_catalog.Prelude.{ℕ, ℤ, Bool, Option}
use unity_catalog.Prelude.Text.{Text}

abbrev pub Uuid : Type 0
Uuid = ℕ

pub record MetastoreRow : Type 0 where
  pub id : Uuid
  pub name : Text

pub record CatalogRow : Type 0 where
  pub id : Uuid
  pub name : Text
  pub comment : Option Text
  pub owner : Option Text
  pub created_at : ℤ
  pub created_by : Option Text
  pub updated_at : Option ℤ
  pub updated_by : Option Text
  pub storage_root : Option Text
  pub storage_location : Option Text

pub record SchemaRow : Type 0 where
  pub id : Uuid
  pub catalog_id : Uuid
  pub name : Text
  pub comment : Option Text
  pub owner : Option Text
  pub created_at : ℤ
  pub created_by : Option Text
  pub updated_at : Option ℤ
  pub updated_by : Option Text
  pub storage_root : Option Text
  pub storage_location : Option Text

pub record TableRow : Type 0 where
  pub id : Uuid
  pub schema_id : Uuid
  pub name : Text
  pub type_ : Text
  pub owner : Option Text
  pub created_at : ℤ
  pub created_by : Option Text
  pub updated_at : Option ℤ
  pub updated_by : Option Text
  pub data_source_format : Option Text
  pub comment : Option Text
  pub url : Option Text
  pub column_count : Option ℤ
  pub view_definition : Option Text
  pub uniform_iceberg_metadata_location : Option Text
  pub uniform_iceberg_converted_delta_version : Option ℤ
  pub uniform_iceberg_converted_delta_timestamp : Option ℤ

pub record ColumnRow : Type 0 where
  pub id : Uuid
  pub table_id : Uuid
  pub name : Text
  pub ordinal_position : ℤ
  pub type_text : Text
  pub type_json : Text
  pub type_name : Text
  pub type_precision : Option ℤ
  pub type_scale : Option ℤ
  pub type_interval_type : Option Text
  pub nullable : Bool
  pub comment : Option Text
  pub partition_index : Option ℤ

pub record VolumeRow : Type 0 where
  pub id : Uuid
  pub schema_id : Uuid
  pub name : Text
  pub comment : Option Text
  pub storage_location : Option Text
  pub owner : Option Text
  pub created_at : ℤ
  pub created_by : Option Text
  pub updated_at : Option ℤ
  pub updated_by : Option Text
  pub volume_type : Text

pub record FunctionRow : Type 0 where
  pub id : Uuid
  pub schema_id : Uuid
  pub name : Text
  pub comment : Option Text
  pub owner : Option Text
  pub created_at : Option ℤ
  pub created_by : Option Text
  pub updated_at : Option ℤ
  pub updated_by : Option Text
  pub data_type : Option Text
  pub full_data_type : Option Text
  pub external_language : Option Text
  pub is_deterministic : Option Bool
  pub is_null_call : Option Bool
  pub parameter_style : Option Text
  pub routine_body : Option Text
  pub routine_definition : Option Text
  pub sql_data_access : Option Text
  pub security_type : Option Text
  pub specific_name : Option Text

pub record FunctionParamRow : Type 0 where
  pub id : Uuid
  pub function_id : Uuid
  pub name : Text
  pub input_or_return : ℤ
  pub ordinal_position : ℤ
  pub type_text : Option Text
  pub type_json : Option Text
  pub type_name : Option Text
  pub type_precision : Option ℤ
  pub type_scale : Option ℤ
  pub type_interval_type : Option Text
  pub comment : Option Text
  pub parameter_mode : Option Text
  pub parameter_default : Option Text

pub record RegisteredModelRow : Type 0 where
  pub id : Uuid
  pub schema_id : Uuid
  pub name : Text
  pub owner : Option Text
  pub created_at : Option ℤ
  pub created_by : Option Text
  pub updated_at : Option ℤ
  pub updated_by : Option Text
  pub comment : Option Text
  pub url : Option Text
  pub max_version_number : Option ℤ

pub record ModelVersionRow : Type 0 where
  pub id : Uuid
  pub registered_model_id : Uuid
  pub version : Option ℤ
  pub source : Option Text
  pub run_id : Option Text
  pub status : Option Text
  pub owner : Option Text
  pub created_at : Option ℤ
  pub created_by : Option Text
  pub updated_at : Option ℤ
  pub updated_by : Option Text
  pub comment : Option Text
  pub url : Option Text

pub record StagingTableRow : Type 0 where
  pub id : Uuid
  pub schema_id : Uuid
  pub name : Text
  pub staging_location : Text
  pub created_at : ℤ
  pub created_by : Option Text
  pub accessed_at : ℤ
  pub stage_committed : Bool
  pub stage_committed_at : Option ℤ
  pub purge_state : ℤ
  pub num_cleanup_retries : ℤ
  pub last_cleanup_at : Option ℤ

pub record UserRow : Type 0 where
  pub id : Uuid
  pub name : Text
  pub email : Option Text
  pub external_id : Option Text
  pub state : Option Text
  pub created_at : Option ℤ
  pub updated_at : Option ℤ
  pub picture_url : Option Text

pub record CredentialRow : Type 0 where
  pub id : Uuid
  pub name : Text
  pub credential_type : Text
  pub credential : Text
  pub purpose : Text
  pub comment : Option Text
  pub owner : Option Text
  pub created_at : ℤ
  pub created_by : Option Text
  pub updated_at : Option ℤ
  pub updated_by : Option Text

pub record ExternalLocationRow : Type 0 where
  pub id : Uuid
  pub name : Text
  pub url : Text
  pub comment : Option Text
  pub owner : Option Text
  pub credential_id : Uuid
  pub created_at : Option ℤ
  pub created_by : Option Text
  pub updated_at : Option ℤ
  pub updated_by : Option Text

pub record PropertyRow : Type 0 where
  pub id : Uuid
  pub entity_id : Uuid
  pub entity_type : Text
  pub property_key : Text
  pub property_value : Text

pub record CasbinRule : Type 0 where
  pub ptype : Text
  pub v0 : Text
  pub v1 : Text
  pub v2 : Text
  pub v3 : Text
  pub v4 : Text
  pub v5 : Text

pub record DeltaCommitRow : Type 0 where
  pub id : Uuid
  pub table_id : Uuid
  pub commit_version : ℤ
  pub commit_filename : Text
  pub commit_filesize : ℤ
  pub commit_file_modification_timestamp : ℤ
  pub commit_timestamp : ℤ
  pub is_backfilled_latest_commit : Bool
