-- ===== src/Store/Row.antt =====
-- crates/uc-db/src/store/row.rs: the typed row, its JSON body and back.
use unity_catalog.Prelude.{Option, none, some, Result, ok, internal, ok_or, map_ok, ◌≡◌}
use unity_catalog.Models.{
  Uuid, MetastoreRow, CatalogRow, SchemaRow, TableRow, ColumnRow, VolumeRow, FunctionRow,
  FunctionParamRow, RegisteredModelRow, ModelVersionRow, StagingTableRow, UserRow, CredentialRow,
  ExternalLocationRow, PropertyRow, CasbinRule,
}
use unity_catalog.Store.Kind.{EntityKind}
use unity_catalog.Store.Platform.{Platform, RowOf}

pub data Row : Type 0 where
  metastore : MetastoreRow → Row
  catalog : CatalogRow → Row
  schema : SchemaRow → Row
  table : TableRow → Row
  column : ColumnRow → Row
  volume : VolumeRow → Row
  function : FunctionRow → Row
  function_parameter : FunctionParamRow → Row
  registered_model : RegisteredModelRow → Row
  model_version : ModelVersionRow → Row
  staging_table : StagingTableRow → Row
  user : UserRow → Row
  credential : CredentialRow → Row
  external_location : ExternalLocationRow → Row
  property : PropertyRow → Row
  casbin_rule : CasbinRule → Row

-- `Row::kind`
unfoldable pub kind : Row → EntityKind
kind (Row.metastore r) = EntityKind.metastore
kind (Row.catalog r) = EntityKind.catalog
kind (Row.schema r) = EntityKind.schema
kind (Row.table r) = EntityKind.table
kind (Row.column r) = EntityKind.column
kind (Row.volume r) = EntityKind.volume
kind (Row.function r) = EntityKind.function
kind (Row.function_parameter r) = EntityKind.function_parameter
kind (Row.registered_model r) = EntityKind.registered_model
kind (Row.model_version r) = EntityKind.model_version
kind (Row.staging_table r) = EntityKind.staging_table
kind (Row.user r) = EntityKind.user
kind (Row.credential r) = EntityKind.credential
kind (Row.external_location r) = EntityKind.external_location
kind (Row.property r) = EntityKind.property
kind (Row.casbin_rule r) = EntityKind.casbin_rule

-- the row of a struct, by its kind
unfoldable pub row_of : (k : EntityKind) → RowOf k → Row
row_of EntityKind.metastore r = Row.metastore r
row_of EntityKind.catalog r = Row.catalog r
row_of EntityKind.schema r = Row.schema r
row_of EntityKind.table r = Row.table r
row_of EntityKind.column r = Row.column r
row_of EntityKind.volume r = Row.volume r
row_of EntityKind.function r = Row.function r
row_of EntityKind.function_parameter r = Row.function_parameter r
row_of EntityKind.registered_model r = Row.registered_model r
row_of EntityKind.model_version r = Row.model_version r
row_of EntityKind.staging_table r = Row.staging_table r
row_of EntityKind.user r = Row.user r
row_of EntityKind.credential r = Row.credential r
row_of EntityKind.external_location r = Row.external_location r
row_of EntityKind.property r = Row.property r
row_of EntityKind.casbin_rule r = Row.casbin_rule r

-- The `id` field of a row. Casbin rules carry none.
unfoldable pub row_id : Row → Option Uuid
row_id (Row.metastore r) = some r.id
row_id (Row.catalog r) = some r.id
row_id (Row.schema r) = some r.id
row_id (Row.table r) = some r.id
row_id (Row.column r) = some r.id
row_id (Row.volume r) = some r.id
row_id (Row.function r) = some r.id
row_id (Row.function_parameter r) = some r.id
row_id (Row.registered_model r) = some r.id
row_id (Row.model_version r) = some r.id
row_id (Row.staging_table r) = some r.id
row_id (Row.user r) = some r.id
row_id (Row.credential r) = some r.id
row_id (Row.external_location r) = some r.id
row_id (Row.property r) = some r.id
row_id (Row.casbin_rule r) = none

module _ {Value : Type 0} (platform : Platform Value) where
  -- the `parse` inside `from_body`: a body that serde refuses is an internal error
  parse : (k : EntityKind) → Value → Result (RowOf k)
  parse k body = ok_or internal (platform.from_value k body)

  unfoldable pub from_body : EntityKind → Value → Result Row
  unfolding parse
  from_body EntityKind.metastore body = map_ok Row.metastore (parse EntityKind.metastore body)
  from_body EntityKind.catalog body = map_ok Row.catalog (parse EntityKind.catalog body)
  from_body EntityKind.schema body = map_ok Row.schema (parse EntityKind.schema body)
  from_body EntityKind.table body = map_ok Row.table (parse EntityKind.table body)
  from_body EntityKind.column body = map_ok Row.column (parse EntityKind.column body)
  from_body EntityKind.volume body = map_ok Row.volume (parse EntityKind.volume body)
  from_body EntityKind.function body = map_ok Row.function (parse EntityKind.function body)
  from_body EntityKind.function_parameter body =
      map_ok Row.function_parameter (parse EntityKind.function_parameter body)
  from_body EntityKind.registered_model body =
      map_ok Row.registered_model (parse EntityKind.registered_model body)
  from_body EntityKind.model_version body =
      map_ok Row.model_version (parse EntityKind.model_version body)
  from_body EntityKind.staging_table body =
      map_ok Row.staging_table (parse EntityKind.staging_table body)
  from_body EntityKind.user body = map_ok Row.user (parse EntityKind.user body)
  from_body EntityKind.credential body = map_ok Row.credential (parse EntityKind.credential body)
  from_body EntityKind.external_location body =
      map_ok Row.external_location (parse EntityKind.external_location body)
  from_body EntityKind.property body = map_ok Row.property (parse EntityKind.property body)
  from_body EntityKind.casbin_rule body = map_ok Row.casbin_rule (parse EntityKind.casbin_rule body)

  -- `Row::to_body`
  unfoldable pub to_body : Row → Result Value
  to_body (Row.metastore r) = ok_or internal (platform.to_value EntityKind.metastore r)
  to_body (Row.catalog r) = ok_or internal (platform.to_value EntityKind.catalog r)
  to_body (Row.schema r) = ok_or internal (platform.to_value EntityKind.schema r)
  to_body (Row.table r) = ok_or internal (platform.to_value EntityKind.table r)
  to_body (Row.column r) = ok_or internal (platform.to_value EntityKind.column r)
  to_body (Row.volume r) = ok_or internal (platform.to_value EntityKind.volume r)
  to_body (Row.function r) = ok_or internal (platform.to_value EntityKind.function r)
  to_body (Row.function_parameter r) =
      ok_or internal (platform.to_value EntityKind.function_parameter r)
  to_body (Row.registered_model r) =
      ok_or internal (platform.to_value EntityKind.registered_model r)
  to_body (Row.model_version r) = ok_or internal (platform.to_value EntityKind.model_version r)
  to_body (Row.staging_table r) = ok_or internal (platform.to_value EntityKind.staging_table r)
  to_body (Row.user r) = ok_or internal (platform.to_value EntityKind.user r)
  to_body (Row.credential r) = ok_or internal (platform.to_value EntityKind.credential r)
  to_body (Row.external_location r) =
      ok_or internal (platform.to_value EntityKind.external_location r)
  to_body (Row.property r) = ok_or internal (platform.to_value EntityKind.property r)
  to_body (Row.casbin_rule r) = ok_or internal (platform.to_value EntityKind.casbin_rule r)

  -- What is written for a row is read back as that row.
  pub from_body-to_value :
      (k : EntityKind) (r : RowOf k) (body : Value)
      → platform.to_value k r ≡ some body
      → from_body k body ≡ ok (row_of k r)
  unfolding from_body row_of
  from_body-to_value EntityKind.metastore r body h =
      rw (platform.from_value-to_value EntityKind.metastore r body h)
  from_body-to_value EntityKind.catalog r body h =
      rw (platform.from_value-to_value EntityKind.catalog r body h)
  from_body-to_value EntityKind.schema r body h =
      rw (platform.from_value-to_value EntityKind.schema r body h)
  from_body-to_value EntityKind.table r body h =
      rw (platform.from_value-to_value EntityKind.table r body h)
  from_body-to_value EntityKind.column r body h =
      rw (platform.from_value-to_value EntityKind.column r body h)
  from_body-to_value EntityKind.volume r body h =
      rw (platform.from_value-to_value EntityKind.volume r body h)
  from_body-to_value EntityKind.function r body h =
      rw (platform.from_value-to_value EntityKind.function r body h)
  from_body-to_value EntityKind.function_parameter r body h =
      rw (platform.from_value-to_value EntityKind.function_parameter r body h)
  from_body-to_value EntityKind.registered_model r body h =
      rw (platform.from_value-to_value EntityKind.registered_model r body h)
  from_body-to_value EntityKind.model_version r body h =
      rw (platform.from_value-to_value EntityKind.model_version r body h)
  from_body-to_value EntityKind.staging_table r body h =
      rw (platform.from_value-to_value EntityKind.staging_table r body h)
  from_body-to_value EntityKind.user r body h =
      rw (platform.from_value-to_value EntityKind.user r body h)
  from_body-to_value EntityKind.credential r body h =
      rw (platform.from_value-to_value EntityKind.credential r body h)
  from_body-to_value EntityKind.external_location r body h =
      rw (platform.from_value-to_value EntityKind.external_location r body h)
  from_body-to_value EntityKind.property r body h =
      rw (platform.from_value-to_value EntityKind.property r body h)
  from_body-to_value EntityKind.casbin_rule r body h =
      rw (platform.from_value-to_value EntityKind.casbin_rule r body h)
