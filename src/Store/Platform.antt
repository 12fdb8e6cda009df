-- ===== src/Store/Platform.antt =====
-- What the store takes from crates that are not part of the repository: serde_json's conversion of
-- a row to a `Value` and back, and the hyphenated text of a UUID.
use unity_catalog.Prelude.{Option, some, All, ◌≡◌, ◌≢◌}
use unity_catalog.Prelude.Text.{Text}
use unity_catalog.Models.{
  Uuid, MetastoreRow, CatalogRow, SchemaRow, TableRow, ColumnRow, VolumeRow, FunctionRow,
  FunctionParamRow, RegisteredModelRow, ModelVersionRow, StagingTableRow, UserRow, CredentialRow,
  ExternalLocationRow, PropertyRow, CasbinRule,
}
use unity_catalog.Store.Kind.{EntityKind}

-- the struct that a kind of entity is stored as
abbrev pub RowOf : EntityKind → Type 0
RowOf EntityKind.metastore = MetastoreRow
RowOf EntityKind.catalog = CatalogRow
RowOf EntityKind.schema = SchemaRow
RowOf EntityKind.table = TableRow
RowOf EntityKind.column = ColumnRow
RowOf EntityKind.volume = VolumeRow
RowOf EntityKind.function = FunctionRow
RowOf EntityKind.function_parameter = FunctionParamRow
RowOf EntityKind.registered_model = RegisteredModelRow
RowOf EntityKind.model_version = ModelVersionRow
RowOf EntityKind.staging_table = StagingTableRow
RowOf EntityKind.user = UserRow
RowOf EntityKind.credential = CredentialRow
RowOf EntityKind.external_location = ExternalLocationRow
RowOf EntityKind.property = PropertyRow
RowOf EntityKind.casbin_rule = CasbinRule

pub record Platform (Value : Type 0) : Type 0 where
  -- `serde_json::to_value(row)` and `serde_json::from_value::<T>(value)`; `none` is an error
  pub to_value : (k : EntityKind) → RowOf k → Option Value
  pub from_value : (k : EntityKind) → Value → Option (RowOf k)
  -- derived `Serialize` and `Deserialize` of one struct agree
  pub from_value-to_value :
      (k : EntityKind) (r : RowOf k) (v : Value) → to_value k r ≡ some v → from_value k v ≡ some r
  -- `Uuid::to_string`: 36 hexadecimal digits and hyphens, another text for another UUID
  pub uuid_text : Uuid → Text
  pub uuid_text_injective : (a b : Uuid) → uuid_text a ≡ uuid_text b → a ≡ b
  pub uuid_text_no_nul : (a : Uuid) → All (λ c. c ≢ 0) (uuid_text a)
