-- ===== src/Store/NaturalKey.antt =====
-- `natural_key_for` and `pad_i64` of crates/uc-db/src/store/mod.rs.
pub mod Order
pub mod Names
use unity_catalog.Prelude.{ℕ, ◌-◌, ◌^◌, ℤ, pos, negsuc, Option, none, some, List, [], ◌∷◌, ◌++◌}
use unity_catalog.Prelude.Text.{Text, bytes}
use unity_catalog.Prelude.Decimal.{padded}
use unity_catalog.Models.{CasbinRule}
use unity_catalog.Store.Platform.{Platform}
use unity_catalog.Store.Row.{Row}

abbrev pub nul : ℕ
nul = 0

abbrev pub i64_max : ℕ
i64_max = 2 ^ 63 - 1

-- a sign byte and nineteen digits; `i64::MAX + v + 1` for a negative `v`
unfoldable pub pad_i64 : ℤ → Text
pad_i64 (negsuc n) = b'-' ∷ padded 19 (i64_max - n)
pad_i64 (pos n) = b'0' ∷ padded 19 n

-- `[a, b, …].join("\0")`
unfoldable pub join_nul : List Text → Text
join_nul [] = []
join_nul (t ∷ []) = t
join_nul (t ∷ u ∷ ts) = t ++ (nul ∷ join_nul (u ∷ ts))

-- `[ptype, v0, …, v5].join("\0")`, also `nk` of crates/uc-db/src/repos/casbin.rs
unfoldable pub rule_key : CasbinRule → Text
rule_key r = join_nul (r.ptype ∷ r.v0 ∷ r.v1 ∷ r.v2 ∷ r.v3 ∷ r.v4 ∷ r.v5 ∷ [])

module _ {Value : Type 0} (platform : Platform Value) where
  -- `format!("{parent}\0{name}")`, also the `nk` of the repositories of children
  unfoldable pub child_key : ℕ → Text → Text
  child_key parent name = platform.uuid_text parent ++ (nul ∷ name)

  -- `format!("{entity_id}\0{entity_type}\0{key}")`
  unfoldable pub property_key : ℕ → Text → Text → Text
  property_key entity_id entity_type key =
      platform.uuid_text entity_id ++ (nul ∷ (entity_type ++ (nul ∷ key)))

  unfoldable pub natural_key_for : Row → Option Text
  natural_key_for (Row.catalog r) = some r.name
  natural_key_for (Row.schema r) = some (child_key r.catalog_id r.name)
  natural_key_for (Row.table r) = some (child_key r.schema_id r.name)
  natural_key_for (Row.volume r) = some (child_key r.schema_id r.name)
  natural_key_for (Row.function r) = some (child_key r.schema_id r.name)
  natural_key_for (Row.registered_model r) = some (child_key r.schema_id r.name)
  natural_key_for (Row.column r) = some (child_key r.table_id (pad_i64 r.ordinal_position))
  natural_key_for (Row.property r) = some (property_key r.entity_id r.entity_type r.property_key)
  natural_key_for (Row.user r) = some r.name
  natural_key_for (Row.credential r) = some r.name
  natural_key_for (Row.external_location r) = some r.name
  natural_key_for (Row.casbin_rule r) = some (rule_key r)
  natural_key_for (Row.metastore r) = none
  natural_key_for (Row.function_parameter r) = none
  natural_key_for (Row.model_version r) = none
  natural_key_for (Row.staging_table r) = none
