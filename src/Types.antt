-- ===== src/Types.antt =====
-- The privileges and the URI schemes of crates/uc-types/src/lib.rs.
pub mod Privileges
pub mod Hierarchy
use unity_catalog.Prelude.{
  ℕ, ◌+◌, Bool, true, false, ◌&&◌, ◌||◌, Option, none, some, List, [], ◌∷◌, leb, map, if◌then◌else◌,
}
use unity_catalog.Prelude.Text.{Text, bytes, starts_with}
use unity_catalog.Prelude.Order.{eqb, bytes_ord}

pub data Privilege : Type 0 where
  owner all_privileges create_catalog use_catalog create_schema use_schema : Privilege
  create_table select modify create_function execute create_volume : Privilege
  read_volume create_model create_external_location read_files write_files create_external_table :
      Privilege
  create_external_volume create_managed_storage create_storage_credential : Privilege

-- the string of the privilege in a policy rule
unfoldable pub as_casbin_str : Privilege → Text
as_casbin_str Privilege.owner = bytes "OWNER"
as_casbin_str Privilege.all_privileges = bytes "ALL_PRIVILEGES"
as_casbin_str Privilege.create_catalog = bytes "CREATE_CATALOG"
as_casbin_str Privilege.use_catalog = bytes "USE_CATALOG"
as_casbin_str Privilege.create_schema = bytes "CREATE_SCHEMA"
as_casbin_str Privilege.use_schema = bytes "USE_SCHEMA"
as_casbin_str Privilege.create_table = bytes "CREATE_TABLE"
as_casbin_str Privilege.select = bytes "SELECT"
as_casbin_str Privilege.modify = bytes "MODIFY"
as_casbin_str Privilege.create_function = bytes "CREATE_FUNCTION"
as_casbin_str Privilege.execute = bytes "EXECUTE"
as_casbin_str Privilege.create_volume = bytes "CREATE_VOLUME"
as_casbin_str Privilege.read_volume = bytes "READ_VOLUME"
as_casbin_str Privilege.create_model = bytes "CREATE_MODEL"
as_casbin_str Privilege.create_external_location = bytes "CREATE_EXTERNAL_LOCATION"
as_casbin_str Privilege.read_files = bytes "READ_FILES"
as_casbin_str Privilege.write_files = bytes "WRITE_FILES"
as_casbin_str Privilege.create_external_table = bytes "CREATE_EXTERNAL_TABLE"
as_casbin_str Privilege.create_external_volume = bytes "CREATE_EXTERNAL_VOLUME"
as_casbin_str Privilege.create_managed_storage = bytes "CREATE_MANAGED_STORAGE"
as_casbin_str Privilege.create_storage_credential = bytes "CREATE_STORAGE_CREDENTIAL"

-- the arms of a `match` on a string, in order
abbrev pub first_match {ℓ} : {A : Type ℓ} → List (Text × A) → Text → Option A
first_match [] s = none
first_match ((pattern, a) ∷ arms) s =
    let rest = first_match arms s in if eqb pattern s then some a else rest

unfoldable pub casbin_arms : List (Text × Privilege)
casbin_arms =
    (bytes "OWNER", Privilege.owner)
    ∷ (bytes "ALL_PRIVILEGES", Privilege.all_privileges)
    ∷ (bytes "CREATE_CATALOG", Privilege.create_catalog)
    ∷ (bytes "USE_CATALOG", Privilege.use_catalog)
    ∷ (bytes "CREATE_SCHEMA", Privilege.create_schema)
    ∷ (bytes "USE_SCHEMA", Privilege.use_schema)
    ∷ (bytes "CREATE_TABLE", Privilege.create_table)
    ∷ (bytes "SELECT", Privilege.select)
    ∷ (bytes "MODIFY", Privilege.modify)
    ∷ (bytes "CREATE_FUNCTION", Privilege.create_function)
    ∷ (bytes "EXECUTE", Privilege.execute)
    ∷ (bytes "CREATE_VOLUME", Privilege.create_volume)
    ∷ (bytes "READ_VOLUME", Privilege.read_volume)
    ∷ (bytes "CREATE_MODEL", Privilege.create_model)
    ∷ (bytes "CREATE_EXTERNAL_LOCATION", Privilege.create_external_location)
    ∷ (bytes "READ_FILES", Privilege.read_files)
    ∷ (bytes "WRITE_FILES", Privilege.write_files)
    ∷ (bytes "CREATE_EXTERNAL_TABLE", Privilege.create_external_table)
    ∷ (bytes "CREATE_EXTERNAL_VOLUME", Privilege.create_external_volume)
    ∷ (bytes "CREATE_MANAGED_STORAGE", Privilege.create_managed_storage)
    ∷ (bytes "CREATE_STORAGE_CREDENTIAL", Privilege.create_storage_credential)
    ∷ []

unfoldable pub from_casbin_str : Text → Option Privilege
unfolding casbin_arms
from_casbin_str s = first_match casbin_arms s

-- every privilege but the two umbrellas
unfoldable pub specific : List Privilege
specific =
    Privilege.create_catalog ∷ Privilege.use_catalog ∷ Privilege.create_schema
    ∷ Privilege.use_schema ∷ Privilege.create_table ∷ Privilege.select ∷ Privilege.modify
    ∷ Privilege.create_function ∷ Privilege.execute ∷ Privilege.create_volume
    ∷ Privilege.read_volume ∷ Privilege.create_model ∷ Privilege.create_external_location
    ∷ Privilege.read_files ∷ Privilege.write_files ∷ Privilege.create_external_table
    ∷ Privilege.create_external_volume ∷ Privilege.create_managed_storage
    ∷ Privilege.create_storage_credential ∷ []

-- the edges of `g3`: OWNER to ALL_PRIVILEGES, and from there to every specific privilege
unfoldable pub hierarchy_edges : List (Text × Text)
unfolding specific as_casbin_str
hierarchy_edges =
    (as_casbin_str Privilege.owner, as_casbin_str Privilege.all_privileges)
    ∷ map (λ p. (as_casbin_str Privilege.all_privileges, as_casbin_str p)) specific

pub data UriScheme : Type 0 where
  s3 abfs abfss gs file null : UriScheme

-- `to_lowercase`, on the ASCII letters that the tests below look at
abbrev pub lower : ℕ → ℕ
lower c = if leb 65 c && leb c 90 then c + 32 else c

unfoldable pub from_url : Text → UriScheme
from_url url =
    let lower_url = map lower url in
    if starts_with (bytes "s3://") lower_url || starts_with (bytes "s3a://") lower_url
    then UriScheme.s3
    else if starts_with (bytes "abfss://") lower_url
    then UriScheme.abfss
    else if starts_with (bytes "abfs://") lower_url
    then UriScheme.abfs
    else if starts_with (bytes "gs://") lower_url
    then UriScheme.gs
    else if starts_with (bytes "file://") lower_url || starts_with (bytes "/") lower_url
    then UriScheme.file
    else UriScheme.null
