-- ===== src/Errors.antt =====
-- The tables of crates/uc-errors/src/lib.rs: the HTTP status and the names of an error code.
pub mod Codes
use unity_catalog.Prelude.{ℕ, ErrorCode}
use unity_catalog.Prelude.Text.{Text, bytes}

-- the HTTP statuses by number
abbrev pub bad_request_status : ℕ
bad_request_status = 400

abbrev pub unauthorized_status : ℕ
unauthorized_status = 401

abbrev pub forbidden_status : ℕ
forbidden_status = 403

abbrev pub not_found_status : ℕ
not_found_status = 404

abbrev pub conflict_status : ℕ
conflict_status = 409

abbrev pub too_many_requests_status : ℕ
too_many_requests_status = 429

abbrev pub internal_server_error_status : ℕ
internal_server_error_status = 500

abbrev pub not_implemented_status : ℕ
not_implemented_status = 501

-- for the catalog and control API
unfoldable pub uc_status : ErrorCode → ℕ
uc_status ErrorCode.invalid_argument = bad_request_status
uc_status ErrorCode.unsupported_table_format = bad_request_status
uc_status ErrorCode.not_found = not_found_status
uc_status ErrorCode.catalog_not_found = not_found_status
uc_status ErrorCode.schema_not_found = not_found_status
uc_status ErrorCode.table_not_found = not_found_status
uc_status ErrorCode.already_exists = conflict_status
uc_status ErrorCode.permission_denied = forbidden_status
uc_status ErrorCode.unauthenticated = unauthorized_status
uc_status ErrorCode.resource_exhausted = too_many_requests_status
uc_status ErrorCode.failed_precondition = bad_request_status
uc_status ErrorCode.aborted = conflict_status
uc_status ErrorCode.commit_version_conflict = conflict_status
uc_status ErrorCode.update_requirement_conflict = conflict_status
uc_status ErrorCode.out_of_range = bad_request_status
uc_status ErrorCode.unimplemented = not_implemented_status
uc_status ErrorCode.internal = internal_server_error_status
uc_status ErrorCode.data_loss = internal_server_error_status
uc_status ErrorCode.resource_already_exists = bad_request_status
uc_status ErrorCode.catalog_already_exists = bad_request_status
uc_status ErrorCode.schema_already_exists = bad_request_status
uc_status ErrorCode.table_already_exists = bad_request_status
uc_status ErrorCode.storage_credential_already_exists = bad_request_status
uc_status ErrorCode.external_location_already_exists = bad_request_status

-- for the Delta API
unfoldable pub delta_status : ErrorCode → ℕ
unfolding uc_status
delta_status ErrorCode.resource_already_exists = conflict_status
delta_status ErrorCode.catalog_already_exists = conflict_status
delta_status ErrorCode.schema_already_exists = conflict_status
delta_status ErrorCode.table_already_exists = conflict_status
delta_status ErrorCode.storage_credential_already_exists = conflict_status
delta_status ErrorCode.external_location_already_exists = conflict_status
delta_status other = uc_status other

unfoldable pub delta_error_type : ErrorCode → Text
delta_error_type ErrorCode.invalid_argument = bytes "InvalidParameterValueException"
delta_error_type ErrorCode.unsupported_table_format = bytes "UnsupportedTableFormatException"
delta_error_type ErrorCode.not_found = bytes "NotFoundException"
delta_error_type ErrorCode.catalog_not_found = bytes "NoSuchCatalogException"
delta_error_type ErrorCode.schema_not_found = bytes "NoSuchSchemaException"
delta_error_type ErrorCode.table_not_found = bytes "NoSuchTableException"
delta_error_type ErrorCode.already_exists = bytes "AlreadyExistsException"
delta_error_type ErrorCode.permission_denied = bytes "PermissionDeniedException"
delta_error_type ErrorCode.unauthenticated = bytes "NotAuthorizedException"
delta_error_type ErrorCode.resource_exhausted = bytes "ResourceExhaustedException"
delta_error_type ErrorCode.failed_precondition = bytes "InvalidParameterValueException"
delta_error_type ErrorCode.aborted = bytes "CommitVersionConflictException"
delta_error_type ErrorCode.commit_version_conflict = bytes "CommitVersionConflictException"
delta_error_type ErrorCode.update_requirement_conflict = bytes "UpdateRequirementConflictException"
delta_error_type ErrorCode.out_of_range = bytes "BadRequestException"
delta_error_type ErrorCode.unimplemented = bytes "NotImplementedException"
delta_error_type ErrorCode.internal = bytes "InternalServerErrorException"
delta_error_type ErrorCode.data_loss = bytes "InternalServerErrorException"
delta_error_type ErrorCode.resource_already_exists = bytes "AlreadyExistsException"
delta_error_type ErrorCode.catalog_already_exists = bytes "AlreadyExistsException"
delta_error_type ErrorCode.schema_already_exists = bytes "AlreadyExistsException"
delta_error_type ErrorCode.table_already_exists = bytes "AlreadyExistsException"
delta_error_type ErrorCode.storage_credential_already_exists = bytes "AlreadyExistsException"
delta_error_type ErrorCode.external_location_already_exists = bytes "AlreadyExistsException"

unfoldable pub as_str : ErrorCode → Text
as_str ErrorCode.invalid_argument = bytes "INVALID_ARGUMENT"
as_str ErrorCode.unsupported_table_format = bytes "UNSUPPORTED_TABLE_FORMAT"
as_str ErrorCode.not_found = bytes "NOT_FOUND"
as_str ErrorCode.catalog_not_found = bytes "CATALOG_NOT_FOUND"
as_str ErrorCode.schema_not_found = bytes "SCHEMA_NOT_FOUND"
as_str ErrorCode.table_not_found = bytes "TABLE_NOT_FOUND"
as_str ErrorCode.already_exists = bytes "ALREADY_EXISTS"
as_str ErrorCode.permission_denied = bytes "PERMISSION_DENIED"
as_str ErrorCode.unauthenticated = bytes "UNAUTHENTICATED"
as_str ErrorCode.resource_exhausted = bytes "RESOURCE_EXHAUSTED"
as_str ErrorCode.failed_precondition = bytes "FAILED_PRECONDITION"
as_str ErrorCode.aborted = bytes "ABORTED"
as_str ErrorCode.commit_version_conflict = bytes "COMMIT_VERSION_CONFLICT"
as_str ErrorCode.update_requirement_conflict = bytes "UPDATE_REQUIREMENT_CONFLICT"
as_str ErrorCode.out_of_range = bytes "OUT_OF_RANGE"
as_str ErrorCode.unimplemented = bytes "UNIMPLEMENTED"
as_str ErrorCode.internal = bytes "INTERNAL"
as_str ErrorCode.data_loss = bytes "DATA_LOSS"
as_str ErrorCode.resource_already_exists = bytes "RESOURCE_ALREADY_EXISTS"
as_str ErrorCode.catalog_already_exists = bytes "CATALOG_ALREADY_EXISTS"
as_str ErrorCode.schema_already_exists = bytes "SCHEMA_ALREADY_EXISTS"
as_str ErrorCode.table_already_exists = bytes "TABLE_ALREADY_EXISTS"
as_str ErrorCode.storage_credential_already_exists = bytes "STORAGE_CREDENTIAL_ALREADY_EXISTS"
as_str ErrorCode.external_location_already_exists = bytes "EXTERNAL_LOCATION_ALREADY_EXISTS"
