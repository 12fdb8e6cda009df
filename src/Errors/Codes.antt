-- ===== src/Errors/Codes.antt =====
-- What a client can tell from an error response.
use unity_catalog.Prelude.{
  ℕ, Bool, true, false, some, List, [], ◌∷◌, ErrorCode, ◌≡◌, ◌≢◌, ◌↔◌, refl, sym, ap, ◌∙◌, arith,
}
use unity_catalog.Prelude.Text.{Text, bytes}
use unity_catalog.Types.{first_match}
use unity_catalog.Errors.{
  uc_status, delta_status, delta_error_type, as_str, bad_request_status, unauthorized_status,
  forbidden_status, not_found_status, conflict_status, too_many_requests_status,
  internal_server_error_status, not_implemented_status,
}

-- the codes that are there for backwards compatibility
abbrev pub is_legacy : ErrorCode → Bool
is_legacy ErrorCode.resource_already_exists = true
is_legacy ErrorCode.catalog_already_exists = true
is_legacy ErrorCode.schema_already_exists = true
is_legacy ErrorCode.table_already_exists = true
is_legacy ErrorCode.storage_credential_already_exists = true
is_legacy ErrorCode.external_location_already_exists = true
is_legacy _ = false

-- The two APIs answer a code with different statuses exactly when it is one of the six legacy
-- "already exists" codes.
pub uc_status-delta_status : (c : ErrorCode) → (uc_status c ≢ delta_status c) ↔ (is_legacy c ≡ true)
unfolding uc_status delta_status
uc_status-delta_status ErrorCode.invalid_argument = ground arith
uc_status-delta_status ErrorCode.unsupported_table_format = ground arith
uc_status-delta_status ErrorCode.not_found = ground arith
uc_status-delta_status ErrorCode.catalog_not_found = ground arith
uc_status-delta_status ErrorCode.schema_not_found = ground arith
uc_status-delta_status ErrorCode.table_not_found = ground arith
uc_status-delta_status ErrorCode.already_exists = ground arith
uc_status-delta_status ErrorCode.permission_denied = ground arith
uc_status-delta_status ErrorCode.unauthenticated = ground arith
uc_status-delta_status ErrorCode.resource_exhausted = ground arith
uc_status-delta_status ErrorCode.failed_precondition = ground arith
uc_status-delta_status ErrorCode.aborted = ground arith
uc_status-delta_status ErrorCode.commit_version_conflict = ground arith
uc_status-delta_status ErrorCode.update_requirement_conflict = ground arith
uc_status-delta_status ErrorCode.out_of_range = ground arith
uc_status-delta_status ErrorCode.unimplemented = ground arith
uc_status-delta_status ErrorCode.internal = ground arith
uc_status-delta_status ErrorCode.data_loss = ground arith
uc_status-delta_status ErrorCode.resource_already_exists = ground arith
uc_status-delta_status ErrorCode.catalog_already_exists = ground arith
uc_status-delta_status ErrorCode.schema_already_exists = ground arith
uc_status-delta_status ErrorCode.table_already_exists = ground arith
uc_status-delta_status ErrorCode.storage_credential_already_exists = ground arith
uc_status-delta_status ErrorCode.external_location_already_exists = ground arith

-- the status that goes with an error type of the Delta API
abbrev type_statuses : List (Text × ℕ)
type_statuses =
    (bytes "InvalidParameterValueException", bad_request_status)
    ∷ (bytes "UnsupportedTableFormatException", bad_request_status)
    ∷ (bytes "NotFoundException", not_found_status)
    ∷ (bytes "NoSuchCatalogException", not_found_status)
    ∷ (bytes "NoSuchSchemaException", not_found_status)
    ∷ (bytes "NoSuchTableException", not_found_status)
    ∷ (bytes "AlreadyExistsException", conflict_status)
    ∷ (bytes "PermissionDeniedException", forbidden_status)
    ∷ (bytes "NotAuthorizedException", unauthorized_status)
    ∷ (bytes "ResourceExhaustedException", too_many_requests_status)
    ∷ (bytes "CommitVersionConflictException", conflict_status)
    ∷ (bytes "UpdateRequirementConflictException", conflict_status)
    ∷ (bytes "BadRequestException", bad_request_status)
    ∷ (bytes "NotImplementedException", not_implemented_status)
    ∷ (bytes "InternalServerErrorException", internal_server_error_status)
    ∷ []

delta_status-eq :
    (c : ErrorCode) → first_match type_statuses (delta_error_type c) ≡ some (delta_status c)
unfolding delta_error_type delta_status uc_status
delta_status-eq ErrorCode.invalid_argument = refl
delta_status-eq ErrorCode.unsupported_table_format = refl
delta_status-eq ErrorCode.not_found = refl
delta_status-eq ErrorCode.catalog_not_found = refl
delta_status-eq ErrorCode.schema_not_found = refl
delta_status-eq ErrorCode.table_not_found = refl
delta_status-eq ErrorCode.already_exists = refl
delta_status-eq ErrorCode.permission_denied = refl
delta_status-eq ErrorCode.unauthenticated = refl
delta_status-eq ErrorCode.resource_exhausted = refl
delta_status-eq ErrorCode.failed_precondition = refl
delta_status-eq ErrorCode.aborted = refl
delta_status-eq ErrorCode.commit_version_conflict = refl
delta_status-eq ErrorCode.update_requirement_conflict = refl
delta_status-eq ErrorCode.out_of_range = refl
delta_status-eq ErrorCode.unimplemented = refl
delta_status-eq ErrorCode.internal = refl
delta_status-eq ErrorCode.data_loss = refl
delta_status-eq ErrorCode.resource_already_exists = refl
delta_status-eq ErrorCode.catalog_already_exists = refl
delta_status-eq ErrorCode.schema_already_exists = refl
delta_status-eq ErrorCode.table_already_exists = refl
delta_status-eq ErrorCode.storage_credential_already_exists = refl
delta_status-eq ErrorCode.external_location_already_exists = refl

-- On the Delta API the error type in the body determines the status: two codes with one type have
-- one status.
pub delta_error_type-status :
    (c d : ErrorCode) → delta_error_type c ≡ delta_error_type d → delta_status c ≡ delta_status d
delta_error_type-status c d h =
    let e : some (delta_status c) ≡ some (delta_status d) =
      sym (delta_status-eq c) ∙ ap (first_match type_statuses) h ∙ delta_status-eq d in
    ground arith

abbrev strings : List (Text × ErrorCode)
strings =
    (bytes "INVALID_ARGUMENT", ErrorCode.invalid_argument)
    ∷ (bytes "UNSUPPORTED_TABLE_FORMAT", ErrorCode.unsupported_table_format)
    ∷ (bytes "NOT_FOUND", ErrorCode.not_found)
    ∷ (bytes "CATALOG_NOT_FOUND", ErrorCode.catalog_not_found)
    ∷ (bytes "SCHEMA_NOT_FOUND", ErrorCode.schema_not_found)
    ∷ (bytes "TABLE_NOT_FOUND", ErrorCode.table_not_found)
    ∷ (bytes "ALREADY_EXISTS", ErrorCode.already_exists)
    ∷ (bytes "PERMISSION_DENIED", ErrorCode.permission_denied)
    ∷ (bytes "UNAUTHENTICATED", ErrorCode.unauthenticated)
    ∷ (bytes "RESOURCE_EXHAUSTED", ErrorCode.resource_exhausted)
    ∷ (bytes "FAILED_PRECONDITION", ErrorCode.failed_precondition)
    ∷ (bytes "ABORTED", ErrorCode.aborted)
    ∷ (bytes "COMMIT_VERSION_CONFLICT", ErrorCode.commit_version_conflict)
    ∷ (bytes "UPDATE_REQUIREMENT_CONFLICT", ErrorCode.update_requirement_conflict)
    ∷ (bytes "OUT_OF_RANGE", ErrorCode.out_of_range)
    ∷ (bytes "UNIMPLEMENTED", ErrorCode.unimplemented)
    ∷ (bytes "INTERNAL", ErrorCode.internal)
    ∷ (bytes "DATA_LOSS", ErrorCode.data_loss)
    ∷ (bytes "RESOURCE_ALREADY_EXISTS", ErrorCode.resource_already_exists)
    ∷ (bytes "CATALOG_ALREADY_EXISTS", ErrorCode.catalog_already_exists)
    ∷ (bytes "SCHEMA_ALREADY_EXISTS", ErrorCode.schema_already_exists)
    ∷ (bytes "TABLE_ALREADY_EXISTS", ErrorCode.table_already_exists)
    ∷ (bytes "STORAGE_CREDENTIAL_ALREADY_EXISTS", ErrorCode.storage_credential_already_exists)
    ∷ (bytes "EXTERNAL_LOCATION_ALREADY_EXISTS", ErrorCode.external_location_already_exists)
    ∷ []

first_match-as_str : (c : ErrorCode) → first_match strings (as_str c) ≡ some c
unfolding as_str
first_match-as_str ErrorCode.invalid_argument = refl
first_match-as_str ErrorCode.unsupported_table_format = refl
first_match-as_str ErrorCode.not_found = refl
first_match-as_str ErrorCode.catalog_not_found = refl
first_match-as_str ErrorCode.schema_not_found = refl
first_match-as_str ErrorCode.table_not_found = refl
first_match-as_str ErrorCode.already_exists = refl
first_match-as_str ErrorCode.permission_denied = refl
first_match-as_str ErrorCode.unauthenticated = refl
first_match-as_str ErrorCode.resource_exhausted = refl
first_match-as_str ErrorCode.failed_precondition = refl
first_match-as_str ErrorCode.aborted = refl
first_match-as_str ErrorCode.commit_version_conflict = refl
first_match-as_str ErrorCode.update_requirement_conflict = refl
first_match-as_str ErrorCode.out_of_range = refl
first_match-as_str ErrorCode.unimplemented = refl
first_match-as_str ErrorCode.internal = refl
first_match-as_str ErrorCode.data_loss = refl
first_match-as_str ErrorCode.resource_already_exists = refl
first_match-as_str ErrorCode.catalog_already_exists = refl
first_match-as_str ErrorCode.schema_already_exists = refl
first_match-as_str ErrorCode.table_already_exists = refl
first_match-as_str ErrorCode.storage_credential_already_exists = refl
first_match-as_str ErrorCode.external_location_already_exists = refl

-- The `error_code` string determines the code.
pub as_str-injective : (c d : ErrorCode) → as_str c ≡ as_str d → c ≡ d
as_str-injective c d h =
    let e : some c ≡ some d =
      sym (first_match-as_str c) ∙ ap (first_match strings) h ∙ first_match-as_str d in
    ground arith
