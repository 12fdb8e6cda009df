-- ===== src/Tests/Keys.antt =====
-- Keys and privileges.
use Prim.Native.Nat.{compare}
use unity_catalog.Prelude.{
  ℕ, ◌+◌, pos, negsuc, pos_part, neg_part, true, none, some, ◌≡◌, refl, arith, ◌↔◌, ◌≢◌, internal,
  data_loss, table_already_exists,
}
use unity_catalog.Prelude.Text.{bytes}
use unity_catalog.Prelude.Order.{bytes_cmp}
use unity_catalog.Store.NaturalKey.{pad_i64}
use unity_catalog.Store.NaturalKey.Order.{bytes_cmp-pad_i64}
use unity_catalog.Store.NaturalKey.Names.{child_key-injective}
use unity_catalog.Store.Keys.{
  version_from_key, commit_key, checkpoint_key, delta_commit_key, delta_version_from_key,
}
use unity_catalog.Store.Keys.Tables.{delta_version_from_key-delta_commit_key}
use unity_catalog.Store.Keys.Versions.{
  version_from_key-commit_key, version_from_key-checkpoint_key, version_from_key-delta_commit_key,
  bytes_cmp-commit_key,
}
use unity_catalog.Errors.{uc_status, delta_status, delta_error_type}
use unity_catalog.Errors.Codes.{
  is_legacy, uc_status-delta_status, delta_error_type-status, as_str-injective,
}
use unity_catalog.Types.{Privilege, as_casbin_str, from_casbin_str}
use unity_catalog.Types.Privileges.{from_casbin_str_iff}
use unity_catalog.Types.Hierarchy.{Implies, Implies-iff, Covers}
use unity_catalog.Tests.Instance.{platform}

bytes_cmp-pad_i64_example :
    bytes_cmp (pad_i64 (negsuc 9)) (pad_i64 (pos 2))
    ≡ compare (pos_part (negsuc 9) + neg_part (pos 2)) (pos_part (pos 2) + neg_part (negsuc 9))
bytes_cmp-pad_i64_example = bytes_cmp-pad_i64 (negsuc 9) (pos 2) (omega arith) (omega arith)

abbrev three : ℕ
three = 3

child_key-injective_example : (three ≡ 3) × (bytes "events" ≡ bytes "events")
child_key-injective_example =
    child_key-injective platform three 3 (bytes "events") (bytes "events") refl

version_from_key-commit_key_example : version_from_key (commit_key 1700) ≡ some 1700
version_from_key-commit_key_example = version_from_key-commit_key 1700 (omega arith)

version_from_key-checkpoint_key_example : version_from_key (checkpoint_key 100) ≡ none
version_from_key-checkpoint_key_example = version_from_key-checkpoint_key 100

version_from_key-delta_commit_key_example :
    version_from_key (delta_commit_key platform 5 (pos 7)) ≡ none
version_from_key-delta_commit_key_example = version_from_key-delta_commit_key platform 5 (pos 7)

bytes_cmp-commit_key_example : bytes_cmp (commit_key 9) (commit_key 10) ≡ compare 9 10
bytes_cmp-commit_key_example = bytes_cmp-commit_key 9 10 (omega arith) (omega arith)

from_casbin_str_iff_example :
    (from_casbin_str (bytes "SELECT") ≡ some Privilege.select)
    ↔ (as_casbin_str Privilege.select ≡ bytes "SELECT")
from_casbin_str_iff_example = from_casbin_str_iff (bytes "SELECT") Privilege.select

Implies-iff_example :
    Implies Privilege.all_privileges Privilege.select
    ↔ Covers Privilege.all_privileges Privilege.select
Implies-iff_example = Implies-iff Privilege.all_privileges Privilege.select

uc_status-delta_status_example :
    (uc_status table_already_exists ≢ delta_status table_already_exists)
    ↔ (is_legacy table_already_exists ≡ true)
uc_status-delta_status_example = uc_status-delta_status table_already_exists

delta_error_type-status_example : delta_status internal ≡ delta_status data_loss
delta_error_type-status_example =
    delta_error_type-status internal data_loss (unfold delta_error_type in refl)

as_str-injective_example : internal ≡ internal
as_str-injective_example = as_str-injective internal internal refl

delta_version_from_key-delta_commit_key_example :
    delta_version_from_key (delta_commit_key platform 3 (negsuc 6)) ≡ some (negsuc 6)
delta_version_from_key-delta_commit_key_example =
    delta_version_from_key-delta_commit_key platform 3 (negsuc 6) (omega arith)
