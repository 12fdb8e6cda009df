-- ===== src/Store/Keys.antt =====
-- The object keys of crates/uc-db/src/store/action.rs, and the partition keys of
-- crates/uc-db/src/store/delta_log.rs.
pub mod Versions
pub mod Distinct
pub mod Tables
use unity_catalog.Prelude.{
  ℕ, ℤ, Bool, true, false, Option, none, some, List, [], ◌∷◌, ◌++◌, ◌==◌, if◌then◌else◌,
}
use unity_catalog.Prelude.Text.{Text, bytes, strip_prefix, strip_suffix, ends_with, contains}
use unity_catalog.Prelude.Decimal.{padded, padded_ℤ, parse_u64, parse_i64}
use unity_catalog.Models.{Uuid}
use unity_catalog.Store.Platform.{Platform}

abbrev pub log_prefix : Text
log_prefix = bytes "_uc_log/"

unfoldable pub commit_key : ℕ → Text
commit_key version = log_prefix ++ (padded 20 version ++ bytes ".json")

unfoldable pub checkpoint_key : ℕ → Text
checkpoint_key version = log_prefix ++ (padded 20 version ++ bytes ".checkpoint.json")

abbrev pub last_checkpoint_key : Text
last_checkpoint_key = bytes "_uc_log/_last_checkpoint"

abbrev version_of_stem : Option Text → Option ℕ
version_of_stem none = none
version_of_stem (some stem) = if ends_with (bytes ".checkpoint") stem then none else parse_u64 stem

abbrev version_of_rest : Option Text → Option ℕ
version_of_rest none = none
version_of_rest (some rest) =
    if contains b'/' rest then none else version_of_stem (strip_suffix (bytes ".json") rest)

unfoldable pub version_from_key : Text → Option ℕ
version_from_key key = version_of_rest (strip_prefix log_prefix key)

-- the text after the last `/`: `key.rsplit('/').next()`
unfoldable pub last_segment : Text → Text → Text
last_segment segment [] = segment
last_segment segment (c ∷ s) = last_segment (if c == b'/' then [] else segment ++ (c ∷ [])) s

module _ {Value : Type 0} (platform : Platform Value) where
  unfoldable pub partition_prefix : Uuid → Text
  partition_prefix table_id = bytes "_uc_log/tables/" ++ (platform.uuid_text table_id ++ bytes "/")

  unfoldable pub delta_commit_key : Uuid → ℤ → Text
  unfolding partition_prefix
  delta_commit_key table_id version =
      partition_prefix table_id ++ (padded_ℤ 20 version ++ bytes ".json")

abbrev pub delta_version_of_stem : Option Text → Option ℤ
delta_version_of_stem none = none
delta_version_of_stem (some stem) = parse_i64 stem

unfoldable pub delta_version_from_key : Text → Option ℤ
unfolding last_segment
delta_version_from_key key =
    delta_version_of_stem (strip_suffix (bytes ".json") (last_segment [] key))
