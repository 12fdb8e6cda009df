-- ===== src/Store/Log/Replay.antt =====
-- `read_commits_after` of crates/uc-db/src/store/log.rs.
pub mod Gapless
use unity_catalog.Prelude.{
  ℕ, zero, suc, ◌+◌, Bool, true, false, not, Option, none, some, List, [], ◌∷◌, Result, ok, err,
  internal, ◌>>=◌, leb, ◌==◌, map_option, if◌then◌else◌,
}
use unity_catalog.Prelude.Text.{Text}
use unity_catalog.Store.Platform.{Platform}
use unity_catalog.Store.Action.{Action}
use unity_catalog.Store.Keys.{commit_key, log_prefix, version_from_key}
use unity_catalog.Store.Log.Listing.{Backend, list_all_after}
use unity_catalog.Store.Log.Commit.{CommitInfo, JsonLines, decode_commit}

-- the two reads of `ObjectLog`
pub record ObjectLog : Type 0 where
  pub get : Text → Result (Option Text)
  pub list_after : Backend

-- one element of the result: a version, its provenance and its actions
abbrev pub Entry : Type 0 → Type 0
Entry Value = ℕ × (CommitInfo × List (Action Value))

-- the version of a key that is a commit after `from_version`
unfoldable pub wanted : ℕ → Text → Option ℕ
wanted from_version key = elim (version_from_key key) [
  | none ↦ none
  | some version ↦ if leb version from_version then none else some version
]

-- each version is one more than the one before
unfoldable pub check_gapless : {Value : Type 0} → ℕ → List (Entry Value) → Bool
check_gapless expected [] = true
check_gapless expected ((version, _) ∷ entries) =
    let rest = check_gapless (suc expected) entries in if version == expected then rest else false

abbrev pub refuse_gap : {Value : Type 0} → ℕ → List (Entry Value) → Result (List (Entry Value))
refuse_gap from_version entries =
    if check_gapless (from_version + 1) entries then ok entries else err internal

module _ {Value : Type 0} {platform : Platform Value} (json : JsonLines platform)
    (log : ObjectLog) where
  -- what `log.get(&key)` gives: an object that is listed but cannot be read is a hole
  unfoldable pub read_object : Option Text → Result (CommitInfo × List (Action Value))
  read_object none = err internal
  read_object (some bytes) = decode_commit json bytes

  unfoldable pub read_commit : ℕ → Text → Result (Entry Value)
  unfolding read_object
  read_commit version key =
      log.get key >>= λ object. read_object object >>= λ body. ok (version, body)

  unfoldable pub read_commits : ℕ → List Text → Result (List (Entry Value))
  read_commits from_version [] = ok []
  read_commits from_version (key ∷ keys) = elim (wanted from_version key) [
    | none ↦ read_commits from_version keys
    | some version ↦ read_commit version key >>= λ entry.
        read_commits from_version keys >>= λ entries. ok (entry ∷ entries)
  ]

  -- `none` where the listing runs out of fuel
  unfoldable pub read_commits_after : ℕ → ℕ → Option (Result (List (Entry Value)))
  read_commits_after fuel from_version =
      map_option
        (λ listed. listed >>= λ keys. read_commits from_version keys >>= refuse_gap from_version)
        (list_all_after fuel log.list_after log_prefix (commit_key from_version))
