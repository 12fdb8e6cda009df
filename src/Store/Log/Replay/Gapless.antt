-- ===== src/Store/Log/Replay/Gapless.antt =====
-- What a replay reads is a run of commits without a gap, each from its own object.
use unity_catalog.Prelude.{
  ℕ, zero, suc, ◌+◌, true, Option, none, some, List, [], ◌∷◌, Result, ok, err, ◌>>=◌, >>=-eq-ok,
  map_option, length, map, All, ◌≡◌, refl, arith, Bool-cases, Option-cases, inl, inr,
}
use unity_catalog.Prelude.Text.{Text}
use unity_catalog.Store.Platform.{Platform}
use unity_catalog.Store.Action.{Action}
use unity_catalog.Store.Keys.{commit_key, log_prefix, version_from_key}
use unity_catalog.Store.Log.Listing.{list_all_after}
use unity_catalog.Store.Log.Commit.{CommitInfo, JsonLines, decode_commit}
use unity_catalog.Store.Log.Replay.{
  ObjectLog, Entry, read_object, read_commit, wanted, read_commits, check_gapless, refuse_gap,
  read_commits_after,
}

-- `n` numbers from `first`
abbrev pub count_from : ℕ → ℕ → List ℕ
count_from first zero = []
count_from first (suc n) = first ∷ count_from (suc first) n

wanted-version :
    (from_version version : ℕ) (key : Text)
    → wanted from_version key ≡ some version
    → version_from_key key ≡ some version
unfolding wanted
wanted-version from_version version key h = ground arith

check_gapless-count :
    {Value : Type 0} (expected : ℕ) (entries : List (Entry Value))
    → check_gapless expected entries ≡ true
    → map (λ entry. entry.0) entries ≡ count_from expected (length entries)
unfolding check_gapless
check_gapless-count expected [] h = refl
check_gapless-count expected (entry ∷ entries) h =
    ground (arith, check_gapless-count (suc expected) entries)

module _ {Value : Type 0} {platform : Platform Value} (json : JsonLines platform)
    (log : ObjectLog) where
  -- The entry is what the object of some key of its version holds.
  abbrev pub IsStored : Entry Value → Type 0
  IsStored entry =
      (key : Text) × (bytes : Text) × (version_from_key key ≡ some entry.0)
      × (log.get key ≡ ok (some bytes))
      × (decode_commit json bytes ≡ ok entry.1)

  read_commit-IsStored :
      (version : ℕ) (key : Text) (entry : Entry Value)
      → version_from_key key ≡ some version
      → read_commit json log version key ≡ ok entry
      → IsStored entry
  unfolding read_commit
  read_commit-IsStored version key entry h e =
      let (object, g, e1) = >>=-eq-ok (log.get key) _ e in
      let (body, r, e2) = >>=-eq-ok (read_object json log object) _ e1 in
      let q : (version, body) ≡ entry = ground arith in rw (← q) (from_object object body g r)
    where
      from_object :
          (object : Option Text) (body : CommitInfo × List (Action Value))
          → log.get key ≡ ok object
          → read_object json log object ≡ ok body
          → IsStored (version, body)
      from_object none body g r = unfold read_object in absurd (ground arith)
      from_object (some bytes) body g r = (key, bytes, h, g, unfold read_object in r)

  read_commits-IsStored :
      (from_version : ℕ) (keys : List Text) (entries : List (Entry Value))
      → read_commits json log from_version keys ≡ ok entries
      → All IsStored entries
  unfolding read_commits
  read_commits-IsStored from_version [] entries e =
      let q : [] ≡ entries = ground arith in rw (← q) tt
  read_commits-IsStored from_version (key ∷ keys) entries e =
      elim (Option-cases (wanted from_version key)) [
        | inl skipped ↦ read_commits-IsStored from_version keys entries (ground arith)
        | inr (version, w) ↦
            let e0 : (read_commit json log version key >>= λ entry.
            read_commits json log from_version keys >>= λ rest. ok (entry ∷ rest))
                ≡ ok entries =
              ground arith in
            let (entry, r, e1) = >>=-eq-ok (read_commit json log version key) _ e0 in
            let (rest, s, e2) = >>=-eq-ok (read_commits json log from_version keys) _ e1 in
            let q : entry ∷ rest ≡ entries = ground arith in
            rw (← q) (
              read_commit-IsStored version key entry (wanted-version from_version version key w) r,
              read_commits-IsStored from_version keys rest s,
            )
      ]

  -- When the commits after a version are read, their versions are the next ones, in order and
  -- without a gap, and each is what an object of its version holds. This is so for any backend.
  pub read_commits_after-gapless :
      (fuel from_version : ℕ) (entries : List (Entry Value))
      → read_commits_after json log fuel from_version ≡ some (ok entries)
      → (map (λ entry. entry.0) entries ≡ count_from (from_version + 1) (length entries))
        × All IsStored entries
  unfolding read_commits_after
  read_commits_after-gapless fuel from_version entries h =
      listed (list_all_after fuel log.list_after log_prefix (commit_key from_version)) h
    where
      from_entries :
          (found : List (Entry Value))
          → All IsStored found
          → refuse_gap from_version found ≡ ok entries
          → (map (λ entry. entry.0) entries ≡ count_from (from_version + 1) (length entries))
            × All IsStored entries
      from_entries found a h = elim (Bool-cases (check_gapless (from_version + 1) found)) [
        | inl gapless ↦
            let q : found ≡ entries = ground arith in
            rw (← q) (check_gapless-count (from_version + 1) found gapless, a)
        | inr gap ↦ absurd (ground arith)
      ]

      listed :
          (found : Option (Result (List Text)))
          → map_option
              (λ l.
                l >>= λ keys. read_commits json log from_version keys >>= refuse_gap from_version)
              found
            ≡ some (ok entries)
          → (map (λ entry. entry.0) entries ≡ count_from (from_version + 1) (length entries))
            × All IsStored entries
      listed none h = cc
      listed (some (err code)) h = absurd (ground arith)
      listed (some (ok keys)) h =
          let h0 : (read_commits json log from_version keys >>= refuse_gap from_version)
              ≡ ok entries =
            ground arith in
          let (found, r, e) = >>=-eq-ok (read_commits json log from_version keys) _ h0 in
          from_entries found (read_commits-IsStored from_version keys found r) e
