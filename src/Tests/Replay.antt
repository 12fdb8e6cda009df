-- ===== src/Tests/Replay.antt =====
-- A log of one commit is replayed.
use unity_catalog.Prelude.{ℕ, ◌+◌, some, List, [], ◌∷◌, length, map, All, ok, ◌≡◌, refl}
use unity_catalog.Prelude.Text.{bytes}
use unity_catalog.Prelude.Decimal.{padded}
use unity_catalog.Prelude.Decimal
use unity_catalog.Prelude.BTreeMap
use unity_catalog.Store.Keys.{commit_key, version_from_key}
use unity_catalog.Store.Log.Memory.{MemoryLog, get, list_after}
use unity_catalog.Store.Log.Lines.{is_utf8, is_utf8_from, lines, lines_from, is_blank}
use unity_catalog.Store.Log.Listing.{list_all_after, list_all_in_range, pages}
use unity_catalog.Store.Log.Commit.{decode_commit, decode_lines, decode_raw, decode_line}
use unity_catalog.Store.Log.Replay.{
  ObjectLog, Entry, read_object, read_commit, wanted, read_commits, check_gapless,
  read_commits_after,
}
use unity_catalog.Store.Log.Replay.Gapless.{IsStored, count_from, read_commits_after-gapless}
use unity_catalog.Tests.Json.{json, info_at}
use unity_catalog.Tests.Log.{actions, body}

abbrev objects : MemoryLog
objects =
    (bytes "_uc_log/00000000000000000001.checkpoint.json", [])
    ∷ (bytes "_uc_log/00000000000000000001.json", body)
    ∷ []

abbrev log : ObjectLog
log = record {
  get = λ key. ok (get key objects);
  list_after = λ prefix start_after. ok (list_after prefix start_after objects);
}

abbrev entries : List (Entry ℕ)
entries = (1, (info_at 2, actions)) ∷ []

replayed : read_commits_after json log 3 0 ≡ some (ok entries)
unfolding read_commits_after list_all_after list_all_in_range pages list_after get BTreeMap.get
    commit_key padded version_from_key wanted read_commits read_commit read_object decode_commit
    decode_lines decode_raw decode_line is_utf8 is_utf8_from lines lines_from is_blank check_gapless
    Decimal.parse_u64 Decimal.parse_digits Decimal.parse_nonempty
replayed = refl

read_commits_after-gapless_example :
    (map (λ entry. entry.0) entries ≡ count_from (0 + 1) (length entries))
    × All (IsStored json log) entries
read_commits_after-gapless_example = read_commits_after-gapless json log 3 0 entries replayed
