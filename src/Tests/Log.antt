-- ===== src/Tests/Log.antt =====
-- The log at concrete inputs.
use unity_catalog.Prelude.{
  ℕ, ◌<◌, some, List, [], ◌∷◌, length, take, keep, Result, ok, ◌≡◌, refl, arith, is_some,
  if◌then◌else◌,
}
use unity_catalog.Prelude.Text.{Text, bytes}
use unity_catalog.Prelude.Order.{eqb, less, bytes_ord}
use unity_catalog.Store.Kind.{EntityKind}
use unity_catalog.Store.Action.{Action}
use unity_catalog.Store.Log.Memory.{MemoryLog, PutResult, put_if_absent, get, list_after}
use unity_catalog.Store.Log.Memory.Contract.{put_if_absent_kept, keys_under, list_all_after_memory}
use unity_catalog.Store.Log.Listing.{within, list_all_after, list_all_in_range}
use unity_catalog.Store.Log.Listing.Complete.{list_all_in_range_complete}
use unity_catalog.Store.Log.Commit.{with_line, encode_actions, encode_commit, decode_commit}
use unity_catalog.Store.Log.Commit.RoundTrip.{decode_commit-encode_commit}
use unity_catalog.Tests.Json.{json, info_at}

abbrev two_objects : MemoryLog
two_objects = (bytes "a/1", bytes "one") ∷ (bytes "a/2", bytes "two") ∷ []

put_if_absent_kept_example :
    ((put_if_absent (bytes "a/1") (bytes "new") []).1
      ≡ (if is_some (get (bytes "a/1") []) then PutResult.already_exists else PutResult.created))
    × (get (bytes "a/1") (put_if_absent (bytes "a/1") (bytes "new") []).0
        ≡ (if is_some (get (bytes "a/1") []) then get (bytes "a/1") [] else some (bytes "new")))
    × (get (bytes "a/2") (put_if_absent (bytes "a/1") (bytes "new") []).0 ≡ (
        if eqb (bytes "a/1") (bytes "a/2")
        then get (bytes "a/1") (put_if_absent (bytes "a/1") (bytes "new") []).0
        else get (bytes "a/2") []))
put_if_absent_kept_example = put_if_absent_kept (bytes "a/1") (bytes "new") (bytes "a/2") []

enough : length (keys_under (bytes "a/") two_objects) < 3
unfolding keys_under
enough = omega arith

list_all_after_memory_example :
    list_all_after 3 (λ p cursor. ok (list_after p cursor two_objects)) (bytes "a/") (bytes "a/1")
    ≡ some (ok (keep (less (bytes "a/1")) (keys_under (bytes "a/") two_objects)))
list_all_after_memory_example =
    list_all_after_memory 3 (bytes "a/") (bytes "a/1") two_objects ((refl, tt), (tt, tt)) enough

abbrev three_keys : List Text
three_keys = bytes "a" ∷ bytes "b" ∷ bytes "c" ∷ []

-- a backend that gives one key at a time
abbrev one_by_one : Text → Text → Result (List Text)
one_by_one prefix cursor = ok (take 1 (keep (less cursor) three_keys))

list_all_in_range_complete_example :
    list_all_in_range 4 one_by_one [] [] (some (bytes "b"))
    ≡ some (ok (keep (within (some (bytes "b"))) (keep (less []) three_keys)))
list_all_in_range_complete_example =
    list_all_in_range_complete one_by_one [] (some (bytes "b")) three_keys
      ((refl, (refl, tt)), ((refl, tt), (tt, tt))) (λ cursor. (0, refl)) 4 [] (omega arith)

abbrev pub actions : List (Action ℕ)
actions = Action.upsert EntityKind.metastore 0 3 ∷ Action.upsert EntityKind.metastore 0 0 ∷ []

abbrev pub body : Text
body = 123 ∷ 98 ∷ 97 ∷ 97 ∷ 10 ∷ 123 ∷ 97 ∷ 97 ∷ 97 ∷ 10 ∷ 123 ∷ 10 ∷ []

encoded : encode_commit json (info_at 2) actions ≡ ok body
unfolding encode_commit encode_actions with_line
encoded = refl

decode_commit-encode_commit_example : decode_commit json body ≡ ok (info_at 2, actions)
decode_commit-encode_commit_example =
    decode_commit-encode_commit json (info_at 2) actions body (omega arith)
      (
        (EntityKind.metastore, record { id = 3; name = [] }, refl),
        ((EntityKind.metastore, record { id = 0; name = [] }, refl), tt),
      )
      encoded
