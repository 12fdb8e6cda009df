-- ===== src/Tests/Checkpoint.antt =====
-- A checkpoint of one line and its pointer.
use unity_catalog.Prelude.{Option, some, [], ◌∷◌, ok, ◌≡◌, refl}
use unity_catalog.Prelude.Text.{Text, bytes}
use unity_catalog.Prelude.Decimal.{padded}
use unity_catalog.Prelude.BTreeMap
use unity_catalog.Store.Keys.{checkpoint_key}
use unity_catalog.Store.Log.Memory.{MemoryLog, get, list_after}
use unity_catalog.Store.Log.Replay.{ObjectLog}
use unity_catalog.Store.Log.Checkpoint.{
  LastCheckpoint, content_hash, hash_from, hex, line_count, is_intact, checked_body, follow_pointer,
  read_pointer, resolve_checkpoint,
}
use unity_catalog.Store.Log.Checkpoint.Intact.{IsPointedAt, resolve_checkpoint-intact}

abbrev dump : Text
dump = 123 ∷ 125 ∷ 10 ∷ []

-- the offset basis of FNV-1a is the hash of nothing
empty_hash : content_hash [] ≡ bytes "cbf29ce484222325"
unfolding content_hash hash_from hex
empty_hash = refl

-- and this is the published hash of the letter a
a_hash : content_hash (bytes "a") ≡ bytes "af63dc4c8601ec8c"
unfolding content_hash hash_from hex
a_hash = refl

abbrev objects : MemoryLog
objects =
    (bytes "_uc_log/00000000000000000100.checkpoint.json", dump)
    ∷ (bytes "_uc_log/_last_checkpoint", bytes "p")
    ∷ []

abbrev log : ObjectLog
log = record {
  get = λ key. ok (get key objects);
  list_after = λ prefix start_after. ok (list_after prefix start_after objects);
}

abbrev pointer_to : Text → Option LastCheckpoint
pointer_to pointer = some (record { version = 100; size = 1; checksum = some (content_hash dump) })

resolved : resolve_checkpoint pointer_to log ≡ ok (some (100, dump))
unfolding resolve_checkpoint read_pointer follow_pointer checked_body is_intact line_count
    content_hash hash_from hex get BTreeMap.get checkpoint_key padded
resolved = refl

resolve_checkpoint-intact_example : IsPointedAt pointer_to log 100 dump
resolve_checkpoint-intact_example = resolve_checkpoint-intact pointer_to log 100 dump resolved
