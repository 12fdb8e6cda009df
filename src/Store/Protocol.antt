-- ===== src/Store/Protocol.antt =====
-- `StoreInner` of crates/uc-db/src/store/mod.rs: `catch_up`, `commit` and the checkpoint that a commit
-- may write. The log is the one of memory.rs. What the other tasks and the other processes do while
-- this one awaits is an argument, `others`, by the number of attempts left.
pub mod History
pub mod Distinct
pub mod Invariant
pub mod Advance
pub mod CatchUp
pub mod Arms
pub mod Serial
pub mod Lands
use unity_catalog.Prelude.{
  ℕ, zero, suc, ◌+◌, ℤ, ◌%◌, Bool, true, false, Option, none, some, List, [], ◌∷◌, Result, ok, err,
  ErrorCode, internal, ok_or, ◌>>=◌, ◌==◌, if◌then◌else◌,
}
use unity_catalog.Prelude.Text.{Text}
use unity_catalog.Store.Platform.{Platform}
use unity_catalog.Store.Action.{Action}
use unity_catalog.Store.Keys.{commit_key, checkpoint_key, last_checkpoint_key}
use unity_catalog.Store.Snapshot.{Snapshot, apply}
use unity_catalog.Store.Log.Memory
use unity_catalog.Store.Log.Memory.{MemoryLog, PutResult}
use unity_catalog.Store.Log.Commit.{Actor, CommitInfo, JsonLines, encode_commit, format_version}
use unity_catalog.Store.Log.Replay.{ObjectLog, Entry, read_commits_after}
use unity_catalog.Store.Log.Checkpoint.{LastCheckpoint, content_hash, resolve_checkpoint}
use unity_catalog.Store.Dump.{encode_checkpoint, decode_checkpoint}
use unity_catalog.Repos.Build.{Build}

-- `Result<(), UcError>`
abbrev pub Outcome : Type 0
Outcome = Result {0} Unit

-- the shared log, and the snapshot of this process
pub record World : Type 0 where
  pub log : MemoryLog
  pub state : Snapshot

abbrev pub checkpoint_interval : ℕ
checkpoint_interval = 100

abbrev pub max_commit_attempts : ℕ
max_commit_attempts = 8

-- the log in memory as an `ObjectLog`: its operations do not fail
abbrev pub object_log : MemoryLog → ObjectLog
object_log o = record {
  get = λ key. ok (Memory.get key o);
  list_after = λ prefix cursor. ok (Memory.list_after prefix cursor o);
}

-- serde_json's reader and writer of the pointer object
pub record PointerText : Type 0 where
  pub parse_pointer : Text → Option LastCheckpoint
  pub pointer_text : LastCheckpoint → Option Text

-- what an attempt ends with: `return`, or `continue`
pub data Step (A : Type 0) : Type 0 where
  done : World → Result A → Step A
  retry : World → Step A

module _ {Value : Type 0} {platform : Platform Value} (json : JsonLines platform)
    (pointers : PointerText) where
  -- `for act in &actions { state.apply(act)?; }`: what was applied before an error stays
  unfoldable pub apply_each : Snapshot → List (Action Value) → Snapshot × Outcome
  apply_each s [] = (s, ok tt)
  apply_each s (act ∷ acts) = elim (apply platform s act) [
    | err code ↦ (s, err code)
    | ok next ↦ apply_each next acts
  ]

  -- the loop over the commits that were read
  unfoldable pub apply_entries : Snapshot → List (Entry Value) → Snapshot × Outcome
  apply_entries s [] = (s, ok tt)
  apply_entries s ((version, (_, actions)) ∷ entries) =
      let applied = apply_each s actions in
      elim applied.1 [
        | err code ↦ (applied.0, err code)
        | ok _ ↦ apply_entries (record applied.0 { version = version }) entries
      ]

  unfoldable pub from_checkpoint : Snapshot → Option (ℕ × Text) → Result Snapshot
  from_checkpoint state none = ok state
  from_checkpoint state (some (version, body)) =
      decode_checkpoint json body >>= λ loaded. ok (record loaded { version = version })

  -- `if state.version == 0 { … }`
  unfoldable pub restore : World → Result Snapshot
  unfolding from_checkpoint
  restore w =
      if w.state.version == 0
      then (resolve_checkpoint pointers.parse_pointer (object_log w.log)
          >>= from_checkpoint w.state)
      else ok w.state

  unfoldable pub replay_onto : World → Option (Result (List (Entry Value))) → World × Outcome
  unfolding apply_entries
  replay_onto w none = (w, err internal)
  replay_onto w (some (err code)) = (w, err code)
  replay_onto w (some (ok entries)) =
      let applied = apply_entries w.state entries in (record w { state = applied.0 }, applied.1)

  -- The listing has one unit of fuel for each object, and one more.
  unfoldable pub catch_up : World → World × Outcome
  unfolding restore replay_onto
  catch_up w = elim (restore w) [
    | err code ↦ (w, err code)
    | ok state ↦
        replay_onto (record w { state = state })
          (read_commits_after json (object_log w.log) (suc (Memory.len w.log)) state.version)
  ]

  -- the put of the pointer, once it is written out
  unfoldable pub put_pointer : Option Text → MemoryLog → MemoryLog × Outcome
  put_pointer none o = (o, err internal)
  put_pointer (some pointer) o = (Memory.put last_checkpoint_key pointer o, ok tt)

  -- the objects that a checkpoint writes: the body, unless it is there, and then the pointer
  unfoldable pub put_checkpoint : ℕ → (Text × ℕ) → MemoryLog → MemoryLog × Outcome
  unfolding put_pointer
  put_checkpoint version (body, size) o =
      put_pointer
        (pointers.pointer_text
          (record { version = version; size = size; checksum = some (content_hash body) }))
        (Memory.put_if_absent (checkpoint_key version) body o).0

  -- what `encode_checkpoint` gave is put
  unfoldable pub put_encoded : ℕ → Result (Text × ℕ) → World → World × Outcome
  unfolding put_checkpoint
  put_encoded version (err code) w = (w, err code)
  put_encoded version (ok dump) w =
      let written = put_checkpoint version dump w.log in (record w { log = written.0 }, written.1)

  unfoldable pub write_checkpoint : ℕ → World → World × Outcome
  unfolding put_encoded
  write_checkpoint version w =
      if w.state.version == version
      then put_encoded version (encode_checkpoint json w.state) w
      else (w, ok tt)

  -- an error is logged and dropped
  unfoldable pub maybe_checkpoint : ℕ → World → World
  unfolding write_checkpoint
  maybe_checkpoint version w =
      if version % checkpoint_interval == 0 then (write_checkpoint version w).0 else w

  -- what the writer of the commit at `target` does with its snapshot
  unfoldable pub adopt : ℕ → List (Action Value) → World → World × Outcome
  unfolding apply_each
  adopt target actions w =
      if w.state.version + 1 == target
      then (let applied = apply_each w.state actions in
          elim applied.1 [
            | err code ↦ (record w { state = applied.0 }, err code)
            | ok _ ↦ (record w { state = record applied.0 { version = target } }, ok tt)
          ])
      else (w, ok tt)

  -- the arm `PutResult::Created`
  unfoldable pub created : {A : Type 0} → ℕ → List (Action Value) → A → World → Step A
  unfolding adopt maybe_checkpoint
  created target actions out w =
      let adopted = adopt target actions w in
      elim adopted.1 [
        | err code ↦ Step.done adopted.0 (err code)
        | ok _ ↦ Step.done (maybe_checkpoint target adopted.0) (ok out)
      ]

  -- the arm `PutResult::AlreadyExists`
  unfoldable pub lost : {A : Type 0} → World → Step A
  unfolding catch_up
  lost w =
      let caught = catch_up w in
      elim caught.1 [ err code ↦ Step.done caught.0 (err code) | ok _ ↦ Step.retry caught.0 ]

  -- the `match` on what the put gave
  unfoldable pub answered : {A : Type 0} → ℕ → List (Action Value) → A → PutResult → World → Step A
  unfolding created lost
  answered target actions out PutResult.created w = created target actions out w
  answered target actions out PutResult.already_exists w = lost w

  -- `now` is the clock at an attempt, and `others` is what happens while it waits: before the put, and
  -- after it.
  module _ (now : ℕ → ℤ) (operation : Text) (actor : Option Actor) (others : ℕ → World → World)
      {A : Type 0} (build : Build Value A) where
    unfoldable pub info : ℕ → CommitInfo
    info n = record {
      format = format_version;
      timestamp = now n;
      operation = some operation;
      actor = actor;
    }

    unfoldable pub publish : ℕ → ℕ → List (Action Value) → A → Text → World → Step A
    unfolding answered
    publish n target actions out body w =
        let put = Memory.put_if_absent (commit_key target) body w.log in
        answered target actions out put.1 (others n (record w { log = put.0 }))

    unfoldable pub propose : ℕ → World → List (Action Value) → A → Step A
    unfolding publish info
    propose n w [] out = Step.done w (ok out)
    propose n w (act ∷ acts) out = elim (encode_commit json (info n) (act ∷ acts)) [
      | err code ↦ Step.done w (err code)
      | ok body ↦ publish n (w.state.version + 1) (act ∷ acts) out body (others n w)
    ]

    unfoldable pub attempt : ℕ → World → Step A
    unfolding propose
    attempt n w = elim (build w.state) [
      | err code ↦ Step.done w (err code)
      | ok built ↦ propose n w built.0 built.1
    ]

    unfoldable pub attempts : ℕ → World → World × Result A
    unfolding attempt
    attempts zero w = (w, err internal)
    attempts (suc n) w = elim (attempt n w) [
      | Step.done w' result ↦ (w', result)
      | Step.retry w' ↦ attempts n w'
    ]

    unfoldable pub commit : World → World × Result A
    unfolding attempts
    commit w = attempts max_commit_attempts w
