-- ===== src/Lib.antt =====
-- Verification of Unity Catalog's metadata store.
--
-- The program is a metadata server. Its state is a snapshot of typed rows in memory, which
-- crates/uc-db/src/store keeps: the rows of each kind of entity by id, and an ordered index from
-- natural keys (the UNIQUE columns) to ids. The repositories, crates/uc-db/src/repos, hand the store
-- a closure that looks at the snapshot and returns actions, upserts and removals, and they read the
-- snapshot for lookups and listings. The API crates call the repositories.
--
-- Prelude          what the files share: bytes for String, i64 as integers, Result with the error
--                  code, HashMap and BTreeMap as association lists with their laws, decimal texts.
-- Errors           crates/uc-errors/src/lib.rs: statuses and names of the error codes (the codes
--                  themselves are Prelude/Fallible).
-- Types            crates/uc-types/src/lib.rs: privileges, the implication edges, URI schemes.
-- Models           crates/uc-db/src/models: the row structs, field by field, and in Models/Policy the
--                  conversion of a policy rule to and from casbin's columns.
-- Pagination       crates/uc-db/src/pagination.rs: page, over_fetch.
-- Store/Kind       crates/uc-db/src/store/action.rs: EntityKind and its order.
-- Store/Action     crates/uc-db/src/store/action.rs: Action.
-- Store/Row        crates/uc-db/src/store/row.rs: Row, from_body, to_body, kind.
-- Store/Keys       crates/uc-db/src/store/action.rs and delta_log.rs: the object keys.
-- Store/NaturalKey crates/uc-db/src/store/mod.rs: natural_key_for, pad_i64.
-- Store/Snapshot   crates/uc-db/src/store/mod.rs: Snapshot and its methods. `apply` is split into
--                  `place` and `displace`, the writes of its two arms.
-- Store/Log/Memory   crates/uc-db/src/store/memory.rs: MemoryLog and its operations.
-- Store/Log/Listing  crates/uc-db/src/store/log.rs: list_all_in_range and list_all_after, over any
--                  backend.
-- Store/Log/Lines  the tests on Rust strings that decode_commit makes: UTF-8, lines, blank lines.
-- Store/Log/Commit crates/uc-db/src/store/action.rs: Line, CommitInfo, encode_commit, decode_commit.
-- Store/Log/Replay crates/uc-db/src/store/log.rs: read_commits_after.
-- Store/Log/Checkpoint  crates/uc-db/src/store/log.rs: content_hash, resolve_checkpoint. The parser of
--                  the pointer is an argument.
-- Store/Dump       crates/uc-db/src/store/mod.rs: encode_checkpoint and decode_checkpoint.
-- Store/Protocol   crates/uc-db/src/store/mod.rs: StoreInner with catch_up, commit, maybe_checkpoint
--                  and write_checkpoint. One attempt of the loop is `attempt`, cut where the source
--                  awaits: what happens meanwhile elsewhere is the argument `others`, which may change
--                  the log and the snapshot. History is the ghost list of commits that the
--                  invariant (Invariant) reads out of a log.
-- Store/Delta      crates/uc-db/src/store/delta_log.rs: DeltaLog and its operations, over the log in memory.
-- Store/Valid      the invariant that the repositories keep.
-- Repos            crates/uc-db/src/repos: one module per file, one function per operation. A write is
--                  the closure that the repository passes to `StoreInner::commit`; the time and a
--                  fresh id, which the source takes from the clock, are arguments. Build holds what
--                  the closures share, Requests runs them one after the other on a snapshot, Writes
--                  adds insert_columns and find_or_create_by_external_id, and Sound takes the requests
--                  to the commit loop.
-- Tests            the theorems at concrete inputs.
--
-- Outside the repository, and so parameters (Store/Platform): serde_json's conversion of a row to a
-- value and back, with the law that a value written for a row is read as that row, and the text of a
-- UUID, which is one text for one UUID and holds no NUL. Store/Log/Commit adds the text of one line of a
-- commit (JsonLines): a JSON object in UTF-8 without control characters, which is read back as the line
-- it was written for. The backend of a listing is a parameter too.
--
-- Numbers: an i64 or i32 field is an integer of unbounded size that the modelled code compares and
-- prints but never computes with; where a width matters (object keys of 20 digits, padded column
-- positions, saturation of a limit) the theorem has the bound as a hypothesis or the definition
-- saturates. The one loop on fuel is the listing, `pages`, a unit for each page; one more than the number
-- of keys to list is proved enough, and catch_up gives one more than the number of objects. All else is
-- structurally recursive; the loop of commit counts its eight attempts down. A version is a natural
-- number: that a u64 would wrap after 2^64 commits is not modelled.
--
-- Bounds of the protocol: the log is the one in memory, whose operations do not fail, and each of its
-- operations and each pass of catch_up is one step; other tasks act between those steps. Locks are not
-- modelled beyond that.
--
-- Not modelled: managed storage, the S3 backend, the authorizer, JWTs, credential vending, the HTTP
-- handlers and the server. Message texts of errors and tracing are left out. Three writes are no
-- requests of Requests: Property.replace, and the two that write keys which they have not looked up,
-- Table.insert_columns (the position of a column in its table) and User.find_or_create_by_external_id
-- (the name of a user); Writes runs those two between the requests. `doc[key] = value` of serde_json
-- panics on a document that is no object, which Documents leaves out.
pub mod Prelude
pub mod Errors
pub mod Types
pub mod Models
pub mod Pagination
pub mod Store
pub mod Repos
pub mod Tests
