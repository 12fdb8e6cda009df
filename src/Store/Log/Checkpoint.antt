-- ===== src/Store/Log/Checkpoint.antt =====
-- `content_hash` and `resolve_checkpoint` of crates/uc-db/src/store/log.rs.
pub mod Intact
use Prim.Native.Nat.{bit_xor}
use unity_catalog.Prelude.{
  ℕ, zero, suc, ◌+◌, ◌*◌, ◌/◌, ◌%◌, ◌^◌, Bool, true, false, ◌&&◌, Option, none, some, List, [], ◌∷◌,
  ◌++◌, Result, ok, ◌>>=◌, ltb, ◌==◌, if◌then◌else◌,
}
use unity_catalog.Prelude.Text.{Text}
use unity_catalog.Prelude.Order.{eqb, bytes_ord}
use unity_catalog.Store.Keys.{checkpoint_key, last_checkpoint_key}
use unity_catalog.Store.Log.Replay.{ObjectLog}

pub record LastCheckpoint : Type 0 where
  pub version : ℕ
  pub size : ℕ
  pub checksum : Option Text

-- FNV-1a, 64-bit
unfoldable pub hash_from : ℕ → Text → ℕ
hash_from h [] = h
hash_from h (b ∷ bytes) = hash_from (bit_xor h b * 1099511628211 % 2 ^ 64) bytes

abbrev pub hex_digit : ℕ → ℕ
hex_digit d = if ltb d 10 then 48 + d else 87 + d

-- the `w` hexadecimal digits of a number that has no more
unfoldable pub hex : ℕ → ℕ → Text
hex zero h = []
hex (suc w) h = hex w (h / 16) ++ hex_digit (h % 16) ∷ []

-- `format!("{h:016x}")` of a u64
unfoldable pub content_hash : Text → Text
unfolding hash_from hex
content_hash bytes = hex 16 (hash_from 14695981039346656037 bytes)

unfoldable pub line_count : Text → ℕ
line_count [] = 0
line_count (c ∷ s) = let rest = line_count s in if c == 10 then suc rest else rest

-- verified when present
abbrev pub is_hash_of : Option Text → Text → Bool
is_hash_of none body = true
is_hash_of (some expected) body = eqb (content_hash body) expected

-- neither truncated nor corrupted, as far as the pointer tells
unfoldable pub is_intact : LastCheckpoint → Text → Bool
is_intact parsed body = line_count body == parsed.size && is_hash_of parsed.checksum body

-- `serde_json::from_slice::<LastCheckpoint>` is an argument.
module _ (parse_pointer : Text → Option LastCheckpoint) (log : ObjectLog) where
  unfoldable pub checked_body : LastCheckpoint → Option Text → Option (ℕ × Text)
  checked_body parsed none = none
  checked_body parsed (some body) =
      if is_intact parsed body then some (parsed.version, body) else none

  unfoldable pub follow_pointer : Option LastCheckpoint → Result (Option (ℕ × Text))
  unfolding checked_body
  follow_pointer none = ok none
  follow_pointer (some parsed) =
      log.get (checkpoint_key parsed.version) >>= λ body. ok (checked_body parsed body)

  unfoldable pub read_pointer : Option Text → Result (Option (ℕ × Text))
  unfolding follow_pointer
  read_pointer none = ok none
  read_pointer (some pointer) = follow_pointer (parse_pointer pointer)

  unfoldable pub resolve_checkpoint : Result (Option (ℕ × Text))
  unfolding read_pointer
  resolve_checkpoint = log.get last_checkpoint_key >>= read_pointer
