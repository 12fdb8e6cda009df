-- ===== src/Store/Log/Checkpoint/Intact.antt =====
-- What replay may start from.
use unity_catalog.Prelude.{
  ℕ, true, Option, none, some, ok, >>=-eq-ok, ◌≡◌, refl, sym, ap, ◌∙◌, arith, Bool-cases, inl, inr,
}
use unity_catalog.Prelude.Text.{Text}
use unity_catalog.Store.Keys.{checkpoint_key, last_checkpoint_key}
use unity_catalog.Store.Log.Replay.{ObjectLog}
use unity_catalog.Store.Log.Checkpoint.{
  LastCheckpoint, line_count, is_hash_of, is_intact, checked_body, follow_pointer, read_pointer,
  resolve_checkpoint,
}

module _ (parse_pointer : Text → Option LastCheckpoint) (log : ObjectLog) where
  -- The body is the checkpoint that the stored pointer names, as long as the pointer says, and with
  -- its hash where the pointer has one.
  abbrev pub IsPointedAt : ℕ → Text → Type 0
  IsPointedAt version body =
      (pointer : Text) × (parsed : LastCheckpoint) × (log.get last_checkpoint_key
        ≡ ok (some pointer))
      × (parse_pointer pointer ≡ some parsed)
      × (parsed.version ≡ version)
      × (log.get (checkpoint_key version) ≡ ok (some body))
      × (line_count body ≡ parsed.size)
      × (is_hash_of parsed.checksum body ≡ true)

  checked_body-some :
      (parsed : LastCheckpoint) (object : Option Text) (version : ℕ) (body : Text)
      → checked_body parse_pointer log parsed object ≡ some (version, body)
      → (object ≡ some body)
        × (parsed.version ≡ version)
        × (line_count body ≡ parsed.size)
        × (is_hash_of parsed.checksum body ≡ true)
  unfolding checked_body is_intact
  checked_body-some parsed none version body h = cc
  checked_body-some parsed (some b) version body h = elim (Bool-cases (is_intact parsed b)) [
    | inr broken ↦ absurd (ground arith)
    | inl intact ↦
        let q : b ≡ body = ground arith in
        let r : parsed.version ≡ version = ground arith in
        let i : is_intact parsed body ≡ true = ap (is_intact parsed) (sym q) ∙ intact in
        (ap some q, r, ground arith, ground arith)
  ]

  -- A checkpoint that replay is told to start from is intact: it is the object that the stored
  -- pointer names, it has the number of lines that the pointer says, and its hash is the pointer's
  -- where there is one.
  pub resolve_checkpoint-intact :
      (version : ℕ) (body : Text)
      → resolve_checkpoint parse_pointer log ≡ ok (some (version, body))
      → IsPointedAt version body
  unfolding resolve_checkpoint read_pointer follow_pointer
  resolve_checkpoint-intact version body h =
      let (stored, g, h1) = >>=-eq-ok (log.get last_checkpoint_key) _ h in from_stored stored g h1
    where
      from_parsed :
          (pointer : Text) (read : Option LastCheckpoint)
          → log.get last_checkpoint_key ≡ ok (some pointer)
          → parse_pointer pointer ≡ read
          → follow_pointer parse_pointer log read ≡ ok (some (version, body))
          → IsPointedAt version body
      from_parsed pointer none g p h = absurd (ground arith)
      from_parsed pointer (some parsed) g p h =
          let (object, o, e) = >>=-eq-ok (log.get (checkpoint_key parsed.version)) _ h in
          let c : checked_body parse_pointer log parsed object ≡ some (version, body) =
            ground arith in
          let (q, v, n, s) = checked_body-some parsed object version body c in
          (
            pointer,
            parsed,
            g,
            p,
            v,
            ap (λ (w : ℕ). log.get (checkpoint_key w)) (sym v) ∙ o ∙ ap ok q,
            n,
            s,
          )

      from_stored :
          (stored : Option Text)
          → log.get last_checkpoint_key ≡ ok stored
          → read_pointer parse_pointer log stored ≡ ok (some (version, body))
          → IsPointedAt version body
      from_stored none g h = absurd (ground arith)
      from_stored (some pointer) g h = from_parsed pointer (parse_pointer pointer) g refl h
