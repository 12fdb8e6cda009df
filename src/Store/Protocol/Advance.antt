-- ===== src/Store/Protocol/Advance.antt =====
-- Writes to the log that keep the invariant: of the next commit, of a checkpoint and of the pointer.
use unity_catalog.Prelude.{
  ℕ, suc, ◌≤◌, ◌%◌, Option, none, some, List, [], ◌∷◌, length, Result, ok, err, ◌==◌, ◌≡◌, ◌⊎◌,
  refl, sym, ap, ◌∙◌, subst, inl, inr, arith, Bool-cases, Option-cases,
}
use unity_catalog.Prelude.Text.{Text}
use unity_catalog.Prelude.Order.{eqb, eqb→eq, eqb_refl, bytes_ord}
use unity_catalog.Prelude.BTreeMap
use unity_catalog.Store.Platform.{Platform}
use unity_catalog.Store.Action.{Action}
use unity_catalog.Store.Keys.{commit_key, checkpoint_key, last_checkpoint_key, version_from_key}
use unity_catalog.Store.Keys.Versions.{version_from_key-checkpoint_key}
use unity_catalog.Store.Keys.Distinct.{
  checkpoint_key-injective, commit_key-injective, version_from_key-commit_key_eq,
}
use unity_catalog.Store.Snapshot.{Snapshot}
use unity_catalog.Store.Valid.{IsValid}
use unity_catalog.Store.Log.Memory
use unity_catalog.Store.Log.Memory.{MemoryLog, PutResult}
use unity_catalog.Store.Log.Checkpoint.{content_hash}
use unity_catalog.Store.Log.Commit.{CommitInfo, JsonLines, decode_commit}
use unity_catalog.Store.Dump.{encode_checkpoint}
use unity_catalog.Store.Dump.RoundTrip.{decode_checkpoint-encode_checkpoint}
use unity_catalog.Store.Snapshot.Same.{IsSame-trans}
use unity_catalog.Store.Protocol.{
  World, PointerText, put_pointer, put_checkpoint, put_encoded, write_checkpoint, maybe_checkpoint,
}
use unity_catalog.Store.Protocol.Distinct.{
  commit_key-checkpoint_key, last_checkpoint_key-commit_key, last_checkpoint_key-checkpoint_key,
  version_from_key-last,
}
use unity_catalog.Store.Protocol.History.{History, IsPast, replay}
use unity_catalog.Store.Protocol.Invariant.{IsAt, IsStored, IsDump, IsLog}

pub put_if_absent-cases :
    (key body : Text) (o : MemoryLog)
    → ((there : Text) × (Memory.get key o ≡ some there)
        × (Memory.put_if_absent key body o ≡ (o, PutResult.already_exists)))
      ⊎ ((Memory.get key o ≡ none)
          × (Memory.put_if_absent key body o ≡ (Memory.put key body o, PutResult.created)))
unfolding Memory.put_if_absent Memory.get Memory.put
put_if_absent-cases key body o = elim (Option-cases (BTreeMap.get key o)) [
  | inl absent ↦ inr (absent, ground arith)
  | inr (there, e) ↦ inl (there, e, ground arith)
]

pub get-put_cases :
    (key body other found : Text) (o : MemoryLog)
    → Memory.get other (Memory.put key body o) ≡ some found
    → ((key ≡ other) × (body ≡ found)) ⊎ (Memory.get other o ≡ some found)
unfolding Memory.put Memory.get
get-put_cases key body other found o h = elim (Bool-cases (eqb key other)) [
  | inl e ↦ inl (eqb→eq key other e, ground (arith, BTreeMap.get-insert key other body o))
  | inr n ↦ inr (ground (arith, BTreeMap.get-insert key other body o))
]

pub get-put_other :
    (key body other : Text) (o : MemoryLog)
    → (key ≡ other → ⊥)
    → Memory.get other (Memory.put key body o) ≡ Memory.get other o
unfolding Memory.put Memory.get
get-put_other key body other o d = elim (Bool-cases (eqb key other)) [
  | inl e ↦ absurd (d (eqb→eq key other e))
  | inr n ↦ ground (arith, BTreeMap.get-insert key other body o)
]

pub get-put_self :
    (key body : Text) (o : MemoryLog) → Memory.get key (Memory.put key body o) ≡ some body
unfolding Memory.put Memory.get
get-put_self key body o = ground (arith, BTreeMap.get-insert key key body o, eqb_refl key)

pub put-IsSorted :
    (key body : Text) (o : MemoryLog)
    → BTreeMap.IsSorted o
    → BTreeMap.IsSorted (Memory.put key body o)
unfolding Memory.put
put-IsSorted key body o s = BTreeMap.insert-IsSorted key body o s

module _ {Value : Type 0} {platform : Platform Value} (json : JsonLines platform) where
  keep-IsStored :
      (o o' : MemoryLog) (h : History Value)
      → ((n : ℕ) → n ≤ length h → Memory.get (commit_key n) o' ≡ Memory.get (commit_key n) o)
      → IsStored json o h
      → IsStored json o' h
  keep-IsStored o o' [] same s = tt
  keep-IsStored o o' (acts ∷ h) same ((body, info, there, read), s) = (
    (body, info, same (suc (length h)) (omega arith) ∙ there, read),
    keep-IsStored o o' h (λ n le. same n (omega (arith, le))) s,
  )

  -- An object that is no commit may be put, if it is a checkpoint of the history where it is named as one.
  put-IsLog :
      (key body : Text) (o : MemoryLog) (h : History Value)
      → IsLog json o h
      → version_from_key key ≡ none
      → ((n : ℕ) → key ≡ commit_key n → ⊥)
      → ((version : ℕ) → key ≡ checkpoint_key version → IsDump json version body h)
      → IsLog json (Memory.put key body o) h
  put-IsLog key body o h l unread other dump = record {
    sorted = put-IsSorted key body o l.sorted;
    stored =
        keep-IsStored o (Memory.put key body o) h
          (λ n le. get-put_other key body (commit_key n) o (other n)) l.stored;
    bounded = λ key' found v there named. elim (get-put_cases key body key' found o there) [
      | inl (same, _) ↦ absurd (no_version key key' v same named unread)
      | inr old ↦ l.bounded key' found v old named
    ];
    valid = l.valid;
    dumped = λ version found there.
        elim (get-put_cases key body (checkpoint_key version) found o there) [
          | inl (same, e) ↦ subst (λ (b : Text). IsDump json version b h) e (dump version same)
          | inr old ↦ l.dumped version found old
        ];
  }
    where
      no_version :
          (key key' : Text) (v : ℕ)
          → key ≡ key'
          → version_from_key key' ≡ some v
          → version_from_key key ≡ none
          → ⊥
      no_version key key' v e n m = absurd (ground (arith, ap version_from_key e))

  -- The next commit may be put, where it is read as actions that lead to a snapshot that satisfies the
  -- invariant.
  pub append-IsLog :
      (o : MemoryLog) (h : History Value) (body : Text) (info : CommitInfo)
      (acts : List (Action Value))
      → IsLog json o h
      → decode_commit json body ≡ ok (info, acts)
      → ((s : Snapshot) × (replay platform (acts ∷ h) ≡ ok s) × IsValid platform s)
      → IsLog json (Memory.put (commit_key (suc (length h))) body o) (acts ∷ h)
  append-IsLog o h body info acts l read after =
      let key = commit_key (suc (length h)) in
      record {
        sorted = put-IsSorted key body o l.sorted;
        stored = (
          (body, info, get-put_self key body o, read),
          keep-IsStored o (Memory.put key body o) h
              (λ n le.
                get-put_other key body (commit_key n) o
                  (λ e. omega (arith, commit_key-injective (suc (length h)) n e, le)))
              l.stored,
        );
        bounded = λ key' found v there named. elim (get-put_cases key body key' found o there) [
          | inl (same, _) ↦
              let e : v ≡ suc (length h) =
                version_from_key-commit_key_eq (suc (length h)) v
                  (ap version_from_key same ∙ named) in
              (sym same ∙ ap commit_key (sym e), omega (arith, e))
          | inr old ↦ let (k, b) = l.bounded key' found v old named in (k, omega (arith, b))
        ];
        valid = λ past p. elim p [
          | inl e ↦ let (s, r, v) = after in (s, ap (replay platform) e ∙ r, v)
          | inr p' ↦ l.valid past p'
        ];
        dumped = λ version found there.
            elim (get-put_cases key body (checkpoint_key version) found o there) [
              | inl (same, _) ↦ absurd (commit_key-checkpoint_key (suc (length h)) version same)
              | inr old ↦
                  let (past, s, t, p, n, r, d, e, v) = l.dumped version found old in
                  (past, s, t, inr p, n, r, d, e, v)
            ];
      }

  module _ (pointers : PointerText) where
    -- The checkpoint of a snapshot at a moment of the history is a checkpoint of the history.
    IsDump-of :
        (state : Snapshot) (past h : History Value) (body : Text) (size version : ℕ)
        → IsAt platform state past
        → IsPast past h
        → state.version ≡ version
        → encode_checkpoint json state ≡ ok (body, size)
        → IsDump json version body h
    IsDump-of state past h body size version a p n e =
        let (s, r, same) = a.replayed in
        let (_, (t, d, same', v)) =
          decode_checkpoint-encode_checkpoint json state body size a.valid e in
        (past, s, t, p, a.version ∙ n, r, d, IsSame-trans s state t same same', v)

    put_checkpoint-IsLog :
        (version size : ℕ) (body : Text) (o : MemoryLog) (h : History Value)
        → IsLog json o h
        → IsDump json version body h
        → IsLog json (put_checkpoint json pointers version (body, size) o).0 h
    unfolding put_checkpoint put_pointer
    put_checkpoint-IsLog version size body o h l d =
        with_pointer
          (pointers.pointer_text
            (record { version = version; size = size; checksum = some (content_hash body) }))
          (Memory.put_if_absent (checkpoint_key version) body o).0
          (with_body (put_if_absent-cases (checkpoint_key version) body o))
      where
        with_body :
            ((there : Text) × (Memory.get (checkpoint_key version) o ≡ some there)
                × (Memory.put_if_absent (checkpoint_key version) body o
                    ≡ (o, PutResult.already_exists)))
              ⊎ ((Memory.get (checkpoint_key version) o ≡ none)
                  × (Memory.put_if_absent (checkpoint_key version) body o
                      ≡ (Memory.put (checkpoint_key version) body o, PutResult.created)))
            → IsLog json (Memory.put_if_absent (checkpoint_key version) body o).0 h
        with_body (inl (_, _, e)) = rw e l
        with_body (inr (_, e)) = rw e (
            put-IsLog (checkpoint_key version) body o h l (version_from_key-checkpoint_key version)
              (λ n q. commit_key-checkpoint_key n version (sym q))
              (λ v q.
                subst (λ (x : ℕ). IsDump json x body h) (checkpoint_key-injective version v q) d))

        with_pointer :
            (text : Option Text) (o' : MemoryLog)
            → IsLog json o' h
            → IsLog json (put_pointer json pointers text o').0 h
        with_pointer none o' l' = l'
        with_pointer (some pointer) o' l' =
            put-IsLog last_checkpoint_key pointer o' h l' version_from_key-last
              last_checkpoint_key-commit_key
              (λ v q. absurd (last_checkpoint_key-checkpoint_key v q))

    -- The checkpoint that a commit may write keeps the log one of the same history, and leaves the
    -- snapshot as it is.
    pub maybe_checkpoint-IsLog :
        (version : ℕ) (w : World) (h past : History Value)
        → IsLog json w.log h
        → IsPast past h
        → IsAt platform w.state past
        → IsLog json (maybe_checkpoint json pointers version w).log h
          × ((maybe_checkpoint json pointers version w).state ≡ w.state)
    unfolding maybe_checkpoint write_checkpoint put_encoded
    maybe_checkpoint-IsLog version w h past l p a = elim (Bool-cases (version % 100 == 0)) [
      | inr off ↦ rw off (l, refl)
      | inl due ↦ rw due (elim (Bool-cases (w.state.version == version)) [
        | inr moved ↦ rw moved (l, refl)
        | inl still ↦ rw still (dumped (encode_checkpoint json w.state) refl (ground (arith)))
      ])
    ]
      where
        dumped :
            (dump : Result (Text × ℕ))
            → encode_checkpoint json w.state ≡ dump
            → w.state.version ≡ version
            → IsLog json (put_encoded json pointers version dump w).0.log h
              × ((put_encoded json pointers version dump w).0.state ≡ w.state)
        dumped (err code) e n = (l, refl)
        dumped (ok (body, size)) e n = (
          put_checkpoint-IsLog version size body w.log h l
              (IsDump-of w.state past h body size version a p n e),
          refl,
        )
