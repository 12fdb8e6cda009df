-- ===== src/Store/Protocol/Invariant.antt =====
-- What the main log and the snapshots of the processes are, of one history.
use unity_catalog.Prelude.{
  ℕ, suc, ◌≤◌, some, List, [], ◌∷◌, length, ok, ◌≡◌, refl, sym, ap, ◌∙◌, inl, inr, arith,
}
use unity_catalog.Prelude.Text.{Text}
use unity_catalog.Prelude.Order.{bytes_ord, pair_ord}
use unity_catalog.Prelude.BTreeMap
use unity_catalog.Store.Kind.{kind_ord}
use unity_catalog.Store.Platform.{Platform}
use unity_catalog.Store.Action.{Action}
use unity_catalog.Store.Keys.{commit_key, checkpoint_key, version_from_key}
use unity_catalog.Store.Snapshot.{Snapshot, apply_all}
use unity_catalog.Store.Snapshot.Same.{IsSame, IsSame-trans, apply_all-IsSame}
use unity_catalog.Store.Snapshot.Coherent.{apply_all-IsCoherent}
use unity_catalog.Store.Valid.{IsValid}
use unity_catalog.Store.Log.Memory
use unity_catalog.Store.Log.Memory.{MemoryLog}
use unity_catalog.Store.Log.Commit.{CommitInfo, JsonLines, decode_commit}
use unity_catalog.Store.Dump.{decode_checkpoint}
use unity_catalog.Store.Protocol.{World}
use unity_catalog.Store.Protocol.History.{History, IsPast, replay, same-IsValid, IsSame-version}

-- The snapshot is the one of a history.
pub record IsAt {Value : Type 0} (platform : Platform Value) (state : Snapshot)
    (past : History Value) : Type 0 where
  pub version : length past ≡ state.version
  pub replayed : (s : Snapshot) × (replay platform past ≡ ok s) × IsSame s state
  pub valid : IsValid platform state

module _ {Value : Type 0} {platform : Platform Value} (json : JsonLines platform) where
  -- The object of each commit is there, and is read as the actions of the history.
  abbrev pub IsStored : MemoryLog → History Value → Type 0
  IsStored o [] = Unit
  IsStored o (acts ∷ h) =
      ((body : Text) × (info : CommitInfo) × (Memory.get (commit_key (suc (length h))) o
          ≡ some body)
        × (decode_commit json body ≡ ok (info, acts)))
      × IsStored o h

  -- An object under a checkpoint key is loaded as the snapshot at its version.
  abbrev pub IsDump : ℕ → Text → History Value → Type 0
  IsDump version body h =
      (past : History Value) × (s t : Snapshot) × IsPast past h
      × (length past ≡ version)
      × (replay platform past ≡ ok s)
      × (decode_checkpoint json body ≡ ok t)
      × IsSame s t
      × IsValid platform t

  pub stored_at :
      (o : MemoryLog) (h g : History Value) (acts : List (Action Value))
      → IsStored o h
      → IsPast (acts ∷ g) h
      → (body : Text) × (info : CommitInfo) × (Memory.get (commit_key (suc (length g))) o
          ≡ some body)
        × (decode_commit json body ≡ ok (info, acts))
  stored_at o [] g acts s p = absurd cc
  stored_at o (a ∷ h) g acts (s, _) (inl e) =
      let n : length h ≡ length g = ground arith in
      let q : a ≡ acts = ground arith in
      let (body, info, there, read) = s in
      (
        body,
        info,
        ap (λ (v : ℕ). Memory.get (commit_key (suc v)) o) (sym n) ∙ there,
        read ∙ ap (λ (x : List (Action Value)). ok (info, x)) q,
      )
  stored_at o (a ∷ h) g acts (_, s) (inr p) = stored_at o h g acts s p

-- The main log is the one of a history.
pub record IsLog {Value : Type 0} {platform : Platform Value} (json : JsonLines platform)
    (o : MemoryLog) (h : History Value) : Type 0 where
  pub sorted : BTreeMap.IsSorted o
  pub stored : IsStored json o h
  -- no other object is listed as a commit
  pub bounded :
      (key body : Text) (v : ℕ)
      → Memory.get key o ≡ some body
      → version_from_key key ≡ some v
      → (key ≡ commit_key v) × (v ≤ length h)
  -- every moment of it has a snapshot that satisfies the invariant
  pub valid :
      (past : History Value)
      → IsPast past h
      → (s : Snapshot) × (replay platform past ≡ ok s) × IsValid platform s
  pub dumped :
      (version : ℕ) (body : Text)
      → Memory.get (checkpoint_key version) o ≡ some body
      → IsDump json version body h

-- The snapshot of this process is the one of some moment of the log's history.
abbrev pub IsWorld :
    {Value : Type 0} {platform : Platform Value}
    → JsonLines platform
    → World
    → History Value
    → Type 0
IsWorld {platform = platform} json w h =
    IsLog json w.log h × ((past : History _) × IsPast past h × IsAt platform w.state past)

module _ {Value : Type 0} (platform : Platform Value) where
  pub IsAt-version :
      (s : Snapshot) (version : ℕ) (past : History Value) (t : Snapshot)
      → IsValid platform s
      → replay platform past ≡ ok t
      → IsSame t s
      → length past ≡ version
      → IsAt platform (record s { version = version }) past
  IsAt-version s version past t v r e n = record {
    version = n;
    replayed = (
      t,
      r,
      IsSame-trans t s (record s { version = version }) e (IsSame-version platform s version),
    );
    valid =
        same-IsValid platform s (record s { version = version }) (IsSame-version platform s version)
          v.coherent.sorted v;
  }

  -- The actions of the next commit of a history apply to a snapshot at its end.
  pub IsAt-next :
      (state : Snapshot) (g : History Value) (acts : List (Action Value))
      → IsAt platform state g
      → ((s : Snapshot) × (replay platform (acts ∷ g) ≡ ok s) × IsValid platform s)
      → (t : Snapshot) × (apply_all platform state acts ≡ ok t)
        × IsAt platform (record t { version = suc (length g) }) (acts ∷ g)
  IsAt-next state g acts a (s, r, v) =
      let (s0, r0, e0) = a.replayed in
      let step : apply_all platform s0 acts ≡ ok s = unfold replay in ground arith in
      let (t, b, e) = apply_all-IsSame platform acts s0 state s e0 step in
      let c = apply_all-IsCoherent platform acts state t a.valid.coherent b in
      (
        t,
        b,
        IsAt-version t (suc (length g)) (acts ∷ g) s (same-IsValid platform s t e c.sorted v) r e
            refl,
      )
