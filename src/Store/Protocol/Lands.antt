-- ===== src/Store/Protocol/Lands.antt =====
-- A commit that nobody disturbs lands at once, and a new log starts the invariant.
use unity_catalog.Prelude.{
  ℕ, suc, ◌+◌, ◌<◌, ◌^◌, ℤ, Option, none, List, [], ◌∷◌, length, Result, ok, ◌≡◌, refl, sym, ap,
  ◌∙◌, subst, inl, inr, arith, Option-cases,
}
use unity_catalog.Prelude.Text.{Text}
use unity_catalog.Prelude.Order.{bytes_ord}
use unity_catalog.Prelude.BTreeMap
use unity_catalog.Store.Platform.{Platform}
use unity_catalog.Store.Action.{Action}
use unity_catalog.Store.Keys.{commit_key, checkpoint_key}
use unity_catalog.Store.Keys.Versions.{version_from_key-commit_key}
use unity_catalog.Store.Snapshot.{empty}
use unity_catalog.Store.Snapshot.Same.{IsSame-refl}
use unity_catalog.Store.Valid.{empty-IsValid}
use unity_catalog.Store.Log.Memory
use unity_catalog.Store.Log.Memory.{MemoryLog, PutResult}
use unity_catalog.Store.Log.Commit.{Actor, JsonLines, encode_commit}
use unity_catalog.Store.Log.Commit.RoundTrip.{decode_commit-encode_commit}
use unity_catalog.Store.Protocol.{
  World, Outcome, PointerText, Step, adopt, created, answered, maybe_checkpoint, info, publish,
  commit,
}
use unity_catalog.Store.Protocol.History.{History, IsPast-refl, replay, apply_each-eq}
use unity_catalog.Store.Protocol.Invariant.{IsAt, IsLog, IsAt-next}
use unity_catalog.Store.Protocol.Advance.{put_if_absent-cases, append-IsLog, maybe_checkpoint-IsLog}
use unity_catalog.Store.Protocol.Arms.{
  IsSound, IsRespectful, IsWritten-of, next-IsValid, adopt_eq, created_ok,
}
use unity_catalog.Store.Protocol.Serial.{attempt_ok, propose_ok, attempts_done}
use unity_catalog.Repos.Build.{Build}

module _ {Value : Type 0} {platform : Platform Value} (json : JsonLines platform) where
  empty_log : (past : History Value) (p : past ≡ []) → replay platform past ≡ ok empty
  empty_log past p = rw p (unfold replay in refl)

  -- The empty log and the empty snapshot are those of the empty history.
  pub empty-IsLog : IsLog json [] []
  unfolding Memory.get
  empty-IsLog = record {
    sorted = tt;
    stored = tt;
    bounded = λ key body v there named. absurd (ground (arith, BTreeMap.get-nil {V = Text} key));
    valid = λ past p. (empty, empty_log past p, empty-IsValid platform);
    dumped = λ version body there.
        absurd (ground (arith, BTreeMap.get-nil {V = Text} (checkpoint_key version)));
  }

  pub empty-IsAt : IsAt platform empty []
  unfolding replay
  empty-IsAt = record {
    version = refl;
    replayed = (empty, refl, IsSame-refl empty);
    valid = empty-IsValid platform;
  }

  -- Past the end of the history there is no commit.
  no_next :
      (o : MemoryLog) (h : History Value)
      → IsLog json o h
      → suc (length h) < 2 ^ 64
      → Memory.get (commit_key (suc (length h))) o ≡ none
  no_next o h l fits = elim (Option-cases (Memory.get (commit_key (suc (length h))) o)) [
    | inl absent ↦ absent
    | inr (body, there) ↦
        let (_, bound) =
          l.bounded (commit_key (suc (length h))) body (suc (length h)) there
            (version_from_key-commit_key (suc (length h)) fits) in
        absurd (omega (arith, bound))
  ]

  module _ (pointers : PointerText) (now : ℕ → ℤ) (operation : Text) (actor : Option Actor)
      {A : Type 0} (build : Build Value A) (sound : IsSound json pointers build) where
    abbrev alone : ℕ → World → World
    alone n w = w

    alone-IsRespectful : IsRespectful json pointers alone
    alone-IsRespectful n w h i = (h, IsPast-refl h, i)

    -- Where nobody else writes, a commit from a snapshot that is at the end of the history succeeds at its
    -- first attempt with the answer of the closure. The log is then the one of the history with one commit
    -- more, which has the closure's actions, and the snapshot is at its end.
    pub commit-lands :
        (w : World) (h : History Value) (act : Action Value) (acts : List (Action Value)) (out : A)
        (body : Text)
        → IsLog json w.log h
        → IsAt platform w.state h
        → suc (length h) < 2 ^ 64
        → build w.state ≡ ok (act ∷ acts, out)
        → encode_commit json
            (info json pointers now operation actor (λ n v. v) build 7)
            (act ∷ acts)
          ≡ ok body
        → ((commit json pointers now operation actor (λ n v. v) build w).1 ≡ ok out)
          × IsLog json
              (commit json pointers now operation actor (λ n v. v) build w).0.log
              ((act ∷ acts) ∷ h)
          × IsAt platform
              (commit json pointers now operation actor (λ n v. v) build w).0.state
              ((act ∷ acts) ∷ h)
    unfolding commit publish answered
    commit-lands w h act acts out body l at fits b e =
        let target = w.state.version + 1 in
        let v : target ≡ suc (length h) = omega (arith, at.version) in
        let valid =
          next-IsValid json pointers build sound w.state h (act ∷ acts) out at
            (l.valid h (IsPast-refl h)) b in
        let read =
          decode_commit-encode_commit json (info json pointers now operation actor alone build 7)
            (act ∷ acts) body (unfold info in omega arith)
            (IsWritten-of platform (act ∷ acts) (sound.readable w.state (act ∷ acts) out b)) e in
        let o' = Memory.put (commit_key target) body w.log in
        let l' : IsLog json o' ((act ∷ acts) ∷ h) =
          subst (λ (x : ℕ). IsLog json (Memory.put (commit_key x) body w.log) ((act ∷ acts) ∷ h))
            (sym v)
            (append-IsLog json w.log h body (info json pointers now operation actor alone build 7)
              (act ∷ acts) l read valid) in
        let (t, done, at') = IsAt-next platform w.state h (act ∷ acts) at valid in
        let w1 : World = record { log = o'; state = w.state } in
        let w2 : World = record { log = o'; state = record t { version = target } } in
        let at2 : IsAt platform w2.state ((act ∷ acts) ∷ h) =
          subst (λ (x : ℕ). IsAt platform (record t { version = x }) ((act ∷ acts) ∷ h)) (sym v)
            at' in
        let adopted : adopt json pointers target (act ∷ acts) w1 ≡ (w2, ok tt) =
          adopt_eq json pointers build sound target (act ∷ acts) w1 t (ground arith)
            (apply_each-eq platform json pointers (act ∷ acts) w.state t done) in
        let (l3, same) =
          maybe_checkpoint-IsLog json pointers target w2 ((act ∷ acts) ∷ h) ((act ∷ acts) ∷ h) l'
            (IsPast-refl ((act ∷ acts) ∷ h)) at2 in
        let path : commit json pointers now operation actor alone build w
            ≡ (maybe_checkpoint json pointers target w2, ok out) =
          attempts_done json pointers now operation actor alone build sound alone-IsRespectful 7 w
            (maybe_checkpoint json pointers target w2) (ok out)
            (attempt_ok json pointers now operation actor alone build sound alone-IsRespectful 7 w
                (act ∷ acts) out b
              ∙ propose_ok json pointers now operation actor alone build sound alone-IsRespectful 7
                  w act acts out body e
              ∙ published (
                  subst (λ (x : ℕ). Memory.get (commit_key x) w.log ≡ none) (sym v)
                    (no_next w.log h l fits))
              ∙ created_ok json pointers build sound target (act ∷ acts) out w1
                  (ap (λ (x : World × Outcome). x.1) adopted)
              ∙ ap
                  (λ (x : World × Outcome).
                    Step.done (maybe_checkpoint json pointers target x.0) (ok out))
                  adopted) in
        subst
          (λ (x : World × Result A).
            (x.1 ≡ ok out)
            × IsLog json x.0.log ((act ∷ acts) ∷ h)
            × IsAt platform x.0.state ((act ∷ acts) ∷ h))
          (sym path) (refl, l3, subst (λ s. IsAt platform s ((act ∷ acts) ∷ h)) (sym same) at2)
      where
        published :
            Memory.get (commit_key (w.state.version + 1)) w.log ≡ none
            → publish json pointers now operation actor alone build 7
                (w.state.version + 1)
                (act ∷ acts)
                out
                body
                w
              ≡ created json pointers (w.state.version + 1) (act ∷ acts) out (record {
                log = Memory.put (commit_key (w.state.version + 1)) body w.log;
                state = w.state;
              })
        published absent =
            elim (put_if_absent-cases (commit_key (w.state.version + 1)) body w.log) [
              | inl (there, found, _) ↦ absurd (ground arith)
              | inr (_, put) ↦
                  ap
                    (λ (x : MemoryLog × PutResult).
                      answered json pointers (w.state.version + 1) (act ∷ acts) out x.1
                        (record w { log = x.0 }))
                    put
            ]
