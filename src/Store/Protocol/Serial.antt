-- ===== src/Store/Protocol/Serial.antt =====
-- The commit loop makes one history of what concurrent closures write.
use unity_catalog.Prelude.{
  ℕ, zero, suc, ◌+◌, ◌≤◌, ◌<◌, ℤ, Option, none, List, [], ◌∷◌, length, Result, ok, err, ErrorCode,
  ◌≡◌, ◌⊎◌, refl, sym, ap, ◌∙◌, subst, inl, inr, arith,
}
use unity_catalog.Prelude.Text.{Text}
use unity_catalog.Store.Platform.{Platform}
use unity_catalog.Store.Action.{Action}
use unity_catalog.Store.Keys.{commit_key}
use unity_catalog.Store.Snapshot.{Snapshot}
use unity_catalog.Store.Log.Memory
use unity_catalog.Store.Log.Memory.{MemoryLog, PutResult}
use unity_catalog.Store.Log.Commit.{Actor, JsonLines, decode_commit, encode_commit}
use unity_catalog.Store.Log.Commit.RoundTrip.{decode_commit-encode_commit}
use unity_catalog.Store.Protocol.{
  World, PointerText, Step, answered, info, publish, propose, attempt, attempts, commit,
}
use unity_catalog.Store.Protocol.History.{
  History, IsPast, IsPast-refl, IsPast-trans, past_eq, IsPast-next,
}
use unity_catalog.Store.Protocol.Invariant.{IsAt, IsLog, IsWorld, stored_at}
use unity_catalog.Store.Protocol.Advance.{put_if_absent-cases, append-IsLog}
use unity_catalog.Store.Protocol.Arms.{
  IsRespectful, IsSound, IsJustified, IsAnswer, IsStep, IsWritten-of, next-IsValid, refused,
  created-IsStep, lost-IsStep,
}
use unity_catalog.Repos.Build.{Build}

module _ {Value : Type 0} {platform : Platform Value} (json : JsonLines platform)
    (pointers : PointerText) where
  -- The next commit is there until the history is at its end.
  at_end :
      (o : MemoryLog) (h g : History Value)
      → IsLog json o h
      → IsPast g h
      → Memory.get (commit_key (suc (length g))) o ≡ none
      → g ≡ h
  at_end o h g l p absent = elim (length-cases (length g) (length h)) [
    | inr reached ↦ past_eq g h p reached
    | inl lower ↦
        let (acts, q) = IsPast-next g h p lower in
        let (_, _, there, _) = stored_at json o h g acts l.stored q in absurd (ground arith)
  ]
    where
      length-cases : (m n : ℕ) → (m < n) ⊎ (n ≤ m)
      length-cases m n = ground arith

  module _ (now : ℕ → ℤ) (operation : Text) (actor : Option Actor) (others : ℕ → World → World)
      {A : Type 0} (build : Build Value A) (sound : IsSound json pointers build)
      (respectful : IsRespectful json pointers others) where
    publish-IsStep :
        (n target : ℕ) (acts : List (Action Value)) (out : A) (body : Text) (w : World)
        (h0 h g : History Value) (state : Snapshot)
        → target ≡ suc (length g)
        → IsPast h0 h
        → IsWorld json w h
        → IsPast g h
        → IsAt platform state g
        → build state ≡ ok (acts, out)
        → decode_commit json body ≡ ok (info json pointers now operation actor others build n, acts)
        → IsStep json pointers build sound h0
            (publish json pointers now operation actor others build n target acts out body w)
    unfolding publish answered
    publish-IsStep n target acts out body w h0 h g state v p (l, (past, q, a)) r at b read =
        let after = λ (x : MemoryLog × PutResult).
          IsStep json pointers build sound h0
            (answered json pointers target acts out x.1 (others n (record w { log = x.0 }))) in
        elim (put_if_absent-cases (commit_key target) body w.log) [
          | inl (there, taken, e) ↦
              let (h', p', i) = respectful n w h (l, (past, q, a)) in
              subst after (sym e) (
                lost-IsStep json pointers build sound (others n w) h0 h' (IsPast-trans h0 h h' p p')
                  i)
          | inr (absent, e) ↦
              let here : g ≡ h =
                at_end w.log h g l r
                  (ap (λ (x : ℕ). Memory.get (commit_key x) w.log) (sym v) ∙ absent) in
              let l' : IsLog json (Memory.put (commit_key target) body w.log) (acts ∷ g) =
                subst (λ (x : ℕ). IsLog json (Memory.put (commit_key x) body w.log) (acts ∷ g))
                  (sym v)
                  (append-IsLog json w.log g body
                    (info json pointers now operation actor others build n) acts
                    (subst (IsLog json w.log) (sym here) l) read
                    (next-IsValid json pointers build sound state g acts out at (l.valid g r) b)) in
              let (h', p', i) =
                respectful n (record w { log = Memory.put (commit_key target) body w.log })
                  (acts ∷ g) (l', (past, inr (subst (IsPast past) (sym here) q), a)) in
              subst after (sym e) (
                created-IsStep json pointers build sound target acts out
                  (others n (record w { log = Memory.put (commit_key target) body w.log })) h0 h' g
                  state v i (subst (IsPast h0) (sym here) p) p' at b)
        ]

    propose_err :
        (n : ℕ) (w : World) (act : Action Value) (acts : List (Action Value)) (out : A)
        (code : ErrorCode)
        → encode_commit json (info json pointers now operation actor others build n) (act ∷ acts)
          ≡ err code
        → propose json pointers now operation actor others build n w (act ∷ acts) out
          ≡ Step.done w (err code)
    unfolding propose
    propose_err n w act acts out code e = rw (propose, e) refl

    pub propose_ok :
        (n : ℕ) (w : World) (act : Action Value) (acts : List (Action Value)) (out : A)
        (body : Text)
        → encode_commit json (info json pointers now operation actor others build n) (act ∷ acts)
          ≡ ok body
        → propose json pointers now operation actor others build n w (act ∷ acts) out
          ≡ publish json pointers now operation actor others build n
              (w.state.version + 1)
              (act ∷ acts)
              out
              body
              (others n w)
    unfolding propose
    propose_ok n w act acts out body e = rw (propose, e) refl

    attempt_err :
        (n : ℕ) (w : World) (code : ErrorCode)
        → build w.state ≡ err code
        → attempt json pointers now operation actor others build n w ≡ Step.done w (err code)
    unfolding attempt
    attempt_err n w code e = rw (attempt, e) refl

    pub attempt_ok :
        (n : ℕ) (w : World) (acts : List (Action Value)) (out : A)
        → build w.state ≡ ok (acts, out)
        → attempt json pointers now operation actor others build n w
          ≡ propose json pointers now operation actor others build n w acts out
    unfolding attempt
    attempt_ok n w acts out e = rw (attempt, e) refl

    propose-IsStep :
        (n : ℕ) (w : World) (acts : List (Action Value)) (out : A) (h : History Value)
        → IsWorld json w h
        → build w.state ≡ ok (acts, out)
        → IsStep json pointers build sound h
            (propose json pointers now operation actor others build n w acts out)
    unfolding propose
    propose-IsStep n w [] out h (l, (g, q, a)) b =
        (h, IsPast-refl h, (l, (g, q, a)), (g, w.state, [], q, a, b, inl refl))
    propose-IsStep n w (act ∷ acts) out h (l, (g, q, a)) b =
        encoded
          (encode_commit json (info json pointers now operation actor others build n) (act ∷ acts))
          refl
      where
        encoded :
            (body : Result Text)
            → encode_commit json
                (info json pointers now operation actor others build n)
                (act ∷ acts)
              ≡ body
            → IsStep json pointers build sound h
                (propose json pointers now operation actor others build n w (act ∷ acts) out)
        encoded (err code) e =
            subst (IsStep json pointers build sound h) (sym (propose_err n w act acts out code e))
              (refused json pointers build sound h w code (l, (g, q, a)))
        encoded (ok body) e =
            let (h', p', i) = respectful n w h (l, (g, q, a)) in
            subst (IsStep json pointers build sound h) (sym (propose_ok n w act acts out body e)) (
              publish-IsStep n (w.state.version + 1) (act ∷ acts) out body (others n w) h h' g
                w.state (omega (arith, a.version)) p' i (IsPast-trans g h h' q p') a b
                (decode_commit-encode_commit json
                  (info json pointers now operation actor others build n) (act ∷ acts) body
                  (unfold info in omega arith)
                  (IsWritten-of platform (act ∷ acts) (sound.readable w.state (act ∷ acts) out b))
                  e))

    attempt-IsStep :
        (n : ℕ) (w : World) (h : History Value)
        → IsWorld json w h
        → IsStep json pointers build sound h
            (attempt json pointers now operation actor others build n w)
    attempt-IsStep n w h i = from_built (build w.state) refl
      where
        from_built :
            (built : Result (List (Action Value) × A))
            → build w.state ≡ built
            → IsStep json pointers build sound h
                (attempt json pointers now operation actor others build n w)
        from_built (err code) e =
            subst (IsStep json pointers build sound h) (sym (attempt_err n w code e))
              (refused json pointers build sound h w code i)
        from_built (ok (acts, out)) e =
            subst (IsStep json pointers build sound h) (sym (attempt_ok n w acts out e))
              (propose-IsStep n w acts out h i e)

    pub attempts_done :
        (n : ℕ) (w w' : World) (result : Result A)
        → attempt json pointers now operation actor others build n w ≡ Step.done w' result
        → attempts json pointers now operation actor others build (suc n) w ≡ (w', result)
    unfolding attempts
    attempts_done n w w' result e = rw (attempts, e) refl

    attempts_retry :
        (n : ℕ) (w w' : World)
        → attempt json pointers now operation actor others build n w ≡ Step.retry w'
        → attempts json pointers now operation actor others build (suc n) w
          ≡ attempts json pointers now operation actor others build n w'
    unfolding attempts
    attempts_retry n w w' e = rw (attempts, e) refl

    attempts-IsAnswer :
        (n : ℕ) (w : World) (h0 h : History Value)
        → IsPast h0 h
        → IsWorld json w h
        → IsAnswer json pointers build sound h0
            (attempts json pointers now operation actor others build n w).0
            (attempts json pointers now operation actor others build n w).1
    unfolding attempts
    attempts-IsAnswer zero w h0 h p i = (h, p, i, tt)
    attempts-IsAnswer (suc n) w h0 h p i =
        by_step (attempt json pointers now operation actor others build n w) refl
          (attempt-IsStep n w h i) (λ w' h' p' i'. attempts-IsAnswer n w' h0 h' p' i')
      where
        by_step :
            (step : Step A)
            → attempt json pointers now operation actor others build n w ≡ step
            → IsStep json pointers build sound h step
            → ((w' : World) (h' : History Value)
                → IsPast h0 h'
                → IsWorld json w' h'
                → IsAnswer json pointers build sound h0
                    (attempts json pointers now operation actor others build n w').0
                    (attempts json pointers now operation actor others build n w').1)
            → IsAnswer json pointers build sound h0
                (attempts json pointers now operation actor others build (suc n) w).0
                (attempts json pointers now operation actor others build (suc n) w).1
        by_step (Step.done w' result) e (h', p', i', decided) again =
            subst (λ (x : World × Result A). IsAnswer json pointers build sound h0 x.0 x.1)
              (sym (attempts_done n w w' result e))
              (h', IsPast-trans h0 h h' p p', i', later result decided)
          where
            later :
                (answer : Result A)
                → IsJustified json pointers build sound h h' answer
                → IsJustified json pointers build sound h0 h' answer
            later (err code) d = tt
            later (ok out) (g, state, acts, q, a, b, inl nothing) =
                (g, state, acts, q, a, b, inl nothing)
            later (ok out) (g, state, acts, q, a, b, inr (r, next)) =
                (g, state, acts, q, a, b, inr (IsPast-trans h0 h g p r, next))
        by_step (Step.retry w') e (h', p', i') again =
            subst (λ (x : World × Result A). IsAnswer json pointers build sound h0 x.0 x.1)
              (sym (attempts_retry n w w' e)) (again w' h' (IsPast-trans h0 h h' p p') i')

    -- Whatever the others do between the steps of a commit, as long as they keep to one history: after
    -- the commit, the log is one of a history that continues the one before, and the snapshot is the one of
    -- a moment of it. An answer is what the closure gave for the snapshot of a moment of that history, and
    -- its actions, when there are any, are the next commit after that very moment, which is not before the
    -- commit began: no commit stands between what the closure saw and what it wrote.
    pub commit-IsSerial :
        (w : World) (h : History Value)
        → IsWorld json w h
        → IsAnswer json pointers build sound h
            (commit json pointers now operation actor others build w).0
            (commit json pointers now operation actor others build w).1
    unfolding commit
    commit-IsSerial w h i = attempts-IsAnswer 8 w h h (IsPast-refl h) i
