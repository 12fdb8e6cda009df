-- ===== src/Store/Protocol/Arms.antt =====
-- The two arms of an attempt to commit, and what an attempt may end with.
use unity_catalog.Prelude.{
  ℕ, suc, ◌+◌, List, [], ◌∷◌, All, length, Result, ok, err, ◌==◌, ◌≡◌, ◌⊎◌, refl, sym, ap, ◌∙◌,
  subst, inl, inr, arith, Bool-cases, true,
}
use unity_catalog.Store.Platform.{Platform}
use unity_catalog.Store.Action.{Action}
use unity_catalog.Store.Snapshot.{Snapshot}
use unity_catalog.Store.Snapshot.Same.{IsSame, IsSame-sym, apply_all-IsSame}
use unity_catalog.Store.Snapshot.Coherent.{apply_all-IsCoherent}
use unity_catalog.Store.Valid.{IsValid}
use unity_catalog.Store.Log.Memory.{MemoryLog}
use unity_catalog.Store.Log.Commit.{JsonLines, IsWritten, from_action}
use unity_catalog.Store.Protocol.{
  World, Outcome, PointerText, Step, apply_each, catch_up, maybe_checkpoint, adopt, created, lost,
}
use unity_catalog.Store.Protocol.History.{
  History, IsPast, IsPast-refl, IsPast-trans, IsPast-tail, past_length, replay, IsReadable,
  apply_all-IsReadable, apply_each-eq, same-IsValid,
}
use unity_catalog.Store.Protocol.Invariant.{IsAt, IsLog, IsWorld, IsAt-next}
use unity_catalog.Store.Protocol.CatchUp.{catch_up-IsWorld}
use unity_catalog.Store.Protocol.Advance.{maybe_checkpoint-IsLog}
use unity_catalog.Repos.Build.{Build, Keeps}

past_same :
    {Value : Type 0} (f g h : History Value) → IsPast f h → IsPast g h → length f ≡ length g → f ≡ g
past_same f g [] p q n = p ∙ sym q
past_same f g (a ∷ h) (inl e) (inl e') n = e ∙ sym e'
past_same f g (a ∷ h) (inl e) (inr q) n = absurd (omega (arith, past_length g h q, ap length e))
past_same f g (a ∷ h) (inr p) (inl e) n = absurd (omega (arith, past_length f h p, ap length e))
past_same f g (a ∷ h) (inr p) (inr q) n = past_same f g h p q n

pub IsWritten-of :
    {Value : Type 0} (platform : Platform Value) (acts : List (Action Value))
    → All (IsReadable platform) acts
    → All (λ act. IsWritten platform (from_action act)) acts
IsWritten-of platform [] a = tt
IsWritten-of platform (Action.upsert k id body ∷ acts) ((row, e), a) =
    ((k, row, e), IsWritten-of platform acts a)
IsWritten-of platform (Action.remove k id ∷ acts) (_, a) = (tt, IsWritten-of platform acts a)

module _ {Value : Type 0} {platform : Platform Value} (json : JsonLines platform)
    (pointers : PointerText) where
  -- What happens elsewhere continues the history.
  abbrev pub IsRespectful : (ℕ → World → World) → Type 0
  IsRespectful others =
      (n : ℕ) (w : World) (h : History Value)
      → IsWorld json w h
      → (h' : History Value) × IsPast h h' × IsWorld json (others n w) h'

  -- a closure that writes rows, and keeps the invariant of the snapshot
  pub record IsSound {A : Type 0} (build : Build Value A) : Type 0 where
    pub readable :
        (s : Snapshot) (acts : List (Action Value)) (out : A)
        → build s ≡ ok (acts, out)
        → All (IsReadable platform) acts
    pub keeps : Keeps platform build

  module _ {A : Type 0} (build : Build Value A) (sound : IsSound build) where
    -- The answer is one that the closure gave for the snapshot of a moment `g` of the history: its
    -- actions are none, or they are the next commit after `g`, and `g` is not before `h`.
    abbrev pub IsDecided : History Value → History Value → A → Type 0
    IsDecided h h' out =
        (g : History Value) × (state : Snapshot) × (acts : List (Action Value)) × IsPast g h'
        × IsAt platform state g
        × (build state ≡ ok (acts, out))
        × ((acts ≡ []) ⊎ (IsPast h g × IsPast (acts ∷ g) h'))

    abbrev pub IsJustified : History Value → History Value → Result A → Type 0
    IsJustified h h' (ok out) = IsDecided h h' out
    IsJustified h h' (err code) = Unit

    abbrev pub IsAnswer : History Value → World → Result A → Type 0
    IsAnswer h w result =
        (h' : History Value) × IsPast h h' × IsWorld json w h' × IsJustified h h' result

    abbrev pub IsStep : History Value → Step A → Type 0
    IsStep h (Step.done w result) = IsAnswer h w result
    IsStep h (Step.retry w) = (h' : History Value) × IsPast h h' × IsWorld json w h'

    pub next-IsValid :
        (state : Snapshot) (g : History Value) (acts : List (Action Value)) (out : A)
        → IsAt platform state g
        → ((s : Snapshot) × (replay platform g ≡ ok s) × IsValid platform s)
        → build state ≡ ok (acts, out)
        → (s : Snapshot) × (replay platform (acts ∷ g) ≡ ok s) × IsValid platform s
    next-IsValid state g acts out a (s, r, v) b =
        let (s0, r0, same) = a.replayed in
        let q : s0 ≡ s = ground arith in
        let (t, e) = apply_all-IsReadable platform acts state (sound.readable state acts out b) in
        let vt = sound.keeps state t acts out a.valid b e in
        let back : IsSame state s =
          subst (λ (x : Snapshot). IsSame state x) q (IsSame-sym s0 state same) in
        let (s', e', same') = apply_all-IsSame platform acts state s t back e in
        let c = apply_all-IsCoherent platform acts s s' v.coherent e' in
        (s', unfold replay in rw r e', same-IsValid platform t s' same' c.sorted vt)

    pub refused :
        (h : History Value) (w : World) (code : _) → IsWorld json w h → IsAnswer h w (err code)
    refused h w code i = (h, IsPast-refl h, i, tt)

    pub adopt_eq :
        (target : ℕ) (acts : List (Action Value)) (w : World) (t : Snapshot)
        → (w.state.version + 1 == target) ≡ true
        → apply_each json pointers w.state acts ≡ (t, ok tt)
        → adopt json pointers target acts w
          ≡ (record w { state = record t { version = target } }, ok tt)
    unfolding adopt
    adopt_eq target acts w t next e = rw next (
        ap
          (λ (x : Snapshot × Outcome). elim x.1 [
            | err code ↦ (record w { state = x.0 }, err code)
            | ok _ ↦ (record w { state = record x.0 { version = target } }, ok tt)
          ])
          e)

    -- The snapshot that is next in line takes the commit, and any other is left.
    adopt_next :
        (target : ℕ) (acts : List (Action Value)) (w : World) (h g : History Value)
        → target ≡ suc (length g)
        → IsWorld json w h
        → IsPast (acts ∷ g) h
        → ((adopt json pointers target acts w).1 ≡ ok tt)
          × IsWorld json (adopt json pointers target acts w).0 h
    unfolding adopt
    adopt_next target acts w h g n (l, (past, p, a)) q =
        elim (Bool-cases (w.state.version + 1 == target)) [
          | inr moved ↦ rw moved (refl, (l, (past, p, a)))
          | inl next ↦
              let same : past ≡ g =
                past_same past g h p (IsPast-tail acts g h q) (ground (arith, a.version)) in
              let b : IsAt platform w.state g =
                subst (λ (x : History Value). IsAt platform w.state x) same a in
              let (t, e, at) = IsAt-next platform w.state g acts b (l.valid (acts ∷ g) q) in
              subst (λ (x : World × Outcome). (x.1 ≡ ok tt) × IsWorld json x.0 h)
                (sym (
                  adopt_eq target acts w t next
                    (apply_each-eq platform json pointers acts w.state t e)
                  ∙ ap (λ (v : ℕ). (record w { state = record t { version = v } }, ok tt)) n))
                (refl, (l, (acts ∷ g, q, at)))
        ]

    pub created_ok :
        (target : ℕ) (acts : List (Action Value)) (out : A) (w : World)
        → (adopt json pointers target acts w).1 ≡ ok tt
        → created json pointers target acts out w
          ≡ Step.done
              (maybe_checkpoint json pointers target (adopt json pointers target acts w).0)
              (ok out)
    unfolding created
    created_ok target acts out w e = rw (created, e) refl

    pub created-IsStep :
        (target : ℕ) (acts : List (Action Value)) (out : A) (w : World) (h0 h g : History Value)
        (state : Snapshot)
        → target ≡ suc (length g)
        → IsWorld json w h
        → IsPast h0 g
        → IsPast (acts ∷ g) h
        → IsAt platform state g
        → build state ≡ ok (acts, out)
        → IsStep h0 (created json pointers target acts out w)
    created-IsStep target acts out w h0 h g state n i p q a b =
        let (e, (l, (past, r, at))) = adopt_next target acts w h g n i q in
        let next = (adopt json pointers target acts w).0 in
        let (l', same) = maybe_checkpoint-IsLog json pointers target next h past l r at in
        let g_in = IsPast-tail acts g h q in
        subst (IsStep h0) (sym (created_ok target acts out w e)) (
          h,
          IsPast-trans h0 g h p g_in,
          (l', (past, r, subst (λ (x : Snapshot). IsAt platform x past) (sym same) at)),
          (g, state, acts, g_in, a, b, inr (p, q)),
        )

    pub lost-IsStep :
        (w : World) (h0 h : History Value)
        → IsPast h0 h
        → IsWorld json w h
        → IsStep h0 (lost json pointers {A = A} w)
    unfolding lost
    lost-IsStep w h0 h p (l, (past, q, a)) =
        let (g, r, at, same, n) = catch_up-IsWorld json pointers w h past l q a in
        let i : IsWorld json (catch_up json pointers w).0 h =
          (subst (λ (o : MemoryLog). IsLog json o h) (sym same) l, (g, r, at)) in
        by_outcome (catch_up json pointers w).1 refl i
      where
        by_outcome :
            (outcome : Outcome)
            → (catch_up json pointers w).1 ≡ outcome
            → IsWorld json (catch_up json pointers w).0 h
            → IsStep h0 (lost json pointers {A = A} w)
        by_outcome (err code) e i = rw (lost, e) (h, p, i, tt)
        by_outcome (ok u) e i = rw (lost, e) (h, p, i)
