-- ===== src/Store/Protocol/CatchUp.antt =====
-- Catching up follows the history.
use unity_catalog.Prelude.{
  ℕ, suc, ◌+◌, ◌≤◌, Option, none, some, List, [], ◌∷◌, All, map, length, Result, ok, err, ◌>>=◌,
  >>=-eq-ok, ◌==◌, ◌≡◌, refl, sym, ap, ◌∙◌, subst, inl, inr, arith, Bool-cases, keep,
}
use unity_catalog.Prelude.Text.{Text}
use unity_catalog.Prelude.Order.{less, bytes_ord}
use unity_catalog.Prelude.BTreeMap
use unity_catalog.Store.Platform.{Platform}
use unity_catalog.Store.Action.{Action}
use unity_catalog.Store.Keys.{commit_key, log_prefix}
use unity_catalog.Store.Snapshot.{Snapshot}
use unity_catalog.Store.Log.Memory
use unity_catalog.Store.Log.Memory.{MemoryLog}
use unity_catalog.Store.Log.Memory.Contract.{keys_under, list_all_after_memory}
use unity_catalog.Store.Log.Commit.{CommitInfo, JsonLines, decode_commit}
use unity_catalog.Store.Log.Replay.{Entry, read_commits, refuse_gap, read_commits_after}
use unity_catalog.Store.Log.Replay.Gapless.{count_from, read_commits_after-gapless}
use unity_catalog.Store.Log.Replay.Gapless
use unity_catalog.Store.Log.Checkpoint.{resolve_checkpoint}
use unity_catalog.Store.Log.Checkpoint.Intact.{resolve_checkpoint-intact}
use unity_catalog.Store.Dump.{decode_checkpoint}
use unity_catalog.Store.Protocol.{
  World, PointerText, object_log, Outcome, apply_each, apply_entries, from_checkpoint, restore,
  replay_onto, catch_up,
}
use unity_catalog.Store.Protocol.History.{History, IsPast, IsPast-next, apply_each-eq}
use unity_catalog.Store.Protocol.Invariant.{IsAt, IsLog, stored_at, IsAt-version, IsAt-next}

ok_eq : {x y : Snapshot} → ok x ≡ ok y → x ≡ y
ok_eq e = ground arith

apply_entries-step :
    {Value : Type 0} {platform : Platform Value} (json : JsonLines platform)
    (pointers : PointerText) (s t : Snapshot) (version : ℕ) (info : CommitInfo)
    (acts : List (Action Value)) (entries : List (Entry Value))
    → apply_each json pointers s acts ≡ (t, ok tt)
    → apply_entries json pointers s ((version, (info, acts)) ∷ entries)
      ≡ apply_entries json pointers (record t { version = version }) entries
unfolding apply_entries
apply_entries-step json pointers s t version info acts entries e =
    ap
      (λ (a : Snapshot × Outcome). elim a.1 [
        | err code ↦ (a.0, err code)
        | ok _ ↦ apply_entries json pointers (record a.0 { version = version }) entries
      ])
      e

module _ {Value : Type 0} {platform : Platform Value} (json : JsonLines platform)
    (pointers : PointerText) (o : MemoryLog) (h : History Value) (holds : IsLog json o h) where
  -- What is read as the next commit is the next commit of the history.
  next_entry :
      (g : History Value) (info : CommitInfo) (acts : List (Action Value))
      → IsPast g h
      → Gapless.IsStored json (object_log o) (suc (length g), (info, acts))
      → IsPast (acts ∷ g) h
  next_entry g info acts p (key, body, named, there, read) =
      let found : Memory.get key o ≡ some body = ground arith in
      let (k, bound) = holds.bounded key body (suc (length g)) found named in
      let (acts', q) = IsPast-next g h p bound in
      let (body', info', there', read') = stored_at json o h g acts' holds.stored q in
      let e : body' ≡ body =
        some_inj (sym there' ∙ ap (λ (x : Text). Memory.get x o) (sym k) ∙ found) in
      let r : ok (info', acts') ≡ ok (info, acts) = sym read' ∙ ap (decode_commit json) e ∙ read in
      let s : acts' ≡ acts = ap (λ (x : CommitInfo × List (Action Value)). x.1) (ok_inj r) in
      subst (λ (x : List (Action Value)). IsPast (x ∷ g) h) s q
    where
      some_inj : {x y : Text} → some x ≡ some y → x ≡ y
      some_inj e = ground arith

      ok_inj : {x y : CommitInfo × List (Action Value)} → ok x ≡ ok y → x ≡ y
      ok_inj e = ground arith

  apply_entries_follow :
      (entries : List (Entry Value)) (state : Snapshot) (g : History Value)
      → IsPast g h
      → IsAt platform state g
      → map (λ entry. entry.0) entries ≡ count_from (suc (length g)) (length entries)
      → All (Gapless.IsStored json (object_log o)) entries
      → (state' : Snapshot) × (g' : History Value) × (apply_entries json pointers state entries
          ≡ (state', ok tt))
        × IsPast g' h
        × IsAt platform state' g'
        × (length g' ≡ length g + length entries)
  apply_entries_follow [] state g p a n s =
      (state, g, unfold apply_entries in refl, p, a, omega arith)
  apply_entries_follow ((version, (info, acts)) ∷ entries) state g p a n (stored, s) =
      let v : version ≡ suc (length g) = ground arith in
      let rest : map (λ entry. entry.0) entries
          ≡ count_from (suc (suc (length g))) (length entries) =
        ground arith in
      let q =
        next_entry g info acts p
          (subst (λ (x : ℕ). Gapless.IsStored json (object_log o) (x, (info, acts))) v stored) in
      let (t, b, a') = IsAt-next platform state g acts a (holds.valid (acts ∷ g) q) in
      let (state', g', e, p', at, m) =
        apply_entries_follow entries (record t { version = suc (length g) }) (acts ∷ g) q a' rest
          s in
      (
        state',
        g',
        apply_entries-step json pointers state t version info acts entries
              (apply_each-eq platform json pointers acts state t b)
            ∙ ap (λ (x : ℕ). apply_entries json pointers (record t { version = x }) entries) v
            ∙ e,
        p',
        at,
        omega (arith, m),
      )

  -- A snapshot is restored from the checkpoint of a moment of the history, if at all.
  restore_follows :
      (state restored : Snapshot) (g : History Value)
      → IsPast g h
      → IsAt platform state g
      → restore json pointers (record { log = o; state = state }) ≡ ok restored
      → (g' : History Value) × IsPast g' h × IsAt platform restored g' × (length g ≤ length g')
  unfolding restore from_checkpoint
  restore_follows state restored g p a r = elim (Bool-cases (state.version == 0)) [
    | inr started ↦
        let q : state ≡ restored = ground arith in
        (g, p, subst (λ (x : Snapshot). IsAt platform x g) q a, omega arith)
    | inl fresh ↦
        let none_yet : length g ≡ 0 = ground (arith, a.version) in
        let r0 : (resolve_checkpoint pointers.parse_pointer (object_log o)
              >>= from_checkpoint json pointers state)
            ≡ ok restored =
          ground arith in
        let (found, f, r1) =
          >>=-eq-ok (resolve_checkpoint pointers.parse_pointer (object_log o)) _ r0 in
        from_found found none_yet f r1
  ]
    where
      from_found :
          (found : Option (ℕ × Text))
          → length g ≡ 0
          → resolve_checkpoint pointers.parse_pointer (object_log o) ≡ ok found
          → from_checkpoint json pointers state found ≡ ok restored
          → (g' : History Value) × IsPast g' h × IsAt platform restored g' × (length g ≤ length g')
      from_found none z f r1 =
          let q : state ≡ restored = ground arith in
          (g, p, subst (λ (x : Snapshot). IsAt platform x g) q a, omega arith)
      from_found (some (version, body)) z f r1 =
          let (pointer, parsed, _, _, _, there, _, _) =
            resolve_checkpoint-intact pointers.parse_pointer (object_log o) version body f in
          let (past, s, t, q, n, r, d, e, v) = holds.dumped version body (ground arith) in
          let (t', d', r2) = >>=-eq-ok (decode_checkpoint json body) _ r1 in
          let same_t : t ≡ t' = ok_eq (sym d ∙ d') in
          let b : record t { version = version } ≡ restored =
            ap (λ (x : Snapshot). record x { version = version }) same_t ∙ ok_eq r2 in
          (
            past,
            q,
            subst (λ (x : Snapshot). IsAt platform x past) b
                (IsAt-version platform t version past s v r e n),
            omega (arith, z),
          )

  replay_follows :
      (w : World) (g : History Value) (read : Option (Result (List (Entry Value))))
      → w.log ≡ o
      → IsPast g h
      → IsAt platform w.state g
      → ((entries : List (Entry Value))
          → read ≡ some (ok entries)
          → (map (λ entry. entry.0) entries ≡ count_from (suc (length g)) (length entries))
            × All (Gapless.IsStored json (object_log o)) entries)
      → (g' : History Value) × IsPast g' h
        × IsAt platform (replay_onto json pointers w read).0.state g'
        × ((replay_onto json pointers w read).0.log ≡ o)
        × (length g ≤ length g')
  unfolding replay_onto
  replay_follows w g none l p a facts = (g, p, a, l, omega arith)
  replay_follows w g (some (err code)) l p a facts = (g, p, a, l, omega arith)
  replay_follows w g (some (ok entries)) l p a facts =
      let (n, s) = facts entries refl in
      let (state', g', e, p', at, m) = apply_entries_follow entries w.state g p a n s in
      (
        g',
        p',
        subst (λ (x : Snapshot). IsAt platform x g') (sym (ap (λ (x : Snapshot × Outcome). x.0) e))
            at,
        l,
        omega (arith, m),
      )

module _ {Value : Type 0} {platform : Platform Value} (json : JsonLines platform)
    (pointers : PointerText) where
  -- Catching up, whether it succeeds or not, leaves the log as it is and the snapshot at a moment of the
  -- log's history that is not before the one it was at.
  pub catch_up-IsWorld :
      (w : World) (h g : History Value)
      → IsLog json w.log h
      → IsPast g h
      → IsAt platform w.state g
      → (g' : History Value) × IsPast g' h
        × IsAt platform (catch_up json pointers w).0.state g'
        × ((catch_up json pointers w).0.log ≡ w.log)
        × (length g ≤ length g')
  unfolding catch_up
  catch_up-IsWorld w h g holds p a = from_restored (restore json pointers w) refl
    where
      from_restored :
          (restored : Result Snapshot)
          → restore json pointers w ≡ restored
          → (g' : History Value) × IsPast g' h
            × IsAt platform (catch_up json pointers w).0.state g'
            × ((catch_up json pointers w).0.log ≡ w.log)
            × (length g ≤ length g')
      from_restored (err code) r = rw (catch_up, r) (g, p, a, refl, omega arith)
      from_restored (ok state) r =
          let (g1, p1, a1, n1) =
            restore_follows json pointers w.log h holds w.state state g p a r in
          let listed =
            read_commits_after json (object_log w.log) (suc (Memory.len w.log)) state.version in
          let (g2, p2, a2, l2, n2) =
            replay_follows json pointers w.log h holds (record w { state = state }) g1 listed refl
              p1 a1
              (λ entries e.
                let (n, s) =
                  read_commits_after-gapless json (object_log w.log) (suc (Memory.len w.log))
                    state.version entries e in
                (
                  n ∙ ap (λ (x : ℕ). count_from x (length entries)) (omega (arith, a1.version)),
                  s,
                )) in
          rw (catch_up, r) (g2, p2, a2, l2, omega (arith, n1, n2))

length-keys_under : (prefix : Text) (o : MemoryLog) → length (keys_under prefix o) ≤ Memory.len o
unfolding keys_under Memory.len
length-keys_under prefix [] = omega arith
length-keys_under prefix ((key, _) ∷ o) = ground (arith, length-keys_under prefix o)

-- The fuel that catching up gives to its listing is enough: reading the commits after any version of a
-- log whose keys are in order ends.
pub read_commits_after-ends :
    {Value : Type 0} {platform : Platform Value} (json : JsonLines platform) (o : MemoryLog)
    (version : ℕ)
    → BTreeMap.IsSorted o
    → (read : Result (List (Entry Value))) × (read_commits_after json
          (object_log o)
          (suc (Memory.len o))
          version
        ≡ some read)
unfolding read_commits_after
read_commits_after-ends json o version sorted =
    let e =
      list_all_after_memory (suc (Memory.len o)) log_prefix (commit_key version) o sorted
        (omega (arith, length-keys_under log_prefix o)) in
    rw e (
      read_commits json (object_log o) version
            (keep (less (commit_key version)) (keys_under log_prefix o))
          >>= refuse_gap version,
      refl,
    )
