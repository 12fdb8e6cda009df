-- ===== src/Store/Protocol/History.antt =====
-- The history of the main log, which the code does not keep: the actions of every commit, the latest
-- first. Its snapshot is what they make of the empty one.
use unity_catalog.Prelude.{
  ℕ, ◌<◌, ◌≤◌, List, [], ◌∷◌, All, length, Result, ok, ◌>>=◌, >>=-eq-ok, ◌≡◌, refl, sym, ap, ◌∙◌,
  subst, ◌⊎◌, inl, inr, arith, some,
}
use unity_catalog.Prelude.BTreeMap
use unity_catalog.Prelude.Order.{bytes_ord, pair_ord}
use unity_catalog.Store.Kind.{kind_ord}
use unity_catalog.Store.Platform.{Platform, RowOf}
use unity_catalog.Store.Row.{from_body-to_value}
use unity_catalog.Store.Action.{Action}
use unity_catalog.Store.Snapshot.{Snapshot, empty, get, id_by_natural_key, apply, apply_all}
use unity_catalog.Store.Snapshot.Same.{IsSame}
use unity_catalog.Store.Valid.{IsValid}
use unity_catalog.Store.Protocol.{apply_each, PointerText}
use unity_catalog.Store.Log.Commit.{JsonLines}

abbrev pub History : Type 0 → Type 0
History Value = List (List (Action Value))

-- `past` is `history`, or was before some of its commits
abbrev pub IsPast : {Value : Type 0} → History Value → History Value → Type 0
IsPast past [] = past ≡ []
IsPast past (acts ∷ history) = (past ≡ acts ∷ history) ⊎ IsPast past history

pub IsPast-refl : {Value : Type 0} (h : History Value) → IsPast h h
IsPast-refl [] = refl
IsPast-refl (acts ∷ h) = inl refl

pub IsPast-tail :
    {Value : Type 0} (acts : List (Action Value)) (g h : History Value)
    → IsPast (acts ∷ g) h
    → IsPast g h
IsPast-tail acts g [] p = absurd (cc)
IsPast-tail {Value} acts g (a ∷ h) (inl e) =
    let q : g ≡ h = ground arith in
    inr (subst (λ (x : History Value). IsPast x h) (sym q) (IsPast-refl h))
IsPast-tail acts g (a ∷ h) (inr p) = inr (IsPast-tail acts g h p)

pub IsPast-trans : {Value : Type 0} (f g h : History Value) → IsPast f g → IsPast g h → IsPast f h
IsPast-trans f [] h p q = rw p q
IsPast-trans f (a ∷ g) h (inl e) q = rw e q
IsPast-trans f (a ∷ g) h (inr p) q = IsPast-trans f g h p (IsPast-tail a g h q)

pub past_length : {Value : Type 0} (g h : History Value) → IsPast g h → length g ≤ length h
past_length g [] p = rw p (omega arith)
past_length g (a ∷ h) (inl e) = rw e (omega arith)
past_length g (a ∷ h) (inr p) = omega (arith, past_length g h p)

pub past_eq : {Value : Type 0} (g h : History Value) → IsPast g h → length h ≤ length g → g ≡ h
past_eq g [] p n = p
past_eq g (a ∷ h) (inl e) n = e
past_eq g (a ∷ h) (inr p) n = absurd (omega (arith, past_length g h p))

-- A history that is not over has a next commit.
pub IsPast-next :
    {Value : Type 0} (g h : History Value)
    → IsPast g h
    → length g < length h
    → (acts : List (Action Value)) × IsPast (acts ∷ g) h
IsPast-next g [] p n = absurd (omega arith)
IsPast-next g (a ∷ h) (inl e) n = absurd (omega (arith, ap length e))
IsPast-next g (a ∷ h) (inr p) n = elim (length-cases (length g) (length h)) [
  | inl lower ↦ let (acts, q) = IsPast-next g h p lower in (acts, inr q)
  | inr reached ↦ (a, inl (ap (λ (x : History _). a ∷ x) (past_eq g h p reached)))
]
  where
    length-cases : (m n : ℕ) → (m < n) ⊎ (n ≤ m)
    length-cases m n = ground arith

module _ {Value : Type 0} (platform : Platform Value) where
  -- the snapshot at the end of a history
  unfoldable pub replay : History Value → Result Snapshot
  replay [] = ok empty
  replay (acts ∷ history) = replay history >>= λ s. apply_all platform s acts

  -- the body of an upsert was made from a row of its kind
  abbrev pub IsReadable : Action Value → Type 0
  IsReadable (Action.upsert k id body) = (row : RowOf k) × (platform.to_value k row ≡ some body)
  IsReadable (Action.remove k id) = Unit

  -- Readable actions apply to any snapshot.
  pub apply_all-IsReadable :
      (acts : List (Action Value)) (s : Snapshot)
      → All IsReadable acts
      → (t : Snapshot) × (apply_all platform s acts ≡ ok t)
  unfolding apply_all apply
  apply_all-IsReadable [] s a = (s, refl)
  apply_all-IsReadable (Action.upsert k id body ∷ acts) s ((row, e), a) =
      rw (from_body-to_value platform k row body e) (apply_all-IsReadable acts _ a)
  apply_all-IsReadable (Action.remove k id ∷ acts) s (_, a) = apply_all-IsReadable acts _ a

  -- What answers as a snapshot that satisfies the invariant satisfies it, if its index is in order.
  pub same-IsValid :
      (s t : Snapshot)
      → IsSame s t
      → BTreeMap.IsSorted t.by_natural_key
      → IsValid platform s
      → IsValid platform t
  same-IsValid s t e sorted v = record {
    coherent = record {
      sorted = sorted;
      sound = λ k key id h.
          let (r, g, n) = v.coherent.sound k key id (e.keys k key ∙ h) in
          (r, sym (e.rows k id) ∙ g, n);
      kinded = λ k id r h. v.coherent.kinded k id r (e.rows k id ∙ h);
    };
    indexed = λ k id r key h n. sym (e.keys k key) ∙ v.indexed k id r key (e.rows k id ∙ h) n;
    identified = λ k id r own h n. v.identified k id r own (e.rows k id ∙ h) n;
  }

  -- the version is not part of what a snapshot answers
  pub IsSame-version : (s : Snapshot) (version : ℕ) → IsSame s (record s { version = version })
  unfolding get id_by_natural_key
  IsSame-version s version = record { rows = λ k id. refl; keys = λ k key. refl }

  -- Where the whole loop succeeds, it leaves what the fold gives.
  pub apply_each-eq :
      (json : JsonLines platform) (pointers : PointerText) (acts : List (Action Value))
      (s t : Snapshot)
      → apply_all platform s acts ≡ ok t
      → apply_each json pointers s acts ≡ (t, ok tt)
  unfolding apply_all apply_each
  apply_each-eq json pointers [] s t h = let q : s ≡ t = ground arith in rw q refl
  apply_each-eq json pointers (act ∷ acts) s t h =
      let (u, a, h1) =
        >>=-eq-ok (apply platform s act) (λ (w : Snapshot). apply_all platform w acts) h in
      rw (apply_each, a) (apply_each-eq json pointers acts u t h1)
