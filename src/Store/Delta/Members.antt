-- ===== src/Store/Delta/Members.antt =====
-- Membership through the steps of `versions` of crates/uc-db/src/store/delta_log.rs.
use unity_catalog.Prelude.{
  ℕ, ℤ, Bool, true, false, Option, none, some, List, [], ◌∷◌, ◌++◌, is_some, ◌≡◌, refl, sym, ap,
  ◌∙◌, inl, inr, arith, Bool-cases, leb_ℤ, if◌then◌else◌,
}
use unity_catalog.Prelude.Text.{Text, starts_with}
use unity_catalog.Prelude.Order.{eqb, eqb→eq, eqb_refl, less, bytes_ord}
use unity_catalog.Prelude.BTreeMap
use unity_catalog.Prelude.Sort.{Has}
use unity_catalog.Store.Keys.{delta_version_from_key}
use unity_catalog.Store.Log.Memory.{MemoryLog}
use unity_catalog.Store.Log.Memory.Contract.{keys_under}
use unity_catalog.Store.Delta.{versions_of, insert_version, sort_versions}

Has-insert_version : (x v : ℤ) (vs : List ℤ) → Has x (v ∷ vs) → Has x (insert_version v vs)
unfolding insert_version
Has-insert_version x v [] h = h
Has-insert_version x v (w ∷ ws) h = by_test (leb_ℤ v w) (λ k. Has-insert_version x v ws k) h
  where
    by_test :
        (test : Bool)
        → (Has x (v ∷ ws) → Has x (insert_version v ws))
        → Has x (v ∷ w ∷ ws)
        → Has x (if test then v ∷ w ∷ ws else w ∷ insert_version v ws)
    by_test true below h = h
    by_test false below (inl e) = inr (below (inl e))
    by_test false below (inr (inl e)) = inl e
    by_test false below (inr (inr h)) = inr (below (inr h))

Has-insert_version_back : (x v : ℤ) (vs : List ℤ) → Has x (insert_version v vs) → Has x (v ∷ vs)
unfolding insert_version
Has-insert_version_back x v [] h = h
Has-insert_version_back x v (w ∷ ws) h =
    by_test (leb_ℤ v w) (λ k. Has-insert_version_back x v ws k) h
  where
    by_test :
        (test : Bool)
        → (Has x (insert_version v ws) → Has x (v ∷ ws))
        → Has x (if test then v ∷ w ∷ ws else w ∷ insert_version v ws)
        → Has x (v ∷ w ∷ ws)
    by_test true below h = h
    by_test false below (inl e) = inr (inl e)
    by_test false below (inr h) = elim (below h) [ inl e ↦ inl e | inr k ↦ inr (inr k) ]

pub Has-sort_versions : (x : ℤ) (vs : List ℤ) → Has x vs → Has x (sort_versions vs)
unfolding sort_versions
Has-sort_versions x [] h = h
Has-sort_versions x (v ∷ vs) (inl e) = Has-insert_version x v (sort_versions vs) (inl e)
Has-sort_versions x (v ∷ vs) (inr h) =
    Has-insert_version x v (sort_versions vs) (inr (Has-sort_versions x vs h))

pub Has-sort_versions_back : (x : ℤ) (vs : List ℤ) → Has x (sort_versions vs) → Has x vs
unfolding sort_versions
Has-sort_versions_back x [] h = h
Has-sort_versions_back x (v ∷ vs) h = elim (Has-insert_version_back x v (sort_versions vs) h) [
  | inl e ↦ inl e
  | inr k ↦ inr (Has-sort_versions_back x vs k)
]

-- a key of the list that names the version
abbrev pub Names : ℤ → List Text → Type 0
Names v keys = (key : Text) × Has key keys × (delta_version_from_key key ≡ some v)

pub Has-versions_of : (v : ℤ) (keys : List Text) → Names v keys → Has v (versions_of keys)
unfolding versions_of
Has-versions_of v [] (key, h, e) = elim h [ ]
Has-versions_of v (k ∷ keys) (key, h, e) =
    by_version (delta_version_from_key k) refl (λ i. Has-versions_of v keys (key, i, e)) h
  where
    by_version :
        (found : Option ℤ)
        → delta_version_from_key k ≡ found
        → (Has key keys → Has v (versions_of keys))
        → Has key (k ∷ keys)
        → Has v (elim found [ none ↦ versions_of keys | some version ↦ version ∷ versions_of keys ])
    by_version none q below (inl i) = absurd (ground (arith, ap delta_version_from_key i))
    by_version none q below (inr i) = below i
    by_version (some w) q below (inl i) = inl (ground (arith, ap delta_version_from_key i))
    by_version (some w) q below (inr i) = inr (below i)

pub Names-of_version : (v : ℤ) (keys : List Text) → Has v (versions_of keys) → Names v keys
unfolding versions_of
Names-of_version v [] h = elim h [ ]
Names-of_version v (k ∷ keys) h =
    by_version (delta_version_from_key k) refl (λ i. Names-of_version v keys i) h
  where
    by_version :
        (found : Option ℤ)
        → delta_version_from_key k ≡ found
        → (Has v (versions_of keys) → Names v keys)
        → Has v (elim found [ none ↦ versions_of keys | some version ↦ version ∷ versions_of keys ])
        → Names v (k ∷ keys)
    by_version none q below h = let (key, i, e) = below h in (key, inr i, e)
    by_version (some w) q below (inl i) = (k, inl refl, q ∙ ap some (sym i))
    by_version (some w) q below (inr h) = let (key, i, e) = below h in (key, inr i, e)

pub Has-keys_under :
    (prefix key : Text) (o : MemoryLog)
    → is_some (BTreeMap.get key o) ≡ true
    → starts_with prefix key ≡ true
    → Has key (keys_under prefix o)
unfolding keys_under BTreeMap.get
Has-keys_under prefix key [] g s = cc
Has-keys_under prefix key ((k, b) ∷ o) g s = elim (Bool-cases (eqb k key)) [
  | inl same ↦
      let e : k ≡ key = eqb→eq k key same in
      let t : starts_with prefix k ≡ true = rw e s in rw t (inl (sym e))
  | inr apart ↦
      let g' : is_some (BTreeMap.get key o) ≡ true = ground arith in
      elim (Bool-cases (starts_with prefix k)) [
        | inl t ↦ rw t (inr (Has-keys_under prefix key o g' s))
        | inr t ↦ rw t (Has-keys_under prefix key o g' s)
      ]
]

pub keys_under-Has :
    (prefix key : Text) (o : MemoryLog)
    → Has key (keys_under prefix o)
    → (is_some (BTreeMap.get key o) ≡ true) × (starts_with prefix key ≡ true)
unfolding keys_under BTreeMap.get
keys_under-Has prefix key [] h = elim h [ ]
keys_under-Has prefix key ((k, b) ∷ o) h =
    by_test (starts_with prefix k) refl (λ i. keys_under-Has prefix key o i) h
  where
    later :
        (is_some (BTreeMap.get key o) ≡ true) × (starts_with prefix key ≡ true)
        → (is_some (if eqb k key then some b else BTreeMap.get key o) ≡ true)
          × (starts_with prefix key ≡ true)
    later (g, s) = (ground arith, s)

    by_test :
        (test : Bool)
        → starts_with prefix k ≡ test
        → (Has key (keys_under prefix o)
            → (is_some (BTreeMap.get key o) ≡ true) × (starts_with prefix key ≡ true))
        → Has key (if test then k ∷ keys_under prefix o else keys_under prefix o)
        → (is_some (if eqb k key then some b else BTreeMap.get key o) ≡ true)
          × (starts_with prefix key ≡ true)
    by_test true e below (inl i) =
        (ground (arith, eqb_refl key, ap (λ (x : Text). eqb x key) i), rw i e)
    by_test true e below (inr h) = later (below h)
    by_test false e below h = later (below h)

pub less-append : (p : Text) (c : ℕ) (s : Text) → less p (p ++ (c ∷ s)) ≡ true
less-append [] c s = refl
less-append (x ∷ p) c s = ground (arith, less-append p c s)
