-- ===== src/Prelude/Keep.antt =====
-- What `retain` keeps of a list.
use unity_catalog.Prelude.{
  arith, Bool, true, false, List, [], ◌∷◌, All, keep, ◌≡◌, refl, ap, ◌∙◌, inl, inr, if◌then◌else◌,
}
use unity_catalog.Prelude.Sort.{Has}

module _ {A : Type 0} (p : A → Bool) where
  pub Has-keep : (x : A) (xs : List A) → Has x (keep p xs) → Has x xs × (p x ≡ true)
  Has-keep x [] h = elim h [ ]
  Has-keep x (y ∷ xs) h = by_test (p y) refl (λ k. Has-keep x xs k) h
    where
      by_test :
          (test : Bool)
          → p y ≡ test
          → (Has x (keep p xs) → Has x xs × (p x ≡ true))
          → Has x (if test then y ∷ keep p xs else keep p xs)
          → Has x (y ∷ xs) × (p x ≡ true)
      by_test true e below (inl q) = (inl q, ap p q ∙ e)
      by_test true e below (inr h) = let k = below h in (inr k.0, k.1)
      by_test false e below h = let k = below h in (inr k.0, k.1)

  pub All-keep : (P : A → Type 0) (xs : List A) → All P (keep p xs) → All (λ y. p y ≡ true → P y) xs
  All-keep P [] h = tt
  All-keep P (y ∷ xs) h = by_test (p y) refl (λ k. All-keep P xs k) h
    where
      by_test :
          (test : Bool)
          → p y ≡ test
          → (All P (keep p xs) → All (λ r. p r ≡ true → P r) xs)
          → All P (if test then y ∷ keep p xs else keep p xs)
          → All (λ y. p y ≡ true → P y) (y ∷ xs)
      by_test true e below h = ((λ q. h.0), below h.1)
      by_test false e below h = ((λ q. absurd cc), below h)

  pub keep-nil : (xs : List A) → keep p xs ≡ [] → All (λ y. p y ≡ false) xs
  keep-nil [] h = tt
  keep-nil (y ∷ xs) h = by_test (p y) refl (λ k. keep-nil xs k) h
    where
      by_test :
          (test : Bool)
          → p y ≡ test
          → (keep p xs ≡ [] → All (λ r. p r ≡ false) xs)
          → (if test then y ∷ keep p xs else keep p xs) ≡ []
          → All (λ y. p y ≡ false) (y ∷ xs)
      by_test true e below h = cc
      by_test false e below h = (e, below h)

  pub Has-keep_of : (x : A) (xs : List A) → Has x xs → p x ≡ true → Has x (keep p xs)
  Has-keep_of x [] h q = elim h [ ]
  Has-keep_of x (y ∷ xs) h q = by_test (p y) refl (λ k. Has-keep_of x xs k q) h
    where
      by_test :
          (test : Bool)
          → p y ≡ test
          → (Has x xs → Has x (keep p xs))
          → Has x (y ∷ xs)
          → Has x (if test then y ∷ keep p xs else keep p xs)
      by_test true e below (inl i) = inl i
      by_test true e below (inr h) = inr (below h)
      by_test false e below (inl i) = absurd (ground (arith, ap p i))
      by_test false e below (inr h) = below h
