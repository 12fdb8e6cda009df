-- ===== src/Prelude/Sort.antt =====
-- `sort` on keys, and membership.
use mathlib.Core.Path.{◌≡◌, refl}
use mathlib.Core.Logic.{◌⊎◌, inl, inr}
use mathlib.Core.List.{List, [], ◌∷◌, ◌++◌}
use unity_catalog.Prelude.Tests.{if◌then◌else◌, Bool-cases}
use unity_catalog.Prelude.Order.{Ord, less}

-- the item occurs
abbrev pub Has : {A : Type 0} → A → List A → Type 0
Has x [] = ⊥
Has x (y ∷ ys) = (x ≡ y) ⊎ Has x ys

module _ {A : Type 0} where
  pub Has-append_left : (x : A) (xs ys : List A) → Has x xs → Has x (xs ++ ys)
  Has-append_left x [] ys h = elim h [ ]
  Has-append_left x (z ∷ xs) ys (inl e) = inl e
  Has-append_left x (z ∷ xs) ys (inr h) = inr (Has-append_left x xs ys h)

  pub Has-append_right : (x : A) (xs ys : List A) → Has x ys → Has x (xs ++ ys)
  Has-append_right x [] ys h = h
  Has-append_right x (z ∷ xs) ys h = inr (Has-append_right x xs ys h)

module _ {K : Type 0} ⦃o : Ord K⦄ where
  unfoldable pub insert_sorted : K → List K → List K
  insert_sorted k [] = k ∷ []
  insert_sorted k (j ∷ js) =
      let rest = insert_sorted k js in if less j k then j ∷ rest else k ∷ j ∷ js

  unfoldable pub sort : List K → List K
  unfolding insert_sorted
  sort [] = []
  sort (k ∷ ks) = insert_sorted k (sort ks)

  Has-insert_self : (k : K) (ks : List K) → Has k (insert_sorted k ks)
  unfolding insert_sorted
  Has-insert_self k [] = inl refl
  Has-insert_self k (j ∷ js) = elim (Bool-cases (less j k)) [
    | inl b ↦ rw b (inr (Has-insert_self k js))
    | inr b ↦ rw b (inl refl)
  ]

  Has-insert : (x k : K) (ks : List K) → Has x ks → Has x (insert_sorted k ks)
  unfolding insert_sorted
  Has-insert x k [] h = elim h [ ]
  Has-insert x k (j ∷ js) h = elim (Bool-cases (less j k)) [
    | inl b ↦ rw b (elim h [ inl e ↦ inl e | inr r ↦ inr (Has-insert x k js r) ])
    | inr b ↦ rw b (inr h)
  ]

  pub Has-sort : (x : K) (ks : List K) → Has x ks → Has x (sort ks)
  unfolding sort
  Has-sort x [] h = elim h [ ]
  Has-sort x (k ∷ ks) (inl e) = rw e (Has-insert_self k (sort ks))
  Has-sort x (k ∷ ks) (inr h) = Has-insert x k (sort ks) (Has-sort x ks h)
