-- ===== src/Prelude/Order.antt =====
-- `Ord` and `Eq` of the keys of Rust's maps: a comparison with its laws.
use Prim.Native.Nat.{ℕ, compare, Ordering}
use Prim.Native.Nat.Ordering.{lt, eq, gt}
use mathlib.Core.Path.{◌≡◌, refl}
use mathlib.Core.Logic.{◌⊎◌}
use mathlib.Core.Bool.{Bool, true, false}
use mathlib.Core.List.{List, [], ◌∷◌}
use native.Mathlib.Omega.{arith}

pub record Ord {ℓ} (K : Type ℓ) : Type ℓ where
  pub cmp : K → K → Ordering
  -- keys that compare equal are one key, and a key equals itself
  pub eq_of_cmp : (j k : K) → cmp j k ≡ eq → j ≡ k
  pub cmp_refl : (k : K) → cmp k k ≡ eq
  -- an ascending chain of keys can be cut short
  pub lt_trans : (i j k : K) → cmp i j ≡ lt → cmp j k ≡ lt → cmp i k ≡ lt
  -- swapping the keys turns the order around
  pub gt_of_lt : (j k : K) → cmp j k ≡ lt → cmp k j ≡ gt
  pub lt_of_gt : (j k : K) → cmp j k ≡ gt → cmp k j ≡ lt

module _ {ℓ} {K : Type ℓ} ⦃o : Ord K⦄ where
  abbrev pub eqb : K → K → Bool
  eqb a b = elim (o.cmp a b) [ eq ↦ true | _ ↦ false ]

  abbrev pub less : K → K → Bool
  less a b = elim (o.cmp a b) [ lt ↦ true | _ ↦ false ]

  pub eqb_refl : (a : K) → eqb a a ≡ true
  eqb_refl a = rw (o.cmp_refl a, eqb)

  pub eqb→eq : (a b : K) → eqb a b ≡ true → a ≡ b
  eqb→eq a b h = ground (arith, o.eq_of_cmp a b)

  pub eq→eqb : (a b : K) → a ≡ b → eqb a b ≡ true
  eq→eqb a b h = rw h (eqb_refl b)

pub Ordering-cases : (c : Ordering) → (c ≡ lt) ⊎ (c ≡ eq) ⊎ (c ≡ gt)
Ordering-cases c = ground arith

module _ where
  pub compare_refl : (a : ℕ) → compare a a ≡ eq
  compare_refl a = ground arith

  pub eq_of_compare : (a b : ℕ) → compare a b ≡ eq → a ≡ b
  eq_of_compare a b h = ground arith

  pub lt_of_compare-gt : (a b : ℕ) → compare a b ≡ gt → compare b a ≡ lt
  lt_of_compare-gt a b h = ground arith

  pub gt_of_compare-lt : (a b : ℕ) → compare a b ≡ lt → compare b a ≡ gt
  gt_of_compare-lt a b h = ground arith

  pub compare-lt_trans : (a b c : ℕ) → compare a b ≡ lt → compare b c ≡ lt → compare a c ≡ lt
  compare-lt_trans a b c h k = ground arith

instance abbrev pub nat_ord : Ord ℕ
nat_ord = record {
  cmp = compare;
  cmp_refl = compare_refl;
  eq_of_cmp = eq_of_compare;
  lt_of_gt = lt_of_compare-gt;
  gt_of_lt = gt_of_compare-lt;
  lt_trans = compare-lt_trans;
}

abbrev pub and_then : Ordering → Ordering → Ordering
and_then eq second = second
and_then lt _ = lt
and_then gt _ = gt

-- byte by byte, a proper prefix first, as `str` is ordered
abbrev pub bytes_cmp : List ℕ → List ℕ → Ordering
bytes_cmp [] [] = eq
bytes_cmp [] (y ∷ ys) = lt
bytes_cmp (x ∷ xs) [] = gt
bytes_cmp (x ∷ xs) (y ∷ ys) = and_then (compare x y) (bytes_cmp xs ys)

pub bytes_cmp_refl : (a : List ℕ) → bytes_cmp a a ≡ eq
bytes_cmp_refl [] = refl
bytes_cmp_refl (x ∷ xs) = ground (arith, bytes_cmp_refl xs)

pub eq_of_bytes_cmp : (a b : List ℕ) → bytes_cmp a b ≡ eq → a ≡ b
eq_of_bytes_cmp [] [] h = refl
eq_of_bytes_cmp [] (y ∷ ys) h = cc
eq_of_bytes_cmp (x ∷ xs) [] h = cc
eq_of_bytes_cmp (x ∷ xs) (y ∷ ys) h = ground (arith, eq_of_bytes_cmp xs ys)

pub lt_of_bytes_cmp-gt : (a b : List ℕ) → bytes_cmp a b ≡ gt → bytes_cmp b a ≡ lt
lt_of_bytes_cmp-gt [] [] h = cc
lt_of_bytes_cmp-gt [] (y ∷ ys) h = cc
lt_of_bytes_cmp-gt (x ∷ xs) [] h = refl
lt_of_bytes_cmp-gt (x ∷ xs) (y ∷ ys) h = ground (arith, lt_of_bytes_cmp-gt xs ys)

pub gt_of_bytes_cmp-lt : (a b : List ℕ) → bytes_cmp a b ≡ lt → bytes_cmp b a ≡ gt
gt_of_bytes_cmp-lt [] [] h = cc
gt_of_bytes_cmp-lt [] (y ∷ ys) h = refl
gt_of_bytes_cmp-lt (x ∷ xs) [] h = cc
gt_of_bytes_cmp-lt (x ∷ xs) (y ∷ ys) h = ground (arith, gt_of_bytes_cmp-lt xs ys)

pub bytes_cmp-lt_trans :
    (a b c : List ℕ) → bytes_cmp a b ≡ lt → bytes_cmp b c ≡ lt → bytes_cmp a c ≡ lt
bytes_cmp-lt_trans [] [] c h k = cc
bytes_cmp-lt_trans [] (y ∷ ys) [] h k = cc
bytes_cmp-lt_trans [] (y ∷ ys) (z ∷ zs) h k = refl
bytes_cmp-lt_trans (x ∷ xs) [] c h k = cc
bytes_cmp-lt_trans (x ∷ xs) (y ∷ ys) [] h k = cc
bytes_cmp-lt_trans (x ∷ xs) (y ∷ ys) (z ∷ zs) h k = ground (arith, bytes_cmp-lt_trans xs ys zs)

instance abbrev pub bytes_ord : Ord (List ℕ)
bytes_ord = record {
  cmp = bytes_cmp;
  cmp_refl = bytes_cmp_refl;
  eq_of_cmp = eq_of_bytes_cmp;
  lt_of_gt = lt_of_bytes_cmp-gt;
  gt_of_lt = gt_of_bytes_cmp-lt;
  lt_trans = bytes_cmp-lt_trans;
}

module _ {ℓ κ} {A : Type ℓ} {B : Type κ} ⦃a : Ord A⦄ ⦃b : Ord B⦄ where
  -- tuples, component by component
  abbrev pub pair_cmp : A × B → A × B → Ordering
  pair_cmp x y = and_then (a.cmp x.0 y.0) (b.cmp x.1 y.1)

  pub pair_cmp_refl : (x : A × B) → pair_cmp x x ≡ eq
  pair_cmp_refl x = ground (arith, a.cmp_refl x.0, b.cmp_refl x.1)

  pub eq_of_pair_cmp : (x y : A × B) → pair_cmp x y ≡ eq → x ≡ y
  eq_of_pair_cmp x y h = ground (arith, a.eq_of_cmp x.0 y.0, b.eq_of_cmp x.1 y.1)

  pub lt_of_pair_cmp-gt : (x y : A × B) → pair_cmp x y ≡ gt → pair_cmp y x ≡ lt
  lt_of_pair_cmp-gt x y h =
      ground (arith, a.eq_of_cmp x.0 y.0, a.cmp_refl y.0, a.lt_of_gt x.0 y.0, b.lt_of_gt x.1 y.1)

  pub gt_of_pair_cmp-lt : (x y : A × B) → pair_cmp x y ≡ lt → pair_cmp y x ≡ gt
  gt_of_pair_cmp-lt x y h =
      ground (arith, a.eq_of_cmp x.0 y.0, a.cmp_refl y.0, a.gt_of_lt x.0 y.0, b.gt_of_lt x.1 y.1)

  pub pair_cmp-lt_trans :
      (x y z : A × B) → pair_cmp x y ≡ lt → pair_cmp y z ≡ lt → pair_cmp x z ≡ lt
  pair_cmp-lt_trans x y z h k = ground (
    arith,
    a.eq_of_cmp x.0 y.0,
    a.eq_of_cmp y.0 z.0,
    a.cmp_refl y.0,
    a.lt_trans x.0 y.0 z.0,
    b.lt_trans x.1 y.1 z.1,
  )

  instance abbrev pub pair_ord : Ord (A × B)
  pair_ord = record {
    cmp = pair_cmp;
    cmp_refl = pair_cmp_refl;
    eq_of_cmp = eq_of_pair_cmp;
    lt_of_gt = lt_of_pair_cmp-gt;
    gt_of_lt = gt_of_pair_cmp-lt;
    lt_trans = pair_cmp-lt_trans;
  }
