-- ===== src/Store/Log/Listing/Sorted.antt =====
-- Sorted key lists: what a page leaves to be listed.
use unity_catalog.Prelude.{
  ℕ, zero, suc, true, false, Option, none, some, List, [], ◌∷◌, ◌++◌, take, drop, last, keep, ◌≡◌,
  refl, arith, subst, Bool-cases, inl, inr,
}
use unity_catalog.Prelude.Text.{Text}
use unity_catalog.Prelude.Order.{less, bytes_ord}
use unity_catalog.Store.Log.Listing.{within, take_within}

-- every key is above `key`
abbrev pub IsAbove : Text → List Text → Type 0
IsAbove key [] = Unit
IsAbove key (k ∷ keys) = (less key k ≡ true) × IsAbove key keys

abbrev pub IsSorted : List Text → Type 0
IsSorted [] = Unit
IsSorted (k ∷ keys) = IsAbove k keys × IsSorted keys

pub less_trans : (a b c : Text) → less a b ≡ true → less b c ≡ true → less a c ≡ true
less_trans a b c h k = ground (arith, bytes_ord.lt_trans a b c)

less_irrefl : (a : Text) → less a a ≡ false
less_irrefl a = ground (arith, bytes_ord.cmp_refl a)

IsAbove-trans : (a b : Text) (keys : List Text) → less a b ≡ true → IsAbove b keys → IsAbove a keys
IsAbove-trans a b [] h s = tt
IsAbove-trans a b (k ∷ keys) h s = (less_trans a b k h s.0, IsAbove-trans a b keys h s.1)

keep_above : (a : Text) (keys : List Text) → IsAbove a keys → keep (less a) keys ≡ keys
keep_above a [] s = refl
keep_above a (k ∷ keys) s = ground (arith, keep_above a keys s.1)

keep_self : (a : Text) (keys : List Text) → IsAbove a keys → keep (less a) (a ∷ keys) ≡ keys
keep_self a keys s = rw (less_irrefl a) (keep_above a keys s)

IsAbove-keep : (a b : Text) (keys : List Text) → IsAbove a keys → IsAbove a (keep (less b) keys)
IsAbove-keep a b [] s = tt
IsAbove-keep a b (k ∷ keys) s = ground (arith, IsAbove-keep a b keys s.1)

pub keep-IsSorted : (b : Text) (keys : List Text) → IsSorted keys → IsSorted (keep (less b) keys)
keep-IsSorted b [] s = tt
keep-IsSorted b (k ∷ keys) s = ground (arith, keep-IsSorted b keys s.1, IsAbove-keep k b keys s.0)

pub keep-IsAbove : (b : Text) (keys : List Text) → IsAbove b (keep (less b) keys)
keep-IsAbove b [] = tt
keep-IsAbove b (k ∷ keys) = ground (arith, keep-IsAbove b keys)

pub last-IsAbove :
    (a : Text) (n : ℕ) (keys : List Text) (l : Text)
    → IsAbove a keys
    → last (take n keys) ≡ some l
    → less a l ≡ true
last-IsAbove a zero keys l s h = cc
last-IsAbove a (suc n) [] l s h = cc
last-IsAbove a (suc zero) (k ∷ keys) l s h = ground arith
last-IsAbove a (suc (suc n)) (k ∷ []) l s h = ground arith
last-IsAbove a (suc (suc n)) (k ∷ j ∷ keys) l s h = last-IsAbove a (suc n) (j ∷ keys) l s.1 h

-- After the last key of a page come the keys that the page left.
pub keep-last :
    (n : ℕ) (keys : List Text) (l : Text)
    → IsSorted keys
    → last (take (suc n) keys) ≡ some l
    → keep (less l) keys ≡ drop (suc n) keys
keep-last n [] l s h = cc
keep-last zero (k ∷ keys) l s h =
    let q : k ≡ l = ground arith in
    subst (λ (x : Text). keep (less x) (k ∷ keys) ≡ keys) q (keep_self k keys s.0)
keep-last (suc n) (k ∷ []) l s h = ground (arith, less_irrefl l)
keep-last (suc n) (k ∷ j ∷ keys) l s h =
    let up : less k l ≡ true = last-IsAbove k (suc n) (j ∷ keys) l s.0 h in
    let down : less l k ≡ false = ground (arith, bytes_ord.gt_of_lt k l) in
    rw down (keep-last n (j ∷ keys) l s.1 h)

-- Keys after `l` are the keys after `l` among those after a lower key.
pub keep-keep :
    (c l : Text) (keys : List Text)
    → less c l ≡ true
    → keep (less l) (keep (less c) keys) ≡ keep (less l) keys
keep-keep c l [] h = refl
keep-keep c l (k ∷ keys) h = ground (arith, keep-keep c l keys h, less_trans c l k h)

within_below :
    (stop : Option Text) (k l : Text)
    → less k l ≡ true
    → within stop l ≡ true
    → within stop k ≡ true
within_below none k l h w = refl
within_below (some s) k l h w = ground (arith, less_trans s k l)

keep_none :
    (stop : Option Text) (k : Text) (keys : List Text)
    → within stop k ≡ false
    → IsAbove k keys
    → keep (within stop) keys ≡ []
keep_none stop k [] w s = refl
keep_none stop k (j ∷ keys) w s =
    ground (arith, keep_none stop k keys w s.1, within_below stop k j s.0)

-- On sorted keys, cutting at the bound is the filter.
take_within-keep :
    (stop : Option Text) (keys : List Text)
    → IsSorted keys
    → take_within stop keys ≡ keep (within stop) keys
take_within-keep stop [] s = refl
take_within-keep stop (k ∷ keys) s =
    ground (arith, take_within-keep stop keys s.1, keep_none stop k keys)

-- A page whose last key is past the bound holds every key that is not.
pub take_within-page :
    (stop : Option Text) (n : ℕ) (keys : List Text) (l : Text)
    → IsSorted keys
    → last (take (suc n) keys) ≡ some l
    → within stop l ≡ false
    → take_within stop (take (suc n) keys) ≡ keep (within stop) keys
take_within-page stop n [] l s h w = refl
take_within-page stop zero (k ∷ keys) l s h w =
    let q : k ≡ l = ground arith in ground (arith, keep_none stop k keys)
take_within-page stop (suc n) (k ∷ []) l s h w = ground arith
take_within-page stop (suc n) (k ∷ j ∷ keys) l s h w =
    let ih = take_within-page stop n (j ∷ keys) l s.1 h w in
    elim (Bool-cases (within stop k)) [
      | inl inside ↦ rw inside (rw ih refl)
      | inr outside ↦ rw outside (rw (keep_none stop k (j ∷ keys) outside s.0) refl)
    ]

-- A page whose last key is within the bound is all within it.
pub keep-page :
    (stop : Option Text) (n : ℕ) (keys : List Text) (l : Text)
    → IsSorted keys
    → last (take (suc n) keys) ≡ some l
    → within stop l ≡ true
    → keep (within stop) keys ≡ take (suc n) keys ++ keep (within stop) (drop (suc n) keys)
keep-page stop n [] l s h w = refl
keep-page stop zero (k ∷ keys) l s h w =
    let q : k ≡ l = ground arith in let e : within stop k ≡ true = rw q w in rw e refl
keep-page stop (suc n) (k ∷ []) l s h w =
    let q : k ≡ l = ground arith in let e : within stop k ≡ true = rw q w in rw e refl
keep-page stop (suc n) (k ∷ j ∷ keys) l s h w =
    let up : less k l ≡ true = last-IsAbove k (suc n) (j ∷ keys) l s.0 h in
    rw (within_below stop k l up w) (rw (keep-page stop n (j ∷ keys) l s.1 h w) refl)
