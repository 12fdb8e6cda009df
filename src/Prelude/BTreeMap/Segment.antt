-- ===== src/Prelude/BTreeMap/Segment.antt =====
-- Reading a run of keys of a sorted map: `range(from..).take_while(p).filter(a)` against a plain
-- filter over the whole map.
use Prim.Native.Nat.Ordering.{lt}
use mathlib.Core.List.{[], ◌∷◌}
use mathlib.Core.Logic.{inl, inr}
use mathlib.Core.Bool.{Bool, true, false, ◌&&◌}
use unity_catalog.Prelude.Tests.{if◌then◌else◌, Bool-cases}
use unity_catalog.Prelude.Order.{Ord, less}
use unity_catalog.Prelude.BTreeMap.{BTreeMap, range, take_while, IsAbove, IsSorted}
use mathlib.Core.Path.{◌≡◌, refl}
use native.Mathlib.Omega.{arith}

-- The keys of `p` from `from` on form one run, and no key of both tests stands before it.
pub record IsSegment {ℓ} {K : Type ℓ} ⦃o : Ord K⦄ (p a : K → Bool) (from : K) : Type ℓ where
  pub above : (k : K) → p k ≡ true → a k ≡ true → less k from ≡ false
  pub convex : (k j : K) → less k from ≡ false → p k ≡ false → o.cmp k j ≡ lt → p j ≡ false

module _ {ℓ κ} {K : Type ℓ} {V : Type κ} where
  unfoldable pub keep_keys : (K → Bool) → BTreeMap K V → BTreeMap K V
  keep_keys p [] = []
  keep_keys p ((j, w) ∷ m) = let rest = keep_keys p m in if p j then (j, w) ∷ rest else rest

module _ {ℓ} {K : Type ℓ} ⦃o : Ord K⦄ where
  not_less_above : (from k j : K) → less k from ≡ false → o.cmp k j ≡ lt → less j from ≡ false
  not_less_above from k j h a = ground (arith, o.lt_trans k j from)

module _ {ℓ κ} {K : Type ℓ} {V : Type κ} ⦃o : Ord K⦄ (p a : K → Bool) (from : K)
    (seg : IsSegment p a from) where
  keep_keys-none :
      (k : K) (m : BTreeMap K V)
      → less k from ≡ false
      → p k ≡ false
      → IsAbove k m
      → keep_keys (λ j. p j && a j) m ≡ []
  unfolding keep_keys
  keep_keys-none k [] h n b = refl
  keep_keys-none k ((j, w) ∷ m) h n b =
      ground (arith, keep_keys-none k m h n b.1, seg.convex k j h n b.0)

  keep_keys-take_while :
      (k : K) (m : BTreeMap K V)
      → less k from ≡ false
      → IsAbove k m
      → IsSorted m
      → keep_keys a (take_while p m) ≡ keep_keys (λ j. p j && a j) m
  unfolding take_while keep_keys
  keep_keys-take_while k [] h b s = refl
  keep_keys-take_while k ((j, w) ∷ m) h b s =
      let hj = not_less_above from k j h b.0 in
      ground (arith, keep_keys-take_while j m hj s.0 s.1, keep_keys-none j m hj)

  -- On a sorted map, the bounded scan is the filter over the whole map.
  pub keep_keys-range :
      (m : BTreeMap K V)
      → IsSorted m
      → keep_keys a (take_while p (range from m)) ≡ keep_keys (λ j. p j && a j) m
  unfolding take_while range keep_keys
  keep_keys-range [] s = refl
  keep_keys-range ((j, w) ∷ m) s = elim (Bool-cases (less j from)) [
    | inl below ↦ ground (arith, keep_keys-range m s.1, seg.above j)
    | inr here ↦ ground (arith, keep_keys-take_while j m here s.0 s.1, keep_keys-none j m here)
  ]
