-- ===== src/Prelude/BTreeMap.antt =====
-- `std::collections::BTreeMap`, as an association list in the order of its keys.
pub mod Segment
use Prim.Native.Nat.Ordering.{lt, eq, gt}
use mathlib.Core.List.{List, [], ◌∷◌}
use mathlib.Core.Bool.{Bool, true, false}
use unity_catalog.Prelude.Tests.{if◌then◌else◌}
use unity_catalog.Prelude.Order.{Ord, eqb, eqb→eq, eq→eqb, less}
use mathlib.Core.Path.{◌≡◌, refl}
use mathlib.Core.Option.{Option, none, some}
use native.Mathlib.Omega.{arith}

abbrev pub BTreeMap {ℓ κ} : Type ℓ → Type κ → Type (ℓ ⊔ κ)
BTreeMap K V = List (K × V)

module _ {ℓ κ} {K : Type ℓ} {V : Type κ} ⦃o : Ord K⦄ where
  unfoldable pub get : K → BTreeMap K V → Option V
  get k [] = none
  get k ((j, v) ∷ m) = if eqb j k then some v else get k m

  unfoldable pub insert : K → V → BTreeMap K V → BTreeMap K V
  insert k v [] = (k, v) ∷ []
  insert k v ((j, w) ∷ m) = elim (o.cmp k j) [
    | lt ↦ (k, v) ∷ (j, w) ∷ m
    | eq ↦ (j, v) ∷ m
    | gt ↦ (j, w) ∷ insert k v m
  ]

  unfoldable pub remove : K → BTreeMap K V → BTreeMap K V
  remove k [] = []
  remove k ((j, w) ∷ m) = let rest = remove k m in if eqb j k then rest else (j, w) ∷ rest

  -- `range(from..)`: the entries from the first key that is not below `from`
  unfoldable pub range : K → BTreeMap K V → BTreeMap K V
  range from [] = []
  range from ((j, w) ∷ m) = let rest = range from m in if less j from then rest else (j, w) ∷ m

  unfoldable pub take_while : (K → Bool) → BTreeMap K V → BTreeMap K V
  take_while p [] = []
  take_while p ((j, w) ∷ m) = let rest = take_while p m in if p j then (j, w) ∷ rest else []

  pub get-nil : (k : K) → get k [] ≡ none
  unfolding get
  get-nil k = refl

  pub get-insert :
      (k j : K) (v : V) (m : BTreeMap K V)
      → get j (insert k v m) ≡ (if eqb k j then some v else get j m)
  unfolding get insert
  get-insert k j v [] = refl
  get-insert k j v ((i, w) ∷ m) = ground (
    arith,
    get-insert k j v m,
    o.eq_of_cmp k i,
    o.eq_of_cmp k j,
    o.eq_of_cmp i j,
    o.cmp_refl j,
    o.cmp_refl i,
    o.cmp_refl k,
  )

  pub get-remove :
      (k j : K) (m : BTreeMap K V) → get j (remove k m) ≡ (if eqb k j then none else get j m)
  unfolding get remove
  get-remove k j [] = ground arith
  get-remove k j ((i, w) ∷ m) = ground (
    arith,
    get-remove k j m,
    eqb→eq k j,
    eqb→eq i k,
    eqb→eq i j,
    eq→eqb i j,
    eq→eqb k j,
    eq→eqb i k,
  )

  -- every key of the map is above `k`
  abbrev pub IsAbove : K → BTreeMap K V → Type 0
  IsAbove k [] = Unit
  IsAbove k ((j, _) ∷ m) = (o.cmp k j ≡ lt) × IsAbove k m

  abbrev pub IsSorted : BTreeMap K V → Type 0
  IsSorted [] = Unit
  IsSorted ((k, _) ∷ m) = IsAbove k m × IsSorted m

  IsAbove-trans : (k j : K) (m : BTreeMap K V) → o.cmp k j ≡ lt → IsAbove j m → IsAbove k m
  IsAbove-trans k j [] h a = tt
  IsAbove-trans k j ((i, _) ∷ m) h a = (o.lt_trans k j i h a.0, IsAbove-trans k j m h a.1)

  insert-IsAbove :
      (i k : K) (v : V) (m : BTreeMap K V) → o.cmp i k ≡ lt → IsAbove i m → IsAbove i (insert k v m)
  unfolding insert
  insert-IsAbove i k v [] h a = (h, tt)
  insert-IsAbove i k v ((j, w) ∷ m) h a = ground (arith, insert-IsAbove i k v m)

  remove-IsAbove : (i k : K) (m : BTreeMap K V) → IsAbove i m → IsAbove i (remove k m)
  unfolding remove
  remove-IsAbove i k [] a = tt
  remove-IsAbove i k ((j, w) ∷ m) a = ground (arith, remove-IsAbove i k m)

  pub insert-IsSorted : (k : K) (v : V) (m : BTreeMap K V) → IsSorted m → IsSorted (insert k v m)
  unfolding insert
  insert-IsSorted k v [] s = (tt, tt)
  insert-IsSorted k v ((j, w) ∷ m) s =
      ground
        (arith, IsAbove-trans k j m, insert-IsAbove j k v m, insert-IsSorted k v m, o.lt_of_gt k j)

  pub remove-IsSorted : (k : K) (m : BTreeMap K V) → IsSorted m → IsSorted (remove k m)
  unfolding remove
  remove-IsSorted k [] s = tt
  remove-IsSorted k ((j, w) ∷ m) s = ground (arith, remove-IsSorted k m, remove-IsAbove j k m)
