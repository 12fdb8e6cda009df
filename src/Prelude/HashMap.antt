-- ===== src/Prelude/HashMap.antt =====
-- `std::collections::HashMap`, as an association list with one entry for each key that it is asked
-- for. The order of the entries stands for the map's unspecified iteration order.
use mathlib.Core.List.{List, [], ◌∷◌}
use unity_catalog.Prelude.Tests.{if◌then◌else◌}
use unity_catalog.Prelude.Order.{Ord, eqb, eqb→eq, eq→eqb}
use mathlib.Core.Path.{◌≡◌, refl}
use mathlib.Core.Option.{Option, none, some}
use native.Mathlib.Omega.{arith}

abbrev pub HashMap {ℓ κ} : Type ℓ → Type κ → Type (ℓ ⊔ κ)
HashMap K V = List (K × V)

module _ {ℓ κ} {K : Type ℓ} {V : Type κ} ⦃o : Ord K⦄ where
  unfoldable pub get : K → HashMap K V → Option V
  get k [] = none
  get k ((j, v) ∷ m) = if eqb j k then some v else get k m

  unfoldable pub insert : K → V → HashMap K V → HashMap K V
  insert k v [] = (k, v) ∷ []
  insert k v ((j, w) ∷ m) = if eqb j k then (j, v) ∷ m else (j, w) ∷ insert k v m

  unfoldable pub remove : K → HashMap K V → HashMap K V
  remove k [] = []
  remove k ((j, w) ∷ m) = let rest = remove k m in if eqb j k then rest else (j, w) ∷ rest

  pub get-nil : (k : K) → get k [] ≡ none
  unfolding get
  get-nil k = refl

  pub get-insert :
      (k j : K) (v : V) (m : HashMap K V)
      → get j (insert k v m) ≡ (if eqb k j then some v else get j m)
  unfolding get insert
  get-insert k j v [] = refl
  get-insert k j v ((i, w) ∷ m) = ground (
    arith,
    get-insert k j v m,
    eqb→eq k j,
    eqb→eq i k,
    eqb→eq i j,
    eq→eqb i j,
    eq→eqb k j,
    eq→eqb i k,
  )

  pub get-remove :
      (k j : K) (m : HashMap K V) → get j (remove k m) ≡ (if eqb k j then none else get j m)
  unfolding get remove
  get-remove k j [] = ground arith
  get-remove k j ((i, w) ∷ m) = ground (
    arith,
    get-remove k j m,
    eqb→eq k j,
    eqb→eq i k,
    eqb→eq i j,
    eq→eqb i j,
    eq→eqb k j,
    eq→eqb i k,
  )
