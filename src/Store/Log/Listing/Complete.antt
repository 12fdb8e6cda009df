-- ===== src/Store/Log/Listing/Complete.antt =====
-- A listing that is driven to its end misses no key, however the backend cuts it into pages.
use unity_catalog.Prelude.{
  ℕ, zero, suc, ◌≤◌, ◌<◌, true, Option, none, some, List, [], ◌∷◌, ◌++◌, length, take, drop, last,
  keep, ok, ◌≡◌, refl, sym, ap, ◌∙◌, arith, Bool-cases, Option-cases, inl, inr,
}
use mathlib.Core.List.{append-nil, append_assoc}
use unity_catalog.Prelude.Text.{Text}
use unity_catalog.Prelude.Order.{less, bytes_ord}
use unity_catalog.Store.Log.Listing.{Backend, within, pages, list_all_in_range}
use unity_catalog.Store.Log.Listing.Sorted.{
  IsSorted, keep-IsSorted, keep-IsAbove, last-IsAbove, keep-last, keep-keep, take_within-page,
  keep-page,
}

-- The backend holds `keys` under the prefix, and answers with at least one of the keys after the
-- cursor, the first ones, when there are any.
abbrev pub IsPaging : Backend → Text → List Text → Type 0
IsPaging list_after prefix keys =
    (cursor : Text)
    → (n : ℕ) × (list_after prefix cursor ≡ ok (take (suc n) (keep (less cursor) keys)))

last-none : (n : ℕ) (keys : List Text) → last (take (suc n) keys) ≡ none → keys ≡ []
last-none n [] h = refl
last-none zero (k ∷ keys) h = cc
last-none (suc n) (k ∷ []) h = cc
last-none (suc n) (k ∷ j ∷ keys) h = absurd (ground (arith, last-none n (j ∷ keys)))

length-drop : (n : ℕ) (keys : List Text) → length (drop n keys) ≤ length keys
length-drop zero keys = omega arith
length-drop (suc n) [] = omega arith
length-drop (suc n) (k ∷ keys) = omega (arith, length-drop n keys)

drop_shorter :
    (n : ℕ) (keys : List Text) (l : Text)
    → last (take (suc n) keys) ≡ some l
    → length (drop (suc n) keys) < length keys
drop_shorter n [] l h = cc
drop_shorter n (k ∷ keys) l h = omega (arith, length-drop n keys)

module _ (list_after : Backend) (prefix : Text) (stop : Option Text) (keys : List Text)
    (sorted : IsSorted keys) (paging : IsPaging list_after prefix keys) where
  pages_complete :
      (fuel : ℕ) (all : List Text) (cursor : Text)
      → length (keep (less cursor) keys) < fuel
      → pages fuel list_after prefix stop all cursor
        ≡ some (ok (all ++ keep (within stop) (keep (less cursor) keys)))
  unfolding pages
  pages_complete zero all cursor enough = absurd (omega arith)
  pages_complete (suc fuel) all cursor enough =
      let (n, e) = paging cursor in
      let rest = keep (less cursor) keys in
      let rest_sorted = keep-IsSorted cursor keys sorted in
      rw (pages, e)
        (elim (Option-cases (last (take (suc n) rest))) [
          | inl h ↦ rw h (
              rw (last-none n rest h)
                (ap (λ (xs : List Text). some (ok xs)) (sym (append-nil all))))
          | inr (l, h) ↦
              let up : less cursor l ≡ true =
                last-IsAbove cursor (suc n) rest l (keep-IsAbove cursor keys) h in
              let left : keep (less l) keys ≡ drop (suc n) rest =
                sym (keep-keep cursor l keys up) ∙ keep-last n rest l rest_sorted h in
              rw h (elim (Bool-cases (within stop l)) [
                | inr past ↦ rw past (rw (take_within-page stop n rest l rest_sorted h past) refl)
                | inl inside ↦ rw inside (
                    rw up (
                      pages_complete fuel (all ++ take (suc n) rest) l
                        (rw left (omega (arith, drop_shorter n rest l h)))
                      ∙ ap (λ (xs : List Text). some (ok xs))
                          (append_assoc all (take (suc n) rest) _
                            ∙ ap (λ (xs : List Text). all ++ xs)
                                (rw left (sym (keep-page stop n rest l rest_sorted h inside))))))
              ])
        ])

  -- Against a backend that holds the sorted keys `keys` under a prefix and lists them in pages of any
  -- sizes, none empty before the end, the loop ends, within one page more than there are keys to list, and
  -- gives exactly the keys after the start that are not past the bound, in order.
  pub list_all_in_range_complete :
      (fuel : ℕ) (start_after : Text)
      → length (keep (less start_after) keys) < fuel
      → list_all_in_range fuel list_after prefix start_after stop
        ≡ some (ok (keep (within stop) (keep (less start_after) keys)))
  unfolding list_all_in_range
  list_all_in_range_complete fuel start_after enough = pages_complete fuel [] start_after enough
