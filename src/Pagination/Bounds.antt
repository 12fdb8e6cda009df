-- ===== src/Pagination/Bounds.antt =====
-- What a page of crates/uc-db/src/pagination.rs holds, and how many rows are asked for.
use unity_catalog.Prelude.{
  ℕ, zero, suc, ◌+◌, ◌^◌, ◌≤◌, ◌<◌, ℤ, pos, negsuc, true, false, Option, none, some, List, [], ◌∷◌,
  length, take, last, ltb, ◌==◌, ◌≡◌, refl, arith, is_some, if◌then◌else◌, map_option,
}
use unity_catalog.Prelude.Text.{Text}
use unity_catalog.Pagination.{limit_of, page, over_fetch, usize_max}

pub length-take :
    {A : Type 0} (n : ℕ) (xs : List A)
    → length (take n xs) ≡ (if ltb n (length xs) then n else length xs)
length-take zero [] = refl
length-take zero (x ∷ xs) = ground arith
length-take (suc n) [] = ground arith
length-take (suc n) (x ∷ xs) = ground (arith, length-take n xs)

pub take-take-suc : {A : Type 0} (n : ℕ) (xs : List A) → take n (take (suc n) xs) ≡ take n xs
take-take-suc zero xs = refl
take-take-suc (suc n) [] = refl
take-take-suc (suc n) (x ∷ xs) = ground (arith, take-take-suc n xs)

last-is_some {ℓ} : {A : Type ℓ} (x : A) (xs : List A) → is_some (last (x ∷ xs)) ≡ true
last-is_some x [] = refl
last-is_some x (y ∷ ys) = last-is_some y ys

last-take-is_some {ℓ} :
    {A : Type ℓ} (n : ℕ) (xs : List A) → n < length xs → is_some (last (take (suc n) xs)) ≡ true
last-take-is_some n [] h = absurd (omega arith)
last-take-is_some n (x ∷ xs) h = last-is_some x (take n xs)

map_option-is_some {ℓ κ} :
    {A : Type ℓ} {B : Type κ} (f : A → B) (o : Option A) → is_some (map_option f o) ≡ is_some o
map_option-is_some f none = refl
map_option-is_some f (some a) = refl

-- A page of `max_results` rows from any candidates: when `max_results` is not positive it is empty
-- and has no token. Else it holds the first `max_results` candidates, or all of them when there are
-- fewer, and it has a token exactly when there are more candidates than `max_results`.
pub page-bounds :
    {A : Type 0} (rows : List A) (max_results : ℤ) (key : A → Text)
    → ((page rows max_results key).0 ≡ take (limit_of max_results) rows)
      × (length (page rows max_results key).0 ≤ limit_of max_results)
      × (is_some (page rows max_results key).1
          ≡ (if limit_of max_results == 0 then false else ltb (limit_of max_results) (length rows)))
unfolding page
page-bounds rows (negsuc n) key = (refl, omega arith, refl)
page-bounds rows (pos zero) key = (refl, omega arith, refl)
page-bounds rows (pos (suc n)) key = (
  ground arith,
  ground (arith, length-take (suc n) rows),
  ground (arith, map_option-is_some key (last (take (suc n) rows)), last-take-is_some n rows),
)

-- Asking the scan for `over_fetch` rows is enough: for every `i64` limit, the page made of at most
-- that many candidates is the page made of all of them, its token included.
pub page-over_fetch :
    {A : Type 0} (rows : List A) (max_results : ℤ) (key : A → Text)
    → limit_of max_results < 2 ^ 63
    → page (take (over_fetch max_results) rows) max_results key ≡ page rows max_results key
unfolding page over_fetch
page-over_fetch rows (negsuc n) key h = refl
page-over_fetch rows (pos n) key h =
    let enough : (if ltb n usize_max then n + 1 else usize_max) ≡ suc n = ground arith in
    rw enough (ground (arith, take-take-suc n rows, length-take (suc n) rows))
