-- ===== src/Pagination.antt =====
-- crates/uc-db/src/pagination.rs
pub mod Bounds
use unity_catalog.Prelude.{
  ℕ, zero, suc, ◌+◌, ◌-◌, ◌^◌, ◌≤◌, ◌<◌, ℤ, pos, negsuc, pos_part, Bool, true, false, Option, none,
  some, List, [], ◌∷◌, ◌++◌, length, take, drop, last, ltb, ◌==◌, ◌≡◌, refl, ap, inl, inr,
  Bool-cases, arith, if◌then◌else◌, take-append-drop, map_option,
}
use unity_catalog.Prelude.Text.{Text}

abbrev usize_max : ℕ
usize_max = 2 ^ 64 - 1

-- `usize::try_from(max_results.max(0)).unwrap_or(usize::MAX)`, on a 64-bit target, where every
-- `i64` that is not negative fits
abbrev pub limit_of : ℤ → ℕ
limit_of max_results = pos_part max_results

unfoldable pub page {ℓ} : {A : Type ℓ} → List A → ℤ → (A → Text) → List A × Option Text
page rows max_results key =
    let limit = limit_of max_results in
    if limit == 0 then ([], none) else (
      take limit rows,
      (if ltb limit (length rows) then map_option key (last (take limit rows)) else none),
    )

-- `limit.saturating_add(1)`
unfoldable pub over_fetch : ℤ → ℕ
over_fetch max_results =
    let limit = limit_of max_results in if ltb limit usize_max then limit + 1 else usize_max
