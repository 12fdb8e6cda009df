-- ===== src/Tests/Pages.antt =====
-- Pages of a listing.
use unity_catalog.Prelude.{
  ◌≤◌, pos, false, List, [], ◌∷◌, length, take, ltb, ◌==◌, ◌≡◌, arith, is_some, if◌then◌else◌,
}
use unity_catalog.Prelude.Text.{Text, bytes}
use unity_catalog.Pagination.{limit_of, page, over_fetch}
use unity_catalog.Pagination.Bounds.{page-bounds, page-over_fetch}

abbrev names : List Text
names = bytes "a" ∷ bytes "b" ∷ bytes "c" ∷ []

abbrev itself : Text → Text
itself name = name

page-bounds_example :
    ((page names (pos 2) itself).0 ≡ take (limit_of (pos 2)) names)
    × (length (page names (pos 2) itself).0 ≤ limit_of (pos 2))
    × (is_some (page names (pos 2) itself).1
        ≡ (if limit_of (pos 2) == 0 then false else ltb (limit_of (pos 2)) (length names)))
page-bounds_example = page-bounds names (pos 2) itself

page-over_fetch_example :
    page (take (over_fetch (pos 2)) names) (pos 2) itself ≡ page names (pos 2) itself
page-over_fetch_example = page-over_fetch names (pos 2) itself (omega arith)
