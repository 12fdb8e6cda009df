-- ===== src/Store/Log/Listing.antt =====
-- `list_all_after` and `list_all_in_range` of crates/uc-db/src/store/log.rs: a backend's listing, page
-- by page, until a page is empty or goes past the bound. The loop runs on fuel, one unit a page.
pub mod Sorted
pub mod Complete
use unity_catalog.Prelude.{
  ℕ, zero, suc, Bool, true, false, not, Option, none, some, List, [], ◌∷◌, ◌++◌, last, Result, ok,
  err, internal, if◌then◌else◌,
}
use unity_catalog.Prelude.Text.{Text}
use unity_catalog.Prelude.Order.{less, bytes_ord}

-- `k <= stop`, where there is a bound
abbrev pub within : Option Text → Text → Bool
within none key = true
within (some stop) key = not (less stop key)

-- `take_while(|k| k <= stop)`
abbrev pub take_within : Option Text → List Text → List Text
take_within stop [] = []
take_within stop (key ∷ keys) =
    let rest = take_within stop keys in if within stop key then key ∷ rest else []

-- one `list_after(prefix, cursor)` of the backend
abbrev pub Backend : Type 0
Backend = Text → Text → Result (List Text)

-- the loop, at what is gathered and the cursor; `none` where the fuel ends
unfoldable pub pages :
    ℕ → Backend → Text → Option Text → List Text → Text → Option (Result (List Text))
pages zero list_after prefix stop_at all cursor = none
pages (suc fuel) list_after prefix stop_at all cursor = elim (list_after prefix cursor) [
  | err e ↦ some (err e)
  | ok page ↦ elim (last page) [
    | none ↦ some (ok all)
    | some last_key ↦
        let more = pages fuel list_after prefix stop_at (all ++ page) last_key in
        if not (within stop_at last_key)
        then some (ok (all ++ take_within stop_at page))
        else if not (less cursor last_key)
        then some (err internal)
        else more
  ]
]

unfoldable pub list_all_in_range :
    ℕ → Backend → Text → Text → Option Text → Option (Result (List Text))
list_all_in_range fuel list_after prefix start_after stop_at =
    pages fuel list_after prefix stop_at [] start_after

unfoldable pub list_all_after : ℕ → Backend → Text → Text → Option (Result (List Text))
list_all_after fuel list_after prefix start_after =
    list_all_in_range fuel list_after prefix start_after none
