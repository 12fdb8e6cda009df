-- ===== src/Repos/ExternalLocation/Prefix.antt =====
-- What `find_by_path_prefix` of crates/uc-db/src/repos/external_location.rs finds.
use unity_catalog.Prelude.{
  Bool, true, false, Option, none, some, List, [], ◌∷◌, All, length, keep, ◌≤◌, ◌≡◌, refl, ok,
  arith, inl, inr, if◌then◌else◌, traverse,
}
use unity_catalog.Prelude.Text.{Text, starts_with}
use unity_catalog.Prelude.Sort.{Has}
use unity_catalog.Prelude.Keep.{Has-keep, All-keep, keep-nil}
use unity_catalog.Models.{ExternalLocationRow}
use unity_catalog.Store.Kind.{EntityKind}
use unity_catalog.Store.Snapshot.{Snapshot}
use unity_catalog.Store.Snapshot.Scan.{iter}
use unity_catalog.Repos.ExternalLocation.{is_before, longest, find_by_path_prefix, row_of}

-- no row has a longer URL
abbrev Bounds : ExternalLocationRow → List ExternalLocationRow → Type 0
Bounds best rows = All (λ row. length row.url ≤ length best.url) rows

abbrev IsBest : List ExternalLocationRow → Option ExternalLocationRow → Type 0
IsBest rows none = rows ≡ []
IsBest rows (some best) = Has best rows × Bounds best rows

Bounds-raise :
    (a b : ExternalLocationRow) (rows : List ExternalLocationRow)
    → length a.url ≤ length b.url
    → Bounds a rows
    → Bounds b rows
Bounds-raise a b [] le h = tt
Bounds-raise a b (row ∷ rows) le h = (omega (arith, h.0), Bounds-raise a b rows le h.1)

longest-IsBest : (rows : List ExternalLocationRow) → IsBest rows (longest rows)
unfolding longest
longest-IsBest [] = refl
longest-IsBest (row ∷ rows) = step row rows (longest rows) (longest-IsBest rows)
  where
    chosen :
        (row best : ExternalLocationRow) (rows : List ExternalLocationRow) (test : Bool)
        → is_before row best ≡ test
        → Has best rows
        → Bounds best rows
        → IsBest (row ∷ rows) (if test then some row else some best)
    chosen row best rows true e h b =
        (inl refl, (omega arith, Bounds-raise best row rows (ground arith) b))
    chosen row best rows false e h b = (inr h, (ground arith, b))

    step :
        (row : ExternalLocationRow) (rows : List ExternalLocationRow)
        (found : Option ExternalLocationRow)
        → IsBest rows found
        → IsBest (row ∷ rows) (elim found [
          | none ↦ some row
          | some best ↦ if is_before row best then some row else some best
        ])
    step row rows none h = (inl refl, (omega arith, rw h tt))
    step row rows (some best) h = chosen row best rows (is_before row best) refl h.0 h.1

-- The location covers the path and is the longest that does; none covers it when there is none.
abbrev pub IsLongest : Text → List ExternalLocationRow → Option ExternalLocationRow → Type 0
IsLongest path rows none = All (λ row. starts_with row.url path ≡ false) rows
IsLongest path rows (some best) =
    Has best rows
    × (starts_with best.url path ≡ true)
    × All (λ row. starts_with row.url path ≡ true → length row.url ≤ length best.url) rows

IsLongest-of :
    (path : Text) (rows : List ExternalLocationRow) (found : Option ExternalLocationRow)
    → IsBest (keep (λ row. starts_with row.url path) rows) found
    → IsLongest path rows found
IsLongest-of path rows none h = keep-nil (λ row. starts_with row.url path) rows h
IsLongest-of path rows (some best) h =
    let k = Has-keep (λ row. starts_with row.url path) best rows h.0 in
    (
      k.0,
      k.1,
      All-keep (λ row. starts_with row.url path) (λ row. length row.url ≤ length best.url) rows h.1,
    )

-- When the external locations of the snapshot are read, the lookup answers with one of them whose URL is
-- a prefix of the path and at least as long as that of any other such location, and with none exactly
-- when no location's URL is a prefix of the path.
pub find_by_path_prefix-IsLongest :
    (snap : Snapshot) (path : Text) (rows : List ExternalLocationRow)
    → traverse row_of (iter snap EntityKind.external_location) ≡ ok rows
    → (found : Option ExternalLocationRow) × (find_by_path_prefix snap path ≡ ok found)
      × IsLongest path rows found
unfolding find_by_path_prefix
find_by_path_prefix-IsLongest snap path rows e =
    let candidates = keep (λ row. starts_with row.url path) rows in
    (
      longest candidates,
      rw e refl,
      IsLongest-of path rows (longest candidates) (longest-IsBest candidates),
    )
