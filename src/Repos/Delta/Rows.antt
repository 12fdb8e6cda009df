-- ===== src/Repos/Delta/Rows.antt =====
-- What `list_for_table` of crates/uc-db/src/repos/delta.rs reads at the versions of a listing.
use unity_catalog.Prelude.{
  ℤ, some, List, [], ◌∷◌, ok, internal, ok_or, >>=-eq-ok, eq_of_ok_or, ◌≡◌, refl, sym, ap, ◌∙◌, inl,
  inr, arith, subst,
}
use unity_catalog.Prelude.Text.{Text}
use unity_catalog.Prelude.Sort.{Has}
use unity_catalog.Models.{Uuid, DeltaCommitRow}
use unity_catalog.Store.Platform.{Platform}
use unity_catalog.Store.Delta.{DeltaLog, read}
use unity_catalog.Repos.Delta.{CommitText, decode, rows_at}

module _ {Value : Type 0} (platform : Platform Value) (text : CommitText) (table_id : Uuid)
    (d : DeltaLog) where
  -- the object of the version is read as the row
  abbrev pub Gives : ℤ → DeltaCommitRow → Type 0
  Gives v row =
      (body : Text) × (read platform table_id v d ≡ some body) × (text.from_slice body ≡ some row)

  first_row :
      (v : ℤ) (vs : List ℤ) (rows : List DeltaCommitRow)
      → rows_at platform text table_id (v ∷ vs) d ≡ ok rows
      → (row : DeltaCommitRow) × (rest : List DeltaCommitRow) × Gives v row
        × (rows_at platform text table_id vs d ≡ ok rest)
        × (row ∷ rest ≡ rows)
  unfolding rows_at decode
  first_row v vs rows h =
      let (body, r, h1) = >>=-eq-ok (ok_or internal (read platform table_id v d)) _ h in
      let (row, p, h2) = >>=-eq-ok (ok_or internal (text.from_slice body)) _ h1 in
      let (rest, q, h3) = >>=-eq-ok (rows_at platform text table_id vs d) _ h2 in
      (
        row,
        rest,
        (
          body,
          eq_of_ok_or internal (read platform table_id v d) body r,
          eq_of_ok_or internal (text.from_slice body) row p,
        ),
        q,
        ground arith,
      )

  pub rows_at-Gives :
      (vs : List ℤ) (rows : List DeltaCommitRow) (v : ℤ)
      → rows_at platform text table_id vs d ≡ ok rows
      → Has v vs
      → (row : DeltaCommitRow) × Gives v row × Has row rows
  rows_at-Gives [] rows v h i = elim i [ ]
  rows_at-Gives (w ∷ vs) rows v h (inl e) =
      let (row, rest, g, q, whole) = first_row w vs rows h in
      (
        row,
        subst (λ (x : ℤ). Gives x row) (sym e) g,
        subst (λ (x : List DeltaCommitRow). Has row x) whole (inl refl),
      )
  rows_at-Gives (w ∷ vs) rows v h (inr i) =
      let (first, rest, g, q, whole) = first_row w vs rows h in
      let (row, g', k) = rows_at-Gives vs rest v q i in
      (row, g', subst (λ (x : List DeltaCommitRow). Has row x) whole (inr k))

  pub Gives-of_row :
      (vs : List ℤ) (rows : List DeltaCommitRow) (row : DeltaCommitRow)
      → rows_at platform text table_id vs d ≡ ok rows
      → Has row rows
      → (v : ℤ) × Has v vs × Gives v row
  unfolding rows_at
  Gives-of_row [] rows row h i =
      let q : [] ≡ rows = ground arith in
      elim (subst (λ (x : List DeltaCommitRow). Has row x) (sym q) i) [ ]
  Gives-of_row (w ∷ vs) rows row h i =
      let (first, rest, g, q, whole) = first_row w vs rows h in
      elim (subst (λ (x : List DeltaCommitRow). Has row x) (sym whole) i) [
        | inl e ↦ (w, inl refl, subst (λ (x : DeltaCommitRow). Gives w x) (sym e) g)
        | inr k ↦ let (v, j, g') = Gives-of_row vs rest row q k in (v, inr j, g')
      ]

  -- When every version gives a row, they are all read.
  pub rows_at-all :
      (vs : List ℤ)
      → ((v : ℤ) → Has v vs → (row : DeltaCommitRow) × Gives v row)
      → (rows : List DeltaCommitRow) × (rows_at platform text table_id vs d ≡ ok rows)
  unfolding rows_at decode
  rows_at-all [] f = ([], refl)
  rows_at-all (v ∷ vs) f =
      let (row, g) = f v (inl refl) in
      let (body, r, p) = g in
      let (rows, q) = rows_at-all vs (λ w i. f w (inr i)) in (row ∷ rows, rw (r, p, q) refl)

  pub Gives-unique : (v : ℤ) (a b : DeltaCommitRow) → Gives v a → Gives v b → a ≡ b
  Gives-unique v a b (body, r, p) (body', r', p') =
      ground (arith, sym r ∙ r', p, p', ap text.from_slice (some_eq (sym r ∙ r')))
    where
      some_eq : {x y : Text} → some x ≡ some y → x ≡ y
      some_eq e = ground arith

  -- A row that a listed version gives is among the rows.
  pub Has-rows_at :
      (vs : List ℤ) (rows : List DeltaCommitRow) (v : ℤ) (row : DeltaCommitRow)
      → rows_at platform text table_id vs d ≡ ok rows
      → Has v vs
      → Gives v row
      → Has row rows
  Has-rows_at vs rows v row h i g =
      let (found, g', k) = rows_at-Gives vs rows v h i in
      subst (λ (x : DeltaCommitRow). Has x rows) (Gives-unique v found row g' g) k
