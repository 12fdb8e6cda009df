-- ===== src/Store/Dump/Residents.antt =====
-- The rows that a checkpoint lists are the rows of the snapshot.
use unity_catalog.Prelude.{
  none, some, List, [], ◌∷◌, ◌++◌, map, All, ◌≡◌, refl, sym, ap, ◌∙◌, arith, Option-cases,
  Bool-cases, inl, inr,
}
use unity_catalog.Prelude.Order.{Ord, eqb, eqb→eq, nat_ord}
use unity_catalog.Prelude.HashMap
use unity_catalog.Prelude.HashMap.{HashMap}
use unity_catalog.Prelude.Sort.{Has, Has-sort, Has-append_left, Has-append_right, sort}
use unity_catalog.Models.{Uuid}
use unity_catalog.Store.Kind.{EntityKind, kind_ord}
use unity_catalog.Store.Row.{Row}
use unity_catalog.Store.Snapshot.{Snapshot, get}
use unity_catalog.Store.Dump.{rows_in_order, kinds_in_order, residents}
use unity_catalog.Store.Dump.Load.{Holds}

pub All-append :
    {A : Type 0} (P : A → Type 0) (xs ys : List A) → All P xs → All P ys → All P (xs ++ ys)
All-append P [] ys a b = b
All-append P (x ∷ xs) ys a b = (a.0, All-append P xs ys a.1 b)

pub All_at : {A : Type 0} (P : A → Type 0) (x : A) (xs : List A) → All P xs → Has x xs → P x
All_at P x [] a h = elim h [ ]
All_at P x (y ∷ xs) a (inl e) = rw e a.0
All_at P x (y ∷ xs) a (inr h) = All_at P x xs a.1 h

Has-keys :
    {K V : Type 0} ⦃o : Ord K⦄ (k : K) (v : V) (m : HashMap K V)
    → HashMap.get k m ≡ some v
    → Has k (map (λ entry. entry.0) m)
unfolding HashMap.get
Has-keys k v [] h = cc
Has-keys k v ((j, w) ∷ m) h = elim (Bool-cases (eqb j k)) [
  | inl e ↦ inl (sym (eqb→eq j k e))
  | inr n ↦ inr (Has-keys k v m (ground arith))
]

get_in :
    (s : Snapshot) (kind : EntityKind) (table : HashMap Uuid Row) (id : Uuid)
    → HashMap.get kind s.entities ≡ some table
    → get s kind id ≡ HashMap.get id table
unfolding get
get_in s kind table id h = ground arith

rows_without :
    (kind : EntityKind) (table : HashMap Uuid Row) (id : Uuid) (ids : List Uuid)
    → HashMap.get id table ≡ none
    → rows_in_order kind table (id ∷ ids) ≡ rows_in_order kind table ids
unfolding rows_in_order
rows_without kind table id ids e = rw (rows_in_order, e) refl

rows_with :
    (kind : EntityKind) (table : HashMap Uuid Row) (id : Uuid) (ids : List Uuid) (row : Row)
    → HashMap.get id table ≡ some row
    → rows_in_order kind table (id ∷ ids) ≡ (kind, (id, row)) ∷ rows_in_order kind table ids
unfolding rows_in_order
rows_with kind table id ids row e = rw (rows_in_order, e) refl

kinds_without :
    (s : Snapshot) (kind : EntityKind) (kinds : List EntityKind)
    → HashMap.get kind s.entities ≡ none
    → kinds_in_order s (kind ∷ kinds) ≡ kinds_in_order s kinds
unfolding kinds_in_order
kinds_without s kind kinds e = rw (kinds_in_order, e) refl

kinds_with :
    (s : Snapshot) (kind : EntityKind) (kinds : List EntityKind) (table : HashMap Uuid Row)
    → HashMap.get kind s.entities ≡ some table
    → kinds_in_order s (kind ∷ kinds)
      ≡ rows_in_order kind table (sort (map (λ entry. entry.0) table)) ++ kinds_in_order s kinds
unfolding kinds_in_order
kinds_with s kind kinds table e = rw (kinds_in_order, e) refl

rows_in_order-Holds :
    (s : Snapshot) (kind : EntityKind) (table : HashMap Uuid Row) (ids : List Uuid)
    → HashMap.get kind s.entities ≡ some table
    → All (Holds s) (rows_in_order kind table ids)
rows_in_order-Holds s kind table [] h = unfold rows_in_order in tt
rows_in_order-Holds s kind table (id ∷ ids) h =
    let rest = rows_in_order-Holds s kind table ids h in
    elim (Option-cases (HashMap.get id table)) [
      | inl e ↦ rw (rows_without kind table id ids e) rest
      | inr (row, e) ↦ rw (rows_with kind table id ids row e) (get_in s kind table id h ∙ e, rest)
    ]

kinds_in_order-Holds :
    (s : Snapshot) (kinds : List EntityKind) → All (Holds s) (kinds_in_order s kinds)
kinds_in_order-Holds s [] = unfold kinds_in_order in tt
kinds_in_order-Holds s (kind ∷ kinds) =
    let rest = kinds_in_order-Holds s kinds in
    elim (Option-cases (HashMap.get kind s.entities)) [
      | inl e ↦ rw (kinds_without s kind kinds e) rest
      | inr (table, e) ↦ rw (kinds_with s kind kinds table e) (
          All-append (Holds s) (rows_in_order kind table (sort (map (λ entry. entry.0) table)))
            (kinds_in_order s kinds)
            (rows_in_order-Holds s kind table (sort (map (λ entry. entry.0) table)) e) rest)
    ]

pub residents-Holds : (s : Snapshot) → All (Holds s) (residents s)
unfolding residents
residents-Holds s = kinds_in_order-Holds s (sort (map (λ entry. entry.0) s.entities))

Has-rows_in_order :
    (kind : EntityKind) (table : HashMap Uuid Row) (id : Uuid) (row : Row) (ids : List Uuid)
    → HashMap.get id table ≡ some row
    → Has id ids
    → Has (kind, (id, row)) (rows_in_order kind table ids)
Has-rows_in_order kind table id row [] h i = elim i [ ]
Has-rows_in_order kind table id row (j ∷ ids) h (inl e) =
    let g : HashMap.get j table ≡ some row = ap (λ (x : Uuid). HashMap.get x table) (sym e) ∙ h in
    rw (rows_with kind table j ids row g) (inl (ap (λ (x : Uuid). (kind, (x, row))) e))
Has-rows_in_order kind table id row (j ∷ ids) h (inr i) =
    let rest = Has-rows_in_order kind table id row ids h i in
    elim (Option-cases (HashMap.get j table)) [
      | inl e ↦ rw (rows_without kind table j ids e) rest
      | inr (other, e) ↦ rw (rows_with kind table j ids other e) (inr rest)
    ]

Has-kinds_in_order :
    (s : Snapshot) (kind : EntityKind) (table : HashMap Uuid Row) (id : Uuid) (row : Row)
    (kinds : List EntityKind)
    → HashMap.get kind s.entities ≡ some table
    → HashMap.get id table ≡ some row
    → Has kind kinds
    → Has (kind, (id, row)) (kinds_in_order s kinds)
Has-kinds_in_order s kind table id row [] g h i = elim i [ ]
Has-kinds_in_order s kind table id row (k ∷ kinds) g h (inl e) =
    let g' : HashMap.get k s.entities ≡ some table =
      ap (λ (x : EntityKind). HashMap.get x s.entities) (sym e) ∙ g in
    rw (kinds_with s k kinds table g') (
      Has-append_left (kind, (id, row))
        (rows_in_order k table (sort (map (λ entry. entry.0) table))) (kinds_in_order s kinds)
        (rw (← e) (
          Has-rows_in_order kind table id row (sort (map (λ entry. entry.0) table)) h
            (Has-sort id (map (λ entry. entry.0) table) (Has-keys id row table h)))))
Has-kinds_in_order s kind table id row (k ∷ kinds) g h (inr i) =
    let rest = Has-kinds_in_order s kind table id row kinds g h i in
    elim (Option-cases (HashMap.get k s.entities)) [
      | inl e ↦ rw (kinds_without s k kinds e) rest
      | inr (other, e) ↦ rw (kinds_with s k kinds other e) (
          Has-append_right (kind, (id, row))
            (rows_in_order k other (sort (map (λ entry. entry.0) other))) (kinds_in_order s kinds)
            rest)
    ]

-- Every row that the snapshot holds is listed.
pub Has-residents :
    (s : Snapshot) (kind : EntityKind) (id : Uuid) (row : Row)
    → get s kind id ≡ some row
    → Has (kind, (id, row)) (residents s)
unfolding residents get
Has-residents s kind id row h = elim (Option-cases (HashMap.get kind s.entities)) [
  | inl e ↦ absurd (ground arith)
  | inr (table, e) ↦
      Has-kinds_in_order s kind table id row (sort (map (λ entry. entry.0) s.entities)) e
        (ground arith)
        (Has-sort kind (map (λ entry. entry.0) s.entities) (Has-keys kind table s.entities e))
]
