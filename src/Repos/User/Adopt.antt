-- ===== src/Repos/User/Adopt.antt =====
-- `find_or_create_by_external_id` of crates/uc-db/src/repos/user.rs, which does not look the name up that
-- it writes: what it takes for the row to keep the snapshot's invariant.
use unity_catalog.Prelude.{
  ℤ, Option, none, some, List, ok, >>=-eq-ok, ◌≡◌, ◌⊎◌, refl, arith, inl, inr, sym, ◌∙◌,
}
use unity_catalog.Prelude.Text.{Text}
use unity_catalog.Models.{Uuid, UserRow}
use unity_catalog.Store.Kind.{EntityKind}
use unity_catalog.Store.Platform.{Platform}
use unity_catalog.Store.Row
use unity_catalog.Store.Row.{Row}
use unity_catalog.Store.NaturalKey.{natural_key_for}
use unity_catalog.Store.Action.{Action}
use unity_catalog.Store.Snapshot.{Snapshot, get_by_natural_key, apply_all}
use unity_catalog.Store.Valid.{IsValid, IsFree-of_none}
use unity_catalog.Repos.Build.{upsert_one-IsValid, nothing-IsValid}
use unity_catalog.Repos.User.{
  enabled, is_text, first_where, adopt_or_create, find_or_create_by_external_id,
}

-- a user has the external id, or no user has it as name
abbrev pub IsAdoptable : Snapshot → Text → Type 0
IsAdoptable s external_id =
    ((user : UserRow) × (first_where s (λ row. is_text row.external_id external_id)
        ≡ ok (some user)))
    ⊎ (get_by_natural_key s EntityKind.user external_id ≡ none)

module _ {Value : Type 0} (platform : Platform Value) where
  adopt_or_create-IsValid :
      (fresh : Uuid) (external_id : Text) (now : ℤ) (found : Option UserRow) (s t : Snapshot)
      (acts : List (Action Value)) (out : UserRow)
      → IsValid platform s
      → (((user : UserRow) × (found ≡ some user))
          ⊎ (get_by_natural_key s EntityKind.user external_id ≡ none))
      → adopt_or_create platform fresh external_id now found ≡ ok (acts, out)
      → apply_all platform s acts ≡ ok t
      → IsValid platform t
  unfolding adopt_or_create natural_key_for Row.row_of Row.row_id
  adopt_or_create-IsValid fresh external_id now (some user) s t acts out v f h e =
      nothing-IsValid platform s t v acts user out h e
  adopt_or_create-IsValid fresh external_id now none s t acts out v (inl (user, q)) h e =
      absurd (ground arith)
  adopt_or_create-IsValid fresh external_id now none s t acts out v (inr absent) h e =
      upsert_one-IsValid platform s t v EntityKind.user fresh _ acts _ out
        (IsFree-of_none platform s v EntityKind.user fresh
          (Row.user (enabled fresh external_id now)) external_id refl absent)
        (λ own q. ground arith) h e

  pub find_or_create-IsValid :
      (fresh : Uuid) (external_id : Text) (now : ℤ) (s t : Snapshot) (acts : List (Action Value))
      (out : UserRow)
      → IsValid platform s
      → IsAdoptable s external_id
      → find_or_create_by_external_id platform fresh external_id now s ≡ ok (acts, out)
      → apply_all platform s acts ≡ ok t
      → IsValid platform t
  unfolding find_or_create_by_external_id
  find_or_create-IsValid fresh external_id now s t acts out v f h e =
      let (found, q, h1) =
        >>=-eq-ok (first_where s (λ row. is_text row.external_id external_id)) _ h in
      adopt_or_create-IsValid fresh external_id now found s t acts out v (known f found q) h1 e
    where
      known :
          IsAdoptable s external_id
          → (found : Option UserRow)
          → first_where s (λ row. is_text row.external_id external_id) ≡ ok found
          → ((user : UserRow) × (found ≡ some user))
            ⊎ (get_by_natural_key s EntityKind.user external_id ≡ none)
      known (inl (user, p)) found q = inl (user, ok_eq (sym q ∙ p))
        where
          ok_eq : {x y : Option UserRow} → ok x ≡ ok y → x ≡ y
          ok_eq e = ground arith
      known (inr absent) found q = inr absent
