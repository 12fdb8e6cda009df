-- ===== src/Repos/User.antt =====
-- crates/uc-db/src/repos/user.rs
pub mod Keeps
pub mod Adopt
use unity_catalog.Prelude.{
  leb, keep, Bool, true, false, ℤ, Option, none, some, List, [], ◌∷◌, ◌++◌, Result, ok, err,
  internal, ok_or, ◌>>=◌, is_some, traverse, not_found, resource_already_exists, if◌then◌else◌,
}
use unity_catalog.Prelude.Text.{Text, bytes}
use unity_catalog.Prelude.Order.{eqb, bytes_ord}
use unity_catalog.Pagination.{page, over_fetch}
use unity_catalog.Models.{Uuid, UserRow}
use unity_catalog.Store.Kind.{EntityKind}
use unity_catalog.Store.Platform.{Platform}
use unity_catalog.Store.Row.{Row}
use unity_catalog.Store.NaturalKey.{child_key}
use unity_catalog.Store.Action.{Action}
use unity_catalog.Store.Snapshot.{Snapshot, get, get_by_natural_key}
use unity_catalog.Store.Snapshot.Scan.{scan, scan_prefix, iter}
use unity_catalog.Repos.Build.{
  Build, writes, upsert_one, coalesce, replaced, check_rename, exists_key,
}

unfoldable pub row_of : Row → Result UserRow
row_of (Row.user r) = ok r
row_of _ = err internal

unfoldable pub get_by_id : Snapshot → Uuid → Result UserRow
unfolding row_of
get_by_id snap id = ok_or not_found (get snap EntityKind.user id) >>= row_of

unfoldable pub get_by_name : Snapshot → Text → Result UserRow
unfolding row_of
get_by_name snap name = ok_or not_found (get_by_natural_key snap EntityKind.user name) >>= row_of

unfoldable pub list : Snapshot → Option Text → ℤ → Result (List UserRow × Option Text)
unfolding row_of
list snap page_token max_results = do
  rows ← traverse row_of (scan snap EntityKind.user page_token (over_fetch max_results))
  ok (page rows max_results (λ r. r.name))

-- `hits.sort_by_key(|u| u.id)` and the first: the first of the rows with the least id
unfoldable pub least_id : List UserRow → Option UserRow
least_id [] = none
least_id (row ∷ rows) = elim (least_id rows) [
  | none ↦ some row
  | some best ↦ if leb row.id best.id then some row else some best
]

unfoldable pub first_where : Snapshot → (UserRow → Bool) → Result (Option UserRow)
unfolding row_of least_id
first_where snap pred =
    traverse row_of (iter snap EntityKind.user) >>= λ rows. ok (least_id (keep pred rows))

-- `field.as_deref() == Some(wanted)`
abbrev pub is_text : Option Text → Text → Bool
is_text none wanted = false
is_text (some value) wanted = eqb value wanted

unfoldable pub get_by_email : Snapshot → Text → Result (Option UserRow)
unfolding first_where
get_by_email snap email = first_where snap (λ row. is_text row.email email)

unfoldable pub get_by_external_id : Snapshot → Text → Result (Option UserRow)
unfolding first_where
get_by_external_id snap external_id = first_where snap (λ row. is_text row.external_id external_id)

-- the fields that `update` writes over
abbrev pub patched :
    (email : Option Text) (state : Option Text) (updated_at : ℤ) (named : Text) → UserRow → UserRow
patched email state updated_at named found = record found {
  name = named;
  email = coalesce email found.email;
  state = coalesce state found.state;
  updated_at = some updated_at;
}

-- the user of an external id that is new
abbrev pub enabled : Uuid → Text → ℤ → UserRow
enabled fresh external_id now = record {
  id = fresh;
  name = external_id;
  email = none;
  external_id = some external_id;
  state = some (bytes "ENABLED");
  created_at = some now;
  updated_at = none;
  picture_url = none;
}

module _ {Value : Type 0} (platform : Platform Value) where
  unfoldable pub create :
      (id : Uuid) (name : Text) (email external_id : Option Text) (state : Text) (created_at : ℤ)
      → Build Value UserRow
  create id name email external_id state created_at snap =
      let row : UserRow = record {
        id = id;
        name = name;
        email = email;
        external_id = external_id;
        state = some state;
        created_at = some created_at;
        updated_at = none;
        picture_url = none;
      } in
      if exists_key snap EntityKind.user row.name
      then err resource_already_exists
      else upsert_one platform EntityKind.user id row row

  -- `fresh` is what `Uuid::now_v7()` gives. The row takes the external id as its name.
  unfoldable pub adopt_or_create :
      (fresh : Uuid) (external_id : Text) (now : ℤ)
      → Option UserRow
      → Result (List (Action Value) × UserRow)
  adopt_or_create fresh external_id now (some existing) = writes {Value = Value} [] existing
  adopt_or_create fresh external_id now none =
      let row = enabled fresh external_id now in upsert_one platform EntityKind.user fresh row row

  unfoldable pub find_or_create_by_external_id :
      (fresh : Uuid) (external_id : Text) (now : ℤ) → Build Value UserRow
  unfolding first_where adopt_or_create
  find_or_create_by_external_id fresh external_id now snap =
      first_where snap (λ row. is_text row.external_id external_id)
      >>= adopt_or_create fresh external_id now

  unfoldable pub update :
      (id : Uuid) (new_name : Option Text) (email : Option Text) (state : Option Text)
      (updated_at : ℤ)
      → Build Value UserRow
  unfolding row_of
  update id new_name email state updated_at snap = do
    current ← ok_or not_found (get snap EntityKind.user id)
    found ← row_of current
    named ←
        check_rename snap EntityKind.user (λ name. name) resource_already_exists found.name new_name
    let row = patched email state updated_at named found
    upsert_one platform EntityKind.user id row row

  unfoldable pub delete : Uuid → Build Value Unit
  delete id snap =
      if is_some (get snap EntityKind.user id)
      then writes (Action.remove EntityKind.user id ∷ []) tt
      else err not_found
