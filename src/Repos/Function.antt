-- ===== src/Repos/Function.antt =====
-- crates/uc-db/src/repos/function.rs
pub mod Keeps
use unity_catalog.Prelude.{
  ℤ, pos, Bool, true, false, not, Option, none, some, List, [], ◌∷◌, Result, ok, err, internal,
  ok_or, ◌>>=◌, is_some, traverse, not_found, resource_already_exists, keep, leb_ℤ, ◌&&◌, ◌==◌,
  if◌then◌else◌,
}
use unity_catalog.Prelude.Text.{Text}
use unity_catalog.Pagination.{page, over_fetch}
use unity_catalog.Models.{Uuid, FunctionRow, FunctionParamRow}
use unity_catalog.Store.Kind.{EntityKind}
use unity_catalog.Store.Platform.{Platform}
use unity_catalog.Store.Row.{Row}
use unity_catalog.Store.NaturalKey.{child_key}
use unity_catalog.Store.Action.{Action}
use unity_catalog.Store.Snapshot.{Snapshot, get, get_by_natural_key}
use unity_catalog.Store.Snapshot.Scan.{iter, scan_prefix}
use unity_catalog.Repos.Build.{Build, writes, upsert_row, upsert_one, exists_key, removals}

unfoldable pub fn_of : Row → Result FunctionRow
fn_of (Row.function r) = ok r
fn_of _ = err internal

unfoldable pub param_of : Row → Result FunctionParamRow
param_of (Row.function_parameter r) = ok r
param_of _ = err internal

-- `sort_by_key(|p| p.ordinal_position)`, which keeps the order of equal keys
unfoldable pub insert_by_position : FunctionParamRow → List FunctionParamRow → List FunctionParamRow
insert_by_position p [] = p ∷ []
insert_by_position p (q ∷ qs) =
    let rest = insert_by_position p qs in
    if leb_ℤ p.ordinal_position q.ordinal_position then p ∷ q ∷ qs else q ∷ rest

unfoldable pub sort_by_position : List FunctionParamRow → List FunctionParamRow
unfolding insert_by_position
sort_by_position [] = []
sort_by_position (p ∷ ps) = insert_by_position p (sort_by_position ps)

-- `p.input_or_return == 0`
abbrev pub is_input : FunctionParamRow → Bool
is_input p = leb_ℤ p.input_or_return (pos 0) && leb_ℤ (pos 0) p.input_or_return

-- the input parameters and the return parameters
unfoldable pub get_params : Snapshot → Uuid → Result (List FunctionParamRow × List FunctionParamRow)
unfolding param_of sort_by_position
get_params snap function_id = traverse param_of (iter snap EntityKind.function_parameter) >>= λ all.
    let sorted = sort_by_position (keep (λ p. p.function_id == function_id) all) in
    ok (keep is_input sorted, keep (λ p. not (is_input p)) sorted)

-- the ids of the parameters of a function, in the order of the rows
unfoldable pub params_of : Uuid → List Row → Result (List Uuid)
unfolding param_of
params_of id [] = ok []
params_of id (row ∷ rows) = param_of row >>= λ param.
    params_of id rows >>= λ ids. ok (if param.function_id == id then param.id ∷ ids else ids)

module _ {Value : Type 0} (platform : Platform Value) where
  unfoldable pub get_by_schema_and_name : Snapshot → Uuid → Text → Result FunctionRow
  unfolding fn_of
  get_by_schema_and_name snap schema_id name =
      ok_or not_found
        (get_by_natural_key snap EntityKind.function (child_key platform schema_id name))
      >>= fn_of

  unfoldable pub list : Snapshot → Uuid → Option Text → ℤ → Result (List FunctionRow × Option Text)
  unfolding fn_of
  list snap schema_id page_token max_results = do
    rows ← traverse fn_of (
        scan_prefix snap EntityKind.function (child_key platform schema_id []) page_token
          (over_fetch max_results))
    ok (page rows max_results (λ r. r.name))

  unfoldable pub create : (row : FunctionRow) → Build Value FunctionRow
  create row snap =
      if exists_key snap EntityKind.function (child_key platform row.schema_id row.name)
      then err resource_already_exists
      else upsert_one platform EntityKind.function row.id row row

  unfoldable pub param_actions : List FunctionParamRow → Result (List (Action Value))
  param_actions [] = ok []
  param_actions (p ∷ ps) = upsert_row platform EntityKind.function_parameter p.id p >>= λ act.
      param_actions ps >>= λ acts. ok (act ∷ acts)

  unfoldable pub insert_params : List FunctionParamRow → Build Value Unit
  unfolding param_actions
  insert_params params snap = param_actions params >>= λ acts. writes acts tt

  -- the removal of the function and of its parameters
  abbrev pub drop : Uuid → List Uuid → Result {0} (List (Action Value) × Unit)
  drop id params =
      writes (Action.remove EntityKind.function id ∷ removals EntityKind.function_parameter params)
        tt

  unfoldable pub delete : Uuid → Build Value Unit
  unfolding params_of
  delete id snap =
      if is_some (get snap EntityKind.function id)
      then (params_of id (iter snap EntityKind.function_parameter) >>= drop id)
      else err not_found
