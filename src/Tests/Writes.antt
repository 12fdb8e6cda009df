-- ===== src/Tests/Writes.antt =====
-- A table, a column of it, and the same column again under another name.
use unity_catalog.Prelude.{
  ℕ, pos, true, none, some, List, [], ◌∷◌, ◌≡◌, refl, arith, sym, ap, ◌∙◌, subst,
}
use unity_catalog.Prelude.Text.{Text, bytes}
use unity_catalog.Prelude.HashMap
use unity_catalog.Prelude.BTreeMap
use unity_catalog.Prelude.Decimal.{padded}
use unity_catalog.Models.{ColumnRow}
use unity_catalog.Store.Kind.{EntityKind}
use unity_catalog.Store.Row.{Row, row_of, from_body}
use unity_catalog.Store.NaturalKey.{natural_key_for, child_key, pad_i64}
use unity_catalog.Store.Snapshot.{
  Snapshot, empty, get, get_by_natural_key, id_by_natural_key, place, apply, apply_all,
}
use unity_catalog.Store.Snapshot.Unique.{IsFree}
use unity_catalog.Repos.Build.{upsert_row, upsert_one}
use unity_catalog.Repos.Table.{create, insert_columns, column_actions}
use unity_catalog.Repos.Table.Columns.{AreFree}
use unity_catalog.Repos.Requests.{Request, silent, closure, committed}
use unity_catalog.Repos.Writes.{Write, build_of, run_write, run_writes, AllFit}
use unity_catalog.Repos.Writes.Keeps.{run_writes_unique}
use unity_catalog.Tests.Instance.{platform}
use unity_catalog.Tests.Tables.{events, with_events}

abbrev column : ColumnRow
column = record {
  id = 8;
  table_id = 5;
  name = bytes "day";
  ordinal_position = pos 0;
  type_text = bytes "int";
  type_json = [];
  type_name = bytes "INT";
  type_precision = none;
  type_scale = none;
  type_interval_type = none;
  nullable = true;
  comment = none;
  partition_index = none;
}

abbrev hour : ColumnRow
hour = record column { name = bytes "hour" }

abbrev position_key : Text
position_key = child_key platform 5 (pad_i64 (pos 0))

abbrev writes : List Write
writes =
    Write.request (Request.create_table events) ∷ Write.insert_columns (column ∷ hour ∷ []) ∷ []

table_made : with_events ≡ run_write platform (Write.request (Request.create_table events)) empty
unfolding run_write build_of committed closure silent create upsert_one upsert_row
    get_by_natural_key child_key row_of place HashMap.get HashMap.insert natural_key_for
    BTreeMap.get BTreeMap.insert apply_all apply from_body
table_made = refl

key_eq :
    (name key : Text)
    → natural_key_for platform (Row.column (record column { name = name })) ≡ some key
    → position_key ≡ key
unfolding natural_key_for
key_eq name key h = ground arith

position_free : id_by_natural_key with_events EntityKind.column position_key ≡ none
unfolding id_by_natural_key place BTreeMap.get BTreeMap.insert natural_key_for child_key HashMap.get
    get
position_free = refl

position_own :
    id_by_natural_key
      (place platform with_events EntityKind.column 8 (Row.column column))
      EntityKind.column
      position_key
    ≡ some 8
unfolding id_by_natural_key place BTreeMap.get BTreeMap.insert natural_key_for child_key HashMap.get
    HashMap.insert get pad_i64 padded
position_own = refl

day-IsFree : IsFree platform with_events EntityKind.column 8 (Row.column column)
day-IsFree key id n e =
    let q = key_eq (bytes "day") key n in
    absurd (ground (arith, position_free, ap (id_by_natural_key with_events EntityKind.column) q))

hour-IsFree :
    IsFree platform
      (place platform with_events EntityKind.column 8 (Row.column column))
      EntityKind.column
      8
      (Row.column hour)
hour-IsFree key id n e =
    let after = place platform with_events EntityKind.column 8 (Row.column column) in
    let q = key_eq (bytes "hour") key n in
    let r : some 8 ≡ some id =
      sym position_own ∙ ap (id_by_natural_key after EntityKind.column) q ∙ e in
    ground arith

they_fit : AllFit platform writes empty
they_fit =
    let columns : AreFree platform with_events (column ∷ hour ∷ []) =
      (day-IsFree, (hour-IsFree, tt)) in
    (tt, (subst (λ (s : Snapshot). AreFree platform s (column ∷ hour ∷ [])) table_made columns, tt))

one_column : get (run_writes platform writes empty) EntityKind.column 8 ≡ some (Row.column hour)
unfolding run_writes run_write build_of committed closure silent create insert_columns
    column_actions upsert_one upsert_row get_by_natural_key child_key row_of get place HashMap.get
    HashMap.insert natural_key_for BTreeMap.get BTreeMap.insert apply_all apply from_body
one_column = refl

abbrev eight : ℕ
eight = 8

run_writes_unique_example : eight ≡ 8
run_writes_unique_example =
    run_writes_unique platform writes EntityKind.column eight 8 (Row.column hour) (Row.column hour)
      position_key they_fit one_column one_column key_of_hour key_of_hour
  where
    key_of_hour : natural_key_for platform (Row.column hour) ≡ some position_key
    key_of_hour = unfold natural_key_for in refl
