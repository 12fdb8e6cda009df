-- ===== src/Tests/Tables.antt =====
-- A table is created, renamed and removed.
use unity_catalog.Prelude.{
  pos, none, some, [], ◌∷◌, ok, err, ◌≡◌, refl, arith, table_not_found, table_already_exists,
}
use unity_catalog.Prelude.Text.{bytes}
use unity_catalog.Prelude.HashMap
use unity_catalog.Prelude.BTreeMap
use unity_catalog.Models.{TableRow}
use unity_catalog.Store.Kind.{EntityKind}
use unity_catalog.Store.Row.{Row, row_of, from_body}
use unity_catalog.Store.NaturalKey.{natural_key_for, child_key}
use unity_catalog.Store.Action.{Action}
use unity_catalog.Store.Snapshot.{
  Snapshot, empty, get, get_by_natural_key, place, displace, apply, apply_all,
}
use unity_catalog.Repos.Build.{upsert_row, upsert_one, check_rename}
use unity_catalog.Repos.Table.{
  create, delete, rename, rename_at, named_at, table_of, get_by_id, get_by_schema_and_name,
}
use unity_catalog.Repos.Table.Names.{create-found, delete-missing, rename-found}
use unity_catalog.Tests.Instance.{platform}

abbrev pub events : TableRow
events = record {
  id = 5;
  schema_id = 3;
  name = bytes "events";
  type_ = bytes "MANAGED";
  owner = none;
  created_at = pos 1700;
  created_by = none;
  updated_at = none;
  updated_by = none;
  data_source_format = some (bytes "DELTA");
  comment = none;
  url = none;
  column_count = some (pos 2);
  view_definition = none;
  uniform_iceberg_metadata_location = none;
  uniform_iceberg_converted_delta_version = none;
  uniform_iceberg_converted_delta_timestamp = none;
}

abbrev pub with_events : Snapshot
with_events = place platform empty EntityKind.table 5 (Row.table events)

pub created :
    create platform events empty
    ≡ ok (Action.upsert EntityKind.table 5 (Row.table events) ∷ [], events)
unfolding create upsert_one upsert_row get_by_natural_key child_key row_of BTreeMap.get
created = refl

pub applied :
    apply_all platform empty (Action.upsert EntityKind.table 5 (Row.table events) ∷ [])
    ≡ ok with_events
unfolding apply_all apply from_body
applied = refl

create-found_example :
    (events ≡ events)
    × (get_by_id with_events 5 ≡ ok events)
    × (get_by_schema_and_name platform with_events 3 (bytes "events") ≡ ok events)
    × (create platform (record events { id = 6 }) with_events ≡ err table_already_exists)
create-found_example =
    create-found platform events (record events { id = 6 }) empty with_events
      (Action.upsert EntityKind.table 5 (Row.table events) ∷ []) events created applied refl refl

there : get with_events EntityKind.table 5 ≡ some (Row.table events)
unfolding get place HashMap.get HashMap.insert
there = refl

deleted : delete platform 5 with_events ≡ ok (Action.remove EntityKind.table 5 ∷ [], tt)
unfolding delete get place HashMap.get HashMap.insert
deleted = refl

removed :
    apply_all platform with_events (Action.remove EntityKind.table 5 ∷ [])
    ≡ ok (displace platform with_events EntityKind.table 5)
unfolding apply_all apply
removed = refl

delete-missing_example :
    (get_by_id (displace platform with_events EntityKind.table 5) 5 ≡ err table_not_found)
    × (get_by_schema_and_name platform
          (displace platform with_events EntityKind.table 5)
          3
          (bytes "events")
        ≡ err table_not_found)
    × (delete platform 5 (displace platform with_events EntityKind.table 5) ≡ err table_not_found)
delete-missing_example =
    delete-missing platform 5 with_events (displace platform with_events EntityKind.table 5)
      (Action.remove EntityKind.table 5 ∷ []) tt events there deleted removed

abbrev pub logs : TableRow
logs = named_at (bytes "logs") (pos 1800) events

abbrev with_logs : Snapshot
with_logs = place platform with_events EntityKind.table 5 (Row.table logs)

renamed :
    rename platform 5 (bytes "logs") (pos 1800) with_events
    ≡ ok (Action.upsert EntityKind.table 5 (Row.table logs) ∷ [], tt)
unfolding rename rename_at check_rename table_of upsert_one upsert_row get_by_natural_key child_key
    row_of BTreeMap.get get place HashMap.get HashMap.insert natural_key_for BTreeMap.insert
renamed = refl

stored :
    apply_all platform with_events (Action.upsert EntityKind.table 5 (Row.table logs) ∷ [])
    ≡ ok with_logs
unfolding apply_all apply from_body
stored = refl

rename-found_example :
    (get_by_schema_and_name platform with_logs 3 (bytes "logs") ≡ ok logs)
    × (get_by_schema_and_name platform with_logs 3 (bytes "events") ≡ err table_not_found)
rename-found_example =
    rename-found platform 5 (bytes "logs") (pos 1800) with_events with_logs
      (Action.upsert EntityKind.table 5 (Row.table logs) ∷ []) tt events there (ground arith)
      renamed stored
