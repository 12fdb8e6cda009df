-- ===== src/Tests/Requests.antt =====
-- A run of requests: a table, a second one of its name, which is refused, and a rename.
use unity_catalog.Prelude.{pos, ◌&&◌, some, List, [], ◌∷◌, take, ◌≡◌}
use unity_catalog.Prelude.Text.{bytes}
use unity_catalog.Prelude.BTreeMap.Segment.{keep_keys}
use unity_catalog.Store.Kind.{EntityKind}
use unity_catalog.Store.Row.{Row}
use unity_catalog.Store.NaturalKey.{child_key}
use unity_catalog.Store.Action.{Action}
use unity_catalog.Store.Snapshot.{empty}
use unity_catalog.Store.Snapshot.Coherent.{IsCoherent, empty-IsCoherent, apply_all-IsCoherent}
use unity_catalog.Store.Snapshot.Scan.{scan_prefix, rows_at, is_under, is_after_in}
use unity_catalog.Store.Snapshot.Prefix.{scan_prefix_complete}
use unity_catalog.Store.Valid.{IsValid, empty-IsValid}
use unity_catalog.Repos.Requests.{Request, run_requests}
use unity_catalog.Repos.Requests.Keeps.{run_requests-IsValid}
use unity_catalog.Tests.Instance.{platform}
use unity_catalog.Tests.Tables.{events, with_events, applied}

abbrev requests : List Request
requests =
    Request.create_table events
    ∷ Request.create_table (record events { id = 6 })
    ∷ Request.rename_table 5 (bytes "logs") (pos 1800)
    ∷ []

run_requests-IsValid_example : IsValid platform (run_requests platform requests empty)
run_requests-IsValid_example = run_requests-IsValid platform requests empty (empty-IsValid platform)

apply_all-IsCoherent_example : IsCoherent platform with_events
apply_all-IsCoherent_example =
    apply_all-IsCoherent platform (Action.upsert EntityKind.table 5 (Row.table events) ∷ []) empty
      with_events (empty-IsCoherent platform) applied

scan_prefix_complete_example :
    scan_prefix with_events EntityKind.table (child_key platform 3 []) (some (bytes "a")) 10
    ≡ take 10 (
        rows_at with_events EntityKind.table (
          keep_keys
            (λ key.
              is_under EntityKind.table (child_key platform 3 []) key
              && is_after_in (child_key platform 3 []) (some (bytes "a")) key)
            with_events.by_natural_key))
scan_prefix_complete_example =
    scan_prefix_complete with_events EntityKind.table (child_key platform 3 []) (some (bytes "a"))
      10
      (apply_all-IsCoherent platform (Action.upsert EntityKind.table 5 (Row.table events) ∷ [])
        empty with_events (empty-IsCoherent platform) applied).sorted
