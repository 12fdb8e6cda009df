-- ===== src/Tests/Locations.antt =====
-- Two external locations that cover one path.
use unity_catalog.Prelude.{none, some, [], ◌∷◌, ok, ◌≡◌, refl}
use unity_catalog.Prelude.Text.{bytes}
use unity_catalog.Prelude.HashMap
use unity_catalog.Models.{ExternalLocationRow}
use unity_catalog.Store.Kind.{EntityKind}
use unity_catalog.Store.Row.{Row}
use unity_catalog.Store.Snapshot.{Snapshot, empty, place}
use unity_catalog.Store.Snapshot.Scan.{iter}
use unity_catalog.Repos.ExternalLocation.{row_of, longest, find_by_path_prefix}
use unity_catalog.Repos.ExternalLocation.Prefix.{IsLongest, find_by_path_prefix-IsLongest}
use unity_catalog.Prelude.{Option}
use unity_catalog.Prelude.Text.{Text}
use unity_catalog.Models.{Uuid}
use unity_catalog.Tests.Instance.{platform}

abbrev location_at : Uuid → Text → ExternalLocationRow
location_at id url = record {
  id = id;
  name = url;
  url = url;
  comment = none;
  owner = none;
  credential_id = 1;
  created_at = none;
  created_by = none;
  updated_at = none;
  updated_by = none;
}

abbrev outer : ExternalLocationRow
outer = location_at 2 (bytes "s3://b")

abbrev inner : ExternalLocationRow
inner = location_at 3 (bytes "s3://b/t")

abbrev two_locations : Snapshot
two_locations =
    place platform
      (place platform empty EntityKind.external_location 2 (Row.external_location outer))
      EntityKind.external_location 3 (Row.external_location inner)

inner_found : find_by_path_prefix two_locations (bytes "s3://b/t/f") ≡ ok (some inner)
unfolding find_by_path_prefix iter row_of longest place HashMap.get HashMap.insert
inner_found = refl

find_by_path_prefix-IsLongest_example :
    (found : Option ExternalLocationRow) × (find_by_path_prefix two_locations (bytes "s3://b/t/f")
      ≡ ok found)
    × IsLongest (bytes "s3://b/t/f") (outer ∷ inner ∷ []) found
unfolding iter row_of place HashMap.get HashMap.insert
find_by_path_prefix-IsLongest_example =
    find_by_path_prefix-IsLongest two_locations (bytes "s3://b/t/f") (outer ∷ inner ∷ []) refl
