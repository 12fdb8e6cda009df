-- ===== src/Tests/Instance.antt =====
-- A platform to run the code on: a row is its own JSON value, and the text of a UUID is as long as
-- its number.
use unity_catalog.Prelude.{zero, suc, Option, none, some, [], ◌∷◌, All, ◌≡◌, ◌≢◌, refl, arith}
use unity_catalog.Prelude.Text.{Text}
use unity_catalog.Models.{Uuid}
use unity_catalog.Store.Kind.{EntityKind}
use unity_catalog.Store.Platform.{Platform, RowOf}
use unity_catalog.Store.Row.{Row, row_of}

abbrev pub read_row : (k : EntityKind) → Row → Option (RowOf k)
read_row EntityKind.metastore (Row.metastore r) = some r
read_row EntityKind.catalog (Row.catalog r) = some r
read_row EntityKind.schema (Row.schema r) = some r
read_row EntityKind.table (Row.table r) = some r
read_row EntityKind.column (Row.column r) = some r
read_row EntityKind.volume (Row.volume r) = some r
read_row EntityKind.function (Row.function r) = some r
read_row EntityKind.function_parameter (Row.function_parameter r) = some r
read_row EntityKind.registered_model (Row.registered_model r) = some r
read_row EntityKind.model_version (Row.model_version r) = some r
read_row EntityKind.staging_table (Row.staging_table r) = some r
read_row EntityKind.user (Row.user r) = some r
read_row EntityKind.credential (Row.credential r) = some r
read_row EntityKind.external_location (Row.external_location r) = some r
read_row EntityKind.property (Row.property r) = some r
read_row EntityKind.casbin_rule (Row.casbin_rule r) = some r
read_row _ _ = none

read_row-row_of : (k : EntityKind) (r : RowOf k) → read_row k (row_of k r) ≡ some r
unfolding row_of
read_row-row_of EntityKind.metastore r = refl
read_row-row_of EntityKind.catalog r = refl
read_row-row_of EntityKind.schema r = refl
read_row-row_of EntityKind.table r = refl
read_row-row_of EntityKind.column r = refl
read_row-row_of EntityKind.volume r = refl
read_row-row_of EntityKind.function r = refl
read_row-row_of EntityKind.function_parameter r = refl
read_row-row_of EntityKind.registered_model r = refl
read_row-row_of EntityKind.model_version r = refl
read_row-row_of EntityKind.staging_table r = refl
read_row-row_of EntityKind.user r = refl
read_row-row_of EntityKind.credential r = refl
read_row-row_of EntityKind.external_location r = refl
read_row-row_of EntityKind.property r = refl
read_row-row_of EntityKind.casbin_rule r = refl

pub read_row-eq :
    (k : EntityKind) (r : RowOf k) (v : Row) → some (row_of k r) ≡ some v → read_row k v ≡ some r
read_row-eq k r v h = let e : row_of k r ≡ v = ground arith in rw (← e) (read_row-row_of k r)

abbrev pub unary : Uuid → Text
unary zero = []
unary (suc n) = 97 ∷ unary n

pub unary-injective : (a b : Uuid) → unary a ≡ unary b → a ≡ b
unary-injective zero zero h = refl
unary-injective zero (suc b) h = cc
unary-injective (suc a) zero h = cc
unary-injective (suc a) (suc b) h = ground (arith, unary-injective a b)

pub unary-no_nul : (a : Uuid) → All (λ c. c ≢ 0) (unary a)
unary-no_nul zero = tt
unary-no_nul (suc a) = (ground arith, unary-no_nul a)

abbrev pub platform : Platform Row
platform = record {
  to_value = λ k r. some (row_of k r);
  from_value = read_row;
  from_value-to_value = read_row-eq;
  uuid_text = unary;
  uuid_text_injective = unary-injective;
  uuid_text_no_nul = unary-no_nul;
}
