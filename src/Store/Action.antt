-- ===== src/Store/Action.antt =====
-- `Action` of crates/uc-db/src/store/action.rs.
use unity_catalog.Models.{Uuid}
use unity_catalog.Store.Kind.{EntityKind}

pub data Action (Value : Type 0) : Type 0 where
  upsert : EntityKind → Uuid → Value → Action Value
  remove : EntityKind → Uuid → Action Value
