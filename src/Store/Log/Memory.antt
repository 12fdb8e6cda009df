-- ===== src/Store/Log/Memory.antt =====
-- crates/uc-db/src/store/memory.rs: the object log in memory. The lock around the map is not
-- modelled, since every operation takes it for its whole body.
pub mod Contract
use unity_catalog.Prelude.{
  Bool, true, false, ◌&&◌, ℕ, Option, none, some, List, [], ◌∷◌, length, is_some, if◌then◌else◌,
}
use unity_catalog.Prelude.Text.{Text, starts_with}
use unity_catalog.Prelude.Order.{less, bytes_ord}
use unity_catalog.Prelude.BTreeMap
use unity_catalog.Prelude.BTreeMap.{BTreeMap}

pub data PutResult : Type 0 where
  created already_exists : PutResult

abbrev pub MemoryLog : Type 0
MemoryLog = BTreeMap Text Text

unfoldable pub put_if_absent : Text → Text → MemoryLog → MemoryLog × PutResult
put_if_absent key body o =
    if is_some (BTreeMap.get key o)
    then (o, PutResult.already_exists)
    else (BTreeMap.insert key body o, PutResult.created)

unfoldable pub get : Text → MemoryLog → Option Text
get key o = BTreeMap.get key o

unfoldable pub list_after : Text → Text → MemoryLog → List Text
list_after prefix start_after [] = []
list_after prefix start_after ((key, _) ∷ o) =
    let rest = list_after prefix start_after o in
    if starts_with prefix key && less start_after key then key ∷ rest else rest

unfoldable pub put : Text → Text → MemoryLog → MemoryLog
put key body o = BTreeMap.insert key body o

unfoldable pub remove : Text → MemoryLog → MemoryLog × Option Text
remove key o = (BTreeMap.remove key o, BTreeMap.get key o)

unfoldable pub len : MemoryLog → ℕ
len o = length o
