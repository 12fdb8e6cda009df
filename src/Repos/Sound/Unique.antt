-- ===== src/Repos/Sound/Unique.antt =====
-- The UNIQUE constraints under concurrent commits.
use unity_catalog.Prelude.{ℕ, ℤ, Option, some, ◌≡◌, arith}
use unity_catalog.Prelude.Text.{Text}
use unity_catalog.Models.{Uuid}
use unity_catalog.Store.Kind.{EntityKind}
use unity_catalog.Store.Platform.{Platform}
use unity_catalog.Store.Row.{Row}
use unity_catalog.Store.NaturalKey.{natural_key_for}
use unity_catalog.Store.Snapshot.{get}
use unity_catalog.Store.Log.Commit.{Actor, JsonLines}
use unity_catalog.Store.Protocol.{World, PointerText, commit}
use unity_catalog.Store.Protocol.History.{History}
use unity_catalog.Store.Protocol.Invariant.{IsWorld}
use unity_catalog.Store.Protocol.Arms.{IsRespectful}
use unity_catalog.Store.Protocol.Serial.{commit-IsSerial}
use unity_catalog.Repos.Requests.{Request, closure}
use unity_catalog.Repos.Sound.Requests.{closure-IsSound}

-- After a request of Request (which has neither `insert_columns`, `find_or_create_by_external_id` nor
-- `Property.replace`) is committed, whatever the other tasks and processes did meanwhile on the same history,
-- two entities of one kind in the snapshot whose rows have the same natural key are the same entity.
pub commit_unique :
    {Value : Type 0} {platform : Platform Value} (json : JsonLines platform)
    (pointers : PointerText) (now : ℕ → ℤ) (operation : Text) (actor : Option Actor)
    (others : ℕ → World → World) (request : Request) (w : World) (h : History Value)
    (k : EntityKind) (a b : Uuid) (r q : Row) (key : Text)
    → IsRespectful json pointers others
    → IsWorld json w h
    → get (commit json pointers now operation actor others (closure platform request) w).0.state k a
      ≡ some r
    → get (commit json pointers now operation actor others (closure platform request) w).0.state k b
      ≡ some q
    → natural_key_for platform r ≡ some key
    → natural_key_for platform q ≡ some key
    → a ≡ b
commit_unique {platform = platform} json pointers now operation actor others request w h k a b r q
      key respectful i ga gb na nb =
    let (h', p, (l, (past, p', at)), _) =
      commit-IsSerial json pointers now operation actor others (closure platform request)
        (closure-IsSound platform json pointers request) respectful w h i in
    let x = at.valid.indexed k a r key ga na in
    let y = at.valid.indexed k b q key gb nb in ground (arith, x, y)
