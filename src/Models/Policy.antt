-- ===== src/Models/Policy.antt =====
-- `CasbinRule` of crates/uc-db/src/models/casbin.rs: to and from casbin's list of columns.
pub mod RoundTrip
use unity_catalog.Prelude.{ℕ, zero, suc, Bool, true, false, List, [], ◌∷◌, if◌then◌else◌}
use mathlib.Core.List.{reverse}
use unity_catalog.Prelude.Text.{Text}
use unity_catalog.Models.{CasbinRule}

-- `v.next().unwrap_or_default()` of an iterator that goes on with empty texts
unfoldable pub column : ℕ → List Text → Text
column n [] = []
column zero (v ∷ vs) = v
column (suc n) (v ∷ vs) = column n vs

unfoldable pub from_parts : Text → List Text → CasbinRule
unfolding column
from_parts ptype rule = record {
  ptype = ptype;
  v0 = column 0 rule;
  v1 = column 1 rule;
  v2 = column 2 rule;
  v3 = column 3 rule;
  v4 = column 4 rule;
  v5 = column 5 rule;
}

abbrev pub values : CasbinRule → List Text
values r = r.v0 ∷ r.v1 ∷ r.v2 ∷ r.v3 ∷ r.v4 ∷ r.v5 ∷ []

abbrev pub is_empty_text : Text → Bool
is_empty_text [] = true
is_empty_text (c ∷ s) = false

-- `skip_while(|s| s.is_empty())`
unfoldable pub skip_empty : List Text → List Text
skip_empty [] = []
skip_empty (v ∷ vs) = let rest = skip_empty vs in if is_empty_text v then rest else v ∷ vs

-- trailing empty columns dropped
unfoldable pub to_policy : CasbinRule → List Text
unfolding skip_empty
to_policy r = reverse (skip_empty (reverse (values r)))
