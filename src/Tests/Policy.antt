-- ===== src/Tests/Policy.antt =====
-- A policy rule of one column behind an empty one.
use unity_catalog.Prelude.{◌≡◌, refl, [], ◌∷◌}
use unity_catalog.Prelude.Text.{bytes}
use unity_catalog.Models.{CasbinRule}
use unity_catalog.Models.Policy.{from_parts, to_policy}
use unity_catalog.Models.Policy.RoundTrip.{from_parts-to_policy}

abbrev alice : CasbinRule
alice = record {
  ptype = bytes "p";
  v0 = [];
  v1 = bytes "alice";
  v2 = [];
  v3 = [];
  v4 = [];
  v5 = [];
}

alice_policy : to_policy alice ≡ [] ∷ bytes "alice" ∷ []
unfolding to_policy
alice_policy = refl

from_parts-to_policy_example : from_parts alice.ptype (to_policy alice) ≡ alice
from_parts-to_policy_example = from_parts-to_policy alice
