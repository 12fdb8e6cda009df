-- ===== src/Types/Hierarchy.antt =====
-- The implication order that the `g3` edges generate.
use unity_catalog.Prelude.{
  Bool, true, false, ◌&&◌, ◌||◌, not, List, [], ◌∷◌, ◌≡◌, ◌⊎◌, ◌↔◌, inl, inr, refl, sym, ap, ◌∙◌,
  arith, Bool-cases,
}
use unity_catalog.Prelude.Text.{Text}
use unity_catalog.Prelude.Order.{eqb, bytes_ord}
use unity_catalog.Types.{Privilege, as_casbin_str, specific, hierarchy_edges}

-- the pair is among the edges
unfoldable pub has_edge : Text → Text → List (Text × Text) → Bool
has_edge a b [] = false
has_edge a b (e ∷ edges) = (eqb e.0 a && eqb e.1 b) || has_edge a b edges

unfoldable pub is_edge : Privilege → Privilege → Bool
unfolding has_edge hierarchy_edges specific as_casbin_str
is_edge p q = has_edge (as_casbin_str p) (as_casbin_str q) hierarchy_edges

-- A grant of the first privilege satisfies a request for the second: a path of edges leads there.
pub data Implies : Privilege → Privilege → Type 0 where
  itself : (p : Privilege) → Implies p p
  step : (p q r : Privilege) → is_edge p q ≡ true → Implies q r → Implies p r

abbrev pub is_owner : Privilege → Bool
is_owner Privilege.owner = true
is_owner _ = false

abbrev is_umbrella : Privilege → Bool
is_umbrella Privilege.owner = true
is_umbrella Privilege.all_privileges = true
is_umbrella _ = false

-- where an edge starts, and that none leads to OWNER
edge_source :
    (p q : Privilege) → is_edge p q ≡ true → (p ≡ Privilege.owner) ⊎ (p ≡ Privilege.all_privileges)
unfolding is_edge
edge_source Privilege.owner q h = inl refl
edge_source Privilege.all_privileges q h = inr refl
edge_source Privilege.create_catalog q h = cc
edge_source Privilege.use_catalog q h = cc
edge_source Privilege.create_schema q h = cc
edge_source Privilege.use_schema q h = cc
edge_source Privilege.create_table q h = cc
edge_source Privilege.select q h = cc
edge_source Privilege.modify q h = cc
edge_source Privilege.create_function q h = cc
edge_source Privilege.execute q h = cc
edge_source Privilege.create_volume q h = cc
edge_source Privilege.read_volume q h = cc
edge_source Privilege.create_model q h = cc
edge_source Privilege.create_external_location q h = cc
edge_source Privilege.read_files q h = cc
edge_source Privilege.write_files q h = cc
edge_source Privilege.create_external_table q h = cc
edge_source Privilege.create_external_volume q h = cc
edge_source Privilege.create_managed_storage q h = cc
edge_source Privilege.create_storage_credential q h = cc

umbrella_edge : (q : Privilege) → is_edge Privilege.all_privileges q ≡ not (is_umbrella q)
unfolding is_edge
umbrella_edge Privilege.owner = refl
umbrella_edge Privilege.all_privileges = refl
umbrella_edge Privilege.create_catalog = refl
umbrella_edge Privilege.use_catalog = refl
umbrella_edge Privilege.create_schema = refl
umbrella_edge Privilege.use_schema = refl
umbrella_edge Privilege.create_table = refl
umbrella_edge Privilege.select = refl
umbrella_edge Privilege.modify = refl
umbrella_edge Privilege.create_function = refl
umbrella_edge Privilege.execute = refl
umbrella_edge Privilege.create_volume = refl
umbrella_edge Privilege.read_volume = refl
umbrella_edge Privilege.create_model = refl
umbrella_edge Privilege.create_external_location = refl
umbrella_edge Privilege.read_files = refl
umbrella_edge Privilege.write_files = refl
umbrella_edge Privilege.create_external_table = refl
umbrella_edge Privilege.create_external_volume = refl
umbrella_edge Privilege.create_managed_storage = refl
umbrella_edge Privilege.create_storage_credential = refl

-- What a grant of the first privilege covers.
abbrev pub Covers : Privilege → Privilege → Type 0
Covers p q =
    (p ≡ q) ⊎ ((p ≡ Privilege.owner) ⊎ ((p ≡ Privilege.all_privileges) × (is_owner q ≡ false)))

specific-is_owner : (q : Privilege) → is_umbrella q ≡ false → is_owner q ≡ false
specific-is_owner Privilege.owner h = cc
specific-is_owner Privilege.all_privileges h = refl
specific-is_owner _ h = refl

Covers-next :
    (m q : Privilege)
    → is_edge Privilege.all_privileges m ≡ true
    → Covers m q
    → Covers Privilege.all_privileges q
Covers-next m q e (inl s) =
    inr (inr (refl, ap is_owner (sym s) ∙ specific-is_owner m (ground (arith, umbrella_edge m))))
Covers-next m q e (inr (inl o)) = absurd (ground (arith, umbrella_edge m, ap is_umbrella o))
Covers-next m q e (inr (inr a)) = absurd (ground (arith, umbrella_edge m, ap is_umbrella a.0))

Covers-step : (p m q : Privilege) → is_edge p m ≡ true → Covers m q → Covers p q
Covers-step p m q e c = elim (edge_source p m e) [
  | inl o ↦ inr (inl o)
  | inr a ↦ rw a (Covers-next m q (ap (λ (x : Privilege). is_edge x m) (sym a) ∙ e) c)
]

Covers-of_Implies : (p q : Privilege) → Implies p q → Covers p q
Covers-of_Implies p q (Implies.itself _) = inl refl
Covers-of_Implies p q (Implies.step _ m _ e i) = Covers-step p m q e (Covers-of_Implies m q i)

owner_edge : is_edge Privilege.owner Privilege.all_privileges ≡ true
unfolding is_edge
owner_edge = refl

owner_only : (q : Privilege) → is_owner q ≡ true → q ≡ Privilege.owner
owner_only Privilege.owner h = refl
owner_only _ h = cc

umbrella_only :
    (q : Privilege) → is_umbrella q ≡ true → is_owner q ≡ false → q ≡ Privilege.all_privileges
umbrella_only Privilege.owner u h = cc
umbrella_only Privilege.all_privileges u h = refl
umbrella_only _ u h = cc

umbrella_Implies : (q : Privilege) → is_owner q ≡ false → Implies Privilege.all_privileges q
umbrella_Implies q h = elim (Bool-cases (is_umbrella q)) [
  | inl u ↦ rw (umbrella_only q u h) (Implies.itself Privilege.all_privileges)
  | inr n ↦
      Implies.step Privilege.all_privileges q q (umbrella_edge q ∙ ap not n) (Implies.itself q)
]

owner_Implies : (q : Privilege) → Implies Privilege.owner q
owner_Implies q = elim (Bool-cases (is_owner q)) [
  | inl o ↦ rw (owner_only q o) (Implies.itself Privilege.owner)
  | inr n ↦
      Implies.step Privilege.owner Privilege.all_privileges q owner_edge (umbrella_Implies q n)
]

Implies_of_Covers : (p q : Privilege) → Covers p q → Implies p q
Implies_of_Covers p q (inl s) = rw s (Implies.itself q)
Implies_of_Covers p q (inr (inl o)) = rw o (owner_Implies q)
Implies_of_Covers p q (inr (inr a)) = rw a.0 (umbrella_Implies q a.1)

-- A grant of one privilege implies exactly: itself; everything, if it is OWNER; and everything but
-- OWNER, if it is ALL_PRIVILEGES.
pub Implies-iff : (p q : Privilege) → Implies p q ↔ Covers p q
Implies-iff p q = (Covers-of_Implies p q, Implies_of_Covers p q)
