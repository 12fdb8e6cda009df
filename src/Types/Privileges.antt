-- ===== src/Types/Privileges.antt =====
-- What the privilege strings and the `g3` edges promise to the policy.
use unity_catalog.Prelude.{
  some, List, [], ◌∷◌, ◌≡◌, inl, inr, refl, sym, ap, arith, All, Bool-cases, ◌∙◌, ◌↔◌,
}
use unity_catalog.Prelude.Text.{Text}
use unity_catalog.Prelude.Order.{eqb, eqb→eq, bytes_ord}
use unity_catalog.Types.{Privilege, as_casbin_str, from_casbin_str, first_match, casbin_arms}

from_casbin_str-as_casbin_str : (p : Privilege) → from_casbin_str (as_casbin_str p) ≡ some p
unfolding from_casbin_str as_casbin_str
from_casbin_str-as_casbin_str Privilege.owner = refl
from_casbin_str-as_casbin_str Privilege.all_privileges = refl
from_casbin_str-as_casbin_str Privilege.create_catalog = refl
from_casbin_str-as_casbin_str Privilege.use_catalog = refl
from_casbin_str-as_casbin_str Privilege.create_schema = refl
from_casbin_str-as_casbin_str Privilege.use_schema = refl
from_casbin_str-as_casbin_str Privilege.create_table = refl
from_casbin_str-as_casbin_str Privilege.select = refl
from_casbin_str-as_casbin_str Privilege.modify = refl
from_casbin_str-as_casbin_str Privilege.create_function = refl
from_casbin_str-as_casbin_str Privilege.execute = refl
from_casbin_str-as_casbin_str Privilege.create_volume = refl
from_casbin_str-as_casbin_str Privilege.read_volume = refl
from_casbin_str-as_casbin_str Privilege.create_model = refl
from_casbin_str-as_casbin_str Privilege.create_external_location = refl
from_casbin_str-as_casbin_str Privilege.read_files = refl
from_casbin_str-as_casbin_str Privilege.write_files = refl
from_casbin_str-as_casbin_str Privilege.create_external_table = refl
from_casbin_str-as_casbin_str Privilege.create_external_volume = refl
from_casbin_str-as_casbin_str Privilege.create_managed_storage = refl
from_casbin_str-as_casbin_str Privilege.create_storage_credential = refl

first_match-sound :
    (P : Text → Privilege → Type 0) (arms : List (Text × Privilege)) (s : Text) (p : Privilege)
    → All (λ arm. P arm.0 arm.1) arms
    → first_match arms s ≡ some p
    → P s p
first_match-sound P [] s p a h = cc
first_match-sound P ((pattern, q) ∷ arms) s p a h = elim (Bool-cases (eqb pattern s)) [
  | inl e ↦
      let u : q ≡ p = ground arith in let w : pattern ≡ s = eqb→eq pattern s e in rw (← u, ← w) a.0
  | inr e ↦ first_match-sound P arms s p a.1 (ground arith)
]

arms_sound : All (λ (arm : Text × Privilege). as_casbin_str arm.1 ≡ arm.0) casbin_arms
unfolding casbin_arms as_casbin_str
arms_sound = (
  refl,
  (
    refl,
    (
      refl,
      (
        refl,
        (
          refl,
          (
            refl,
            (
              refl,
              (
                refl,
                (
                  refl,
                  (
                    refl,
                    (
                      refl,
                      (
                        refl,
                        (refl, (refl, (refl, (refl, (refl, (refl, (refl, (refl, (refl, tt))))))))),
                      ),
                    ),
                  ),
                ),
              ),
            ),
          ),
        ),
      ),
    ),
  ),
)

-- The string of a privilege determines it: parsing is exactly the inverse of printing, and every
-- other string is refused.
pub from_casbin_str_iff :
    (s : Text) (p : Privilege) → (from_casbin_str s ≡ some p) ↔ (as_casbin_str p ≡ s)
unfolding from_casbin_str
from_casbin_str_iff s p = (
  λ h. first_match-sound (λ t q. as_casbin_str q ≡ t) casbin_arms s p arms_sound h,
  λ e. ap from_casbin_str (sym e) ∙ from_casbin_str-as_casbin_str p,
)
