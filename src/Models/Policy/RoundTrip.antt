-- ===== src/Models/Policy/RoundTrip.antt =====
-- A policy that casbin is handed back is the rule that it was stored as.
use unity_catalog.Prelude.{
  ℕ, zero, suc, true, List, [], ◌∷◌, ◌++◌, All, ◌≡◌, refl, sym, ap, ◌∙◌, subst, inl, inr,
  Bool-cases,
}
use mathlib.Core.List.{reverse, reverse-append}
use unity_catalog.Prelude.Text.{Text}
use unity_catalog.Models.{CasbinRule}
use unity_catalog.Models.Policy.{column, from_parts, values, is_empty_text, skip_empty, to_policy}

abbrev AreEmpty : List Text → Type 0
AreEmpty vs = All (λ v. v ≡ []) vs

empty_text : (v : Text) → is_empty_text v ≡ true → v ≡ []
empty_text [] h = refl
empty_text (c ∷ s) h = cc

-- What is skipped is empty.
skip_empty-split : (vs : List Text) → (es : List Text) × AreEmpty es × (vs ≡ es ++ skip_empty vs)
unfolding skip_empty
skip_empty-split [] = ([], tt, refl)
skip_empty-split (v ∷ vs) = elim (Bool-cases (is_empty_text v)) [
  | inl e ↦
      let (es, a, q) = skip_empty-split vs in
      (v ∷ es, (empty_text v e, a), rw e (ap (λ (x : List Text). v ∷ x) q))
  | inr n ↦ ([], tt, rw n refl)
]

AreEmpty-append : (xs ys : List Text) → AreEmpty xs → AreEmpty ys → AreEmpty (xs ++ ys)
AreEmpty-append [] ys a b = b
AreEmpty-append (x ∷ xs) ys a b = (a.0, AreEmpty-append xs ys a.1 b)

AreEmpty-reverse : (es : List Text) → AreEmpty es → AreEmpty (reverse es)
AreEmpty-reverse [] a = tt
AreEmpty-reverse (e ∷ es) a =
    subst AreEmpty (sym (reverse-append (e ∷ []) es))
      (AreEmpty-append (reverse es) (e ∷ []) (AreEmpty-reverse es a.1) (a.0, tt))

column-empty : (n : ℕ) (es : List Text) → AreEmpty es → column n es ≡ []
unfolding column
column-empty n [] a = refl
column-empty zero (e ∷ es) a = a.0
column-empty (suc n) (e ∷ es) a = column-empty n es a.1

column-append : (n : ℕ) (vs es : List Text) → AreEmpty es → column n (vs ++ es) ≡ column n vs
unfolding column
column-append n [] es a = column-empty n es a
column-append zero (v ∷ vs) es a = refl
column-append (suc n) (v ∷ vs) es a = column-append n vs es a

column-to_policy : (r : CasbinRule) (n : ℕ) → column n (to_policy r) ≡ column n (values r)
unfolding to_policy
column-to_policy r n =
    let (es, a, q) = skip_empty-split (reverse (values r)) in
    let whole : values r ≡ reverse (skip_empty (reverse (values r))) ++ reverse es =
      ap reverse q ∙ reverse-append es (skip_empty (reverse (values r))) in
    sym (
      ap (column n) whole
      ∙ column-append n (reverse (skip_empty (reverse (values r)))) (reverse es)
          (AreEmpty-reverse es a))

-- A rule is built back from its type and the columns that casbin is given, for which its trailing empty
-- columns are dropped.
pub from_parts-to_policy : (r : CasbinRule) → from_parts r.ptype (to_policy r) ≡ r
unfolding from_parts
from_parts-to_policy r =
    rw
      (
        column-to_policy r 0,
        column-to_policy r 1,
        column-to_policy r 2,
        column-to_policy r 3,
        column-to_policy r 4,
        column-to_policy r 5,
      )
      (unfold column in refl)
