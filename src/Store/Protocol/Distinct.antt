-- ===== src/Store/Protocol/Distinct.antt =====
-- The objects of the main log have different keys.
use unity_catalog.Prelude.{
  ℕ, suc, ◌+◌, ◌-◌, ◌*◌, none, some, [], ◌∷◌, ◌++◌, ◌≡◌, refl, sym, ap, ◌∙◌, arith,
}
use mathlib.Core.List.{append_assoc}
use unity_catalog.Prelude.Text.{Text, bytes, strip_suffix, strip_suffix-append}
use unity_catalog.Prelude.Decimal.{padded, parse_digits}
use unity_catalog.Prelude.Decimal.Read.{parse_digits-padded}
use unity_catalog.Store.Keys.{
  commit_key, checkpoint_key, last_checkpoint_key, version_from_key, log_prefix,
}
use unity_catalog.Store.Keys.Distinct.{between_cancel}

parse_digits-dotted :
    (bound acc : ℕ) (s : Text) → parse_digits bound acc (s ++ bytes ".checkpoint") ≡ none
unfolding parse_digits
parse_digits-dotted bound acc [] = ground arith
parse_digits-dotted bound acc (c ∷ s) =
    ground (arith, parse_digits-dotted bound (acc * 10 + (c - 48)) s)

pub commit_key-checkpoint_key : (m n : ℕ) → commit_key m ≡ checkpoint_key n → ⊥
unfolding commit_key checkpoint_key
commit_key-checkpoint_key m n h =
    let e : padded 20 m ≡ padded 20 n ++ bytes ".checkpoint" =
      between_cancel log_prefix (bytes ".json") (padded 20 m) (padded 20 n ++ bytes ".checkpoint") (
        h
        ∙ ap (λ (s : Text). log_prefix ++ s)
            (sym (append_assoc (padded 20 n) (bytes ".checkpoint") (bytes ".json")))) in
    let q : some m ≡ none =
      sym (parse_digits-padded (suc m) 20 m (omega arith))
      ∙ ap (parse_digits (suc m) 0) e
      ∙ parse_digits-dotted (suc m) 0 (padded 20 n) in
    ground arith

json_key : (s : Text) → last_checkpoint_key ≡ log_prefix ++ (s ++ bytes ".json") → ⊥
json_key s h =
    let q : none ≡ some (log_prefix ++ s) =
      ap (strip_suffix (bytes ".json")) (h ∙ sym (append_assoc log_prefix s (bytes ".json")))
      ∙ strip_suffix-append (log_prefix ++ s) (bytes ".json") in
    ground arith

pub last_checkpoint_key-commit_key : (n : ℕ) → last_checkpoint_key ≡ commit_key n → ⊥
unfolding commit_key
last_checkpoint_key-commit_key n h = json_key (padded 20 n) h

pub last_checkpoint_key-checkpoint_key : (n : ℕ) → last_checkpoint_key ≡ checkpoint_key n → ⊥
unfolding checkpoint_key
last_checkpoint_key-checkpoint_key n h = json_key (padded 20 n ++ bytes ".checkpoint") (
    h
    ∙ ap (λ (s : Text). log_prefix ++ s)
        (sym (append_assoc (padded 20 n) (bytes ".checkpoint") (bytes ".json"))))

pub version_from_key-last : version_from_key last_checkpoint_key ≡ none
unfolding version_from_key
version_from_key-last = refl
