-- ===== src/Store/Keys/Distinct.antt =====
-- Objects of different versions have different keys, and a commit key has no other version.
use unity_catalog.Prelude.{ℕ, suc, ◌^◌, some, [], ◌∷◌, ◌++◌, ◌≡◌, sym, ap, ◌∙◌, arith}
use unity_catalog.Prelude.Text.{
  Text, bytes, strip_prefix, strip_prefix-append, strip_suffix, strip_suffix-append,
}
use unity_catalog.Prelude.Decimal.{padded, parse_u64, parse_nonempty, parse_digits}
use unity_catalog.Prelude.Decimal.Read.{
  padded-injective, parse_digits-padded, parse_digits-padded_eq,
}
use unity_catalog.Store.Keys.{commit_key, checkpoint_key, version_from_key, log_prefix}

-- Between the same prefix and the same suffix stands the same text.
pub between_cancel : (p s a b : Text) → p ++ (a ++ s) ≡ p ++ (b ++ s) → a ≡ b
between_cancel p s a b h =
    let e : some (a ++ s) ≡ some (b ++ s) =
      sym (strip_prefix-append p (a ++ s))
      ∙ ap (strip_prefix p) h
      ∙ strip_prefix-append p (b ++ s) in
    let f : a ++ s ≡ b ++ s = ground arith in
    let g : some a ≡ some b =
      sym (strip_suffix-append a s) ∙ ap (strip_suffix s) f ∙ strip_suffix-append b s in
    ground arith

pub commit_key-injective : (m n : ℕ) → commit_key m ≡ commit_key n → m ≡ n
unfolding commit_key
commit_key-injective m n h =
    padded-injective 20 m n
      (between_cancel log_prefix (bytes ".json") (padded 20 m) (padded 20 n) h)

pub checkpoint_key-injective : (m n : ℕ) → checkpoint_key m ≡ checkpoint_key n → m ≡ n
unfolding checkpoint_key
checkpoint_key-injective m n h =
    padded-injective 20 m n
      (between_cancel log_prefix (bytes ".checkpoint.json") (padded 20 m) (padded 20 n) h)

-- What is read as a u64 and has digits is what its digits say: a text with a leading plus has none.
parse_u64-digits :
    (s : Text) (bound n m : ℕ)
    → parse_digits bound 0 s ≡ some n
    → parse_u64 s ≡ some m
    → parse_digits (2 ^ 64) 0 s ≡ some m
unfolding parse_u64 parse_nonempty parse_digits
parse_u64-digits [] bound n m d h = cc
parse_u64-digits (c ∷ s) bound n m d h = ground arith

pub version_from_key-commit_key_eq : (v m : ℕ) → version_from_key (commit_key v) ≡ some m → m ≡ v
unfolding version_from_key commit_key
version_from_key-commit_key_eq v m h =
    let read : parse_u64 (padded 20 v) ≡ some m = ground (
      arith,
      strip_prefix-append log_prefix (padded 20 v ++ bytes ".json"),
      strip_suffix-append (padded 20 v) (bytes ".json"),
    ) in
    parse_digits-padded_eq (2 ^ 64) 20 v m (
      parse_u64-digits (padded 20 v) (suc v) v m (parse_digits-padded (suc v) 20 v (omega arith))
        read)
