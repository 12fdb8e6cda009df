-- ===== src/Store/Keys/Versions.antt =====
-- The keys of commits name their versions, sort as the versions do, and are told apart from the
-- other objects of the log.
use Prim.Native.Nat.{compare}
use unity_catalog.Prelude.{
  ℕ, zero, suc, ◌+◌, ◌/◌, ◌%◌, ◌<◌, ◌^◌, ℤ, false, none, some, [], ◌∷◌, ◌++◌, length, ◌≡◌, refl,
  sym, ap, ◌∙◌, subst, ◌≤◌, arith,
}
use mathlib.Core.List.{reverse-append, append_assoc}
use unity_catalog.Prelude.Text.{
  Text, bytes, strip_prefix-append, strip_suffix-append, ends_with, ends_with-append, contains,
  contains-append,
}
use unity_catalog.Prelude.Order.{bytes_cmp, bytes_cmp_refl}
use unity_catalog.Prelude.Decimal.{padded, parse_u64, parse_nonempty, parse_digits}
use unity_catalog.Prelude.Decimal.Fixed.{
  fixed, padded-fixed, length-fixed, bytes_cmp-fixed, parse_digits-fixed,
}
use unity_catalog.Models.{Uuid}
use unity_catalog.Store.Platform.{Platform}
use unity_catalog.Store.Keys.{
  commit_key, checkpoint_key, version_from_key, delta_commit_key, log_prefix, partition_prefix,
  version_of_rest,
}

-- fixed-width digits hold no `/` and do not end in `.checkpoint`
pub contains-fixed : (w n : ℕ) → contains b'/' (fixed w n) ≡ false
unfolding fixed
contains-fixed zero n = refl
contains-fixed (suc w) n =
    contains-append b'/' (fixed w (n / 10)) ((48 + n % 10) ∷ [])
    ∙ ground (arith, contains-fixed w (n / 10))

ends_with-fixed : (w n : ℕ) → ends_with (bytes ".checkpoint") (fixed (suc w) n) ≡ false
unfolding fixed
ends_with-fixed w n = rw (reverse-append (fixed w (n / 10)) ((48 + n % 10) ∷ [])) (ground arith)

u64_fits : (n : ℕ) → n < 2 ^ 64 → n < 10 ^ 20
u64_fits n h = omega arith

padded-u64 : (n : ℕ) → n < 2 ^ 64 → padded 20 n ≡ fixed 20 n
padded-u64 n h = padded-fixed 19 n (u64_fits n h)

pub fixed-cons :
    (w n : ℕ) → (c : ℕ) × (rest : Text) × (fixed (suc w) n ≡ c ∷ rest) × (48 ≤ c) × (c ≤ 57)
unfolding fixed
fixed-cons zero n = (48 + n % 10, [], refl, omega arith, omega arith)
fixed-cons (suc w) n =
    let (c, rest, e, lo, hi) = fixed-cons w (n / 10) in
    (c, rest ++ ((48 + n % 10) ∷ []), ap (λ (t : Text). t ++ ((48 + n % 10) ∷ [])) e, lo, hi)

parse_u64-fixed : (n : ℕ) → n < 2 ^ 64 → parse_u64 (fixed 20 n) ≡ some n
unfolding parse_u64 parse_nonempty
parse_u64-fixed n h =
    let (c, rest, e, lo, hi) = fixed-cons 19 n in
    let read = parse_digits-fixed (2 ^ 64) 20 n (u64_fits n h) h in
    let read' : parse_digits (2 ^ 64) 0 (c ∷ rest) ≡ some n =
      subst (λ (s : Text). parse_digits (2 ^ 64) 0 s ≡ some n) e read in
    subst (λ (s : Text). parse_u64 s ≡ some n) (sym e) (ground arith)

-- Behind texts of one length, a common end does not matter.
bytes_cmp-same_suffix :
    (a b s : Text) → length a ≡ length b → bytes_cmp (a ++ s) (b ++ s) ≡ bytes_cmp a b
bytes_cmp-same_suffix [] [] s h = bytes_cmp_refl s
bytes_cmp-same_suffix [] (y ∷ b) s h = absurd (omega arith)
bytes_cmp-same_suffix (x ∷ a) [] s h = absurd (omega arith)
bytes_cmp-same_suffix (x ∷ a) (y ∷ b) s h =
    ground (arith, bytes_cmp-same_suffix a b s (omega arith))

-- The version of a commit key is read back, for every u64.
pub version_from_key-commit_key : (v : ℕ) → v < 2 ^ 64 → version_from_key (commit_key v) ≡ some v
unfolding version_from_key commit_key
version_from_key-commit_key v h = rw (padded-u64 v h) (
    ground (
      arith,
      strip_prefix-append log_prefix (fixed 20 v ++ bytes ".json"),
      contains-append b'/' (fixed 20 v) (bytes ".json"),
      contains-fixed 20 v,
      strip_suffix-append (fixed 20 v) (bytes ".json"),
      ends_with-fixed 19 v,
      parse_u64-fixed v h,
    ))

-- A checkpoint key is not read as a commit of any version.
pub version_from_key-checkpoint_key : (v : ℕ) → version_from_key (checkpoint_key v) ≡ none
unfolding version_from_key checkpoint_key
version_from_key-checkpoint_key v =
    let stem = padded 20 v ++ bytes ".checkpoint" in
    subst (λ (rest : Text). version_of_rest (some rest) ≡ none)
      (append_assoc (padded 20 v) (bytes ".checkpoint") (bytes ".json"))
      (ground (
        arith,
        strip_suffix-append stem (bytes ".json"),
        ends_with-append (padded 20 v) (bytes ".checkpoint"),
      ))

-- A commit key of a table partition is not read as a commit of the main log.
pub version_from_key-delta_commit_key :
    {Value : Type 0} (platform : Platform Value) (table_id : Uuid) (version : ℤ)
    → version_from_key (delta_commit_key platform table_id version) ≡ none
unfolding version_from_key delta_commit_key partition_prefix
version_from_key-delta_commit_key platform table_id version = refl

-- The keys of two u64 versions compare, byte by byte, as the versions do.
pub bytes_cmp-commit_key :
    (m n : ℕ) → m < 2 ^ 64 → n < 2 ^ 64 → bytes_cmp (commit_key m) (commit_key n) ≡ compare m n
unfolding commit_key
bytes_cmp-commit_key m n h k =
    rw (padded-u64 m h, padded-u64 n k)
      (bytes_cmp-same_suffix (fixed 20 m) (fixed 20 n) (bytes ".json")
          (length-fixed 20 m ∙ sym (length-fixed 20 n))
        ∙ bytes_cmp-fixed 20 m n (u64_fits m h) (u64_fits n k))
