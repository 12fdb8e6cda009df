-- ===== src/Store/Keys/Tables.antt =====
-- The version of a Delta commit is read back from its key: `commit_key` and `version_from_key` of
-- crates/uc-db/src/store/delta_log.rs.
use unity_catalog.Prelude.{
  suc, ◌+◌, ◌<◌, ◌^◌, ◌==◌, ℤ, pos, negsuc, false, some, [], ◌∷◌, ◌++◌, ◌≡◌, refl, sym, ap, ◌∙◌,
  subst, arith, if◌then◌else◌,
}
use mathlib.Core.List.{append_assoc, append-nil}
use unity_catalog.Prelude.Text.{
  Text, bytes, strip_suffix, strip_suffix-append, contains, contains-append,
}
use unity_catalog.Prelude.Decimal.{padded_ℤ, parse_i64, parse_nonempty, parse_digits}
use unity_catalog.Prelude.Decimal.Fixed.{fixed, padded-fixed, parse_digits-fixed}
use unity_catalog.Models.{Uuid}
use unity_catalog.Store.Platform.{Platform}
use unity_catalog.Store.Keys.{
  last_segment, partition_prefix, delta_commit_key, delta_version_of_stem, delta_version_from_key,
}
use unity_catalog.Store.Keys.Versions.{contains-fixed, fixed-cons}

last_segment-slash : (segment a b : Text) → last_segment segment (a ++ b'/' ∷ b) ≡ last_segment [] b
unfolding last_segment
last_segment-slash segment [] b = refl
last_segment-slash segment (c ∷ a) b =
    last_segment-slash (if c == b'/' then [] else segment ++ (c ∷ [])) a b

last_segment-plain :
    (segment b : Text) → contains b'/' b ≡ false → last_segment segment b ≡ segment ++ b
unfolding last_segment
last_segment-plain segment [] h = sym (append-nil segment)
last_segment-plain segment (c ∷ b) h =
    let q : (c == b'/') ≡ false = ground arith in
    rw q
      (last_segment-plain (segment ++ (c ∷ [])) b (ground arith) ∙ append_assoc segment (c ∷ []) b)

-- the bounds of an i64
abbrev pub IsI64 : ℤ → Type 0
IsI64 (pos n) = n < 2 ^ 63
IsI64 (negsuc n) = n < 2 ^ 63

abbrev digits : ℤ → Text
digits (pos n) = fixed 20 n
digits (negsuc n) = b'-' ∷ fixed 19 (suc n)

padded_ℤ-digits : (v : ℤ) → IsI64 v → padded_ℤ 20 v ≡ digits v
unfolding padded_ℤ
padded_ℤ-digits (pos n) h = padded-fixed 19 n (omega arith)
padded_ℤ-digits (negsuc n) h = ap (λ (t : Text). b'-' ∷ t) (padded-fixed 18 (suc n) (omega arith))

parse_i64-digits : (v : ℤ) → IsI64 v → parse_i64 (digits v) ≡ some v
unfolding parse_i64 parse_nonempty
parse_i64-digits (pos n) h =
    let (c, rest, e, lo, hi) = fixed-cons 19 n in
    let read : parse_digits (2 ^ 63) 0 (c ∷ rest) ≡ some n =
      subst (λ (s : Text). parse_digits (2 ^ 63) 0 s ≡ some n) e
        (parse_digits-fixed (2 ^ 63) 20 n (omega arith) h) in
    subst (λ (s : Text). parse_i64 s ≡ some (pos n)) (sym e) (ground arith)
parse_i64-digits (negsuc n) h =
    let (c, rest, e, lo, hi) = fixed-cons 18 (suc n) in
    let read : parse_digits (2 ^ 63 + 1) 0 (c ∷ rest) ≡ some (suc n) =
      subst (λ (s : Text). parse_digits (2 ^ 63 + 1) 0 s ≡ some (suc n)) e
        (parse_digits-fixed (2 ^ 63 + 1) 19 (suc n) (omega arith) (omega arith)) in
    subst (λ (s : Text). parse_i64 (b'-' ∷ s) ≡ some (negsuc n)) (sym e) (ground arith)

contains-digits : (v : ℤ) → contains b'/' (digits v) ≡ false
contains-digits (pos n) = contains-fixed 20 n
contains-digits (negsuc n) = contains-fixed 19 (suc n)

-- The version of a Delta commit key is read back, for every i64 and every table.
pub delta_version_from_key-delta_commit_key :
    {Value : Type 0} (platform : Platform Value) (table_id : Uuid) (version : ℤ)
    → IsI64 version
    → delta_version_from_key (delta_commit_key platform table_id version) ≡ some version
unfolding delta_version_from_key
delta_version_from_key-delta_commit_key platform table_id version h =
    let whole : delta_commit_key platform table_id version
        ≡ (bytes "_uc_log/tables/" ++ platform.uuid_text table_id)
          ++ b'/' ∷ (digits version ++ bytes ".json") =
      unfold delta_commit_key in
      unfold partition_prefix in
      rw (padded_ℤ-digits version h) (
        append_assoc (bytes "_uc_log/tables/") (platform.uuid_text table_id ++ bytes "/") _
        ∙ ap (λ (t : Text). bytes "_uc_log/tables/" ++ t)
            (append_assoc (platform.uuid_text table_id) (bytes "/") _)
        ∙ sym (append_assoc (bytes "_uc_log/tables/") (platform.uuid_text table_id) _)) in
    let last : last_segment [] (delta_commit_key platform table_id version)
        ≡ digits version ++ bytes ".json" =
      ap (last_segment []) whole
      ∙ last_segment-slash [] (bytes "_uc_log/tables/" ++ platform.uuid_text table_id) _
      ∙ last_segment-plain [] (digits version ++ bytes ".json") (
          contains-append b'/' (digits version) (bytes ".json")
          ∙ rw (contains-digits version) refl) in
    ap (λ (s : Text). delta_version_of_stem (strip_suffix (bytes ".json") s)) last
    ∙ ap delta_version_of_stem (strip_suffix-append (digits version) (bytes ".json"))
    ∙ parse_i64-digits version h
