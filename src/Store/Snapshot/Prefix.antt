-- ===== src/Store/Snapshot/Prefix.antt =====
-- A range scan over the natural-key index misses nothing.
use Prim.Native.Nat.Ordering.{lt}
use unity_catalog.Prelude.{
  ℕ, true, false, ◌&&◌, Option, none, some, [], ◌∷◌, ◌++◌, length, take, drop, ◌≡◌, refl, ap, arith,
}
use unity_catalog.Prelude.Text.{Text, starts_with, starts_with→append}
use unity_catalog.Prelude.Order.{less, bytes_cmp, bytes_ord, pair_ord, nat_ord}
use unity_catalog.Prelude.BTreeMap
use unity_catalog.Prelude.BTreeMap.Segment.{keep_keys, IsSegment, keep_keys-range}
use unity_catalog.Store.Kind.{EntityKind, kind_ord}
use unity_catalog.Store.Snapshot.{Snapshot, Index}
use unity_catalog.Store.Snapshot.Scan.{
  scan_prefix, rows_at, is_after, is_under, is_after_in, or_empty,
}

bytes_cmp-append_left : (p a b : Text) → bytes_cmp (p ++ a) (p ++ b) ≡ bytes_cmp a b
bytes_cmp-append_left [] a b = refl
bytes_cmp-append_left (x ∷ p) a b = ground (arith, bytes_cmp-append_left p a b)

-- Between two texts with a prefix there are only texts with that prefix.
prefix_between :
    (p n a s : Text) → less n (p ++ a) ≡ false → bytes_cmp n (p ++ s) ≡ lt → starts_with p n ≡ true
prefix_between [] n a s h k = refl
prefix_between (x ∷ p) [] a s h k = cc
prefix_between (x ∷ p) (y ∷ n) a s h k = ground (arith, prefix_between p n a s)

after_start :
    (after : Option Text) (suffix : Text)
    → is_after after suffix ≡ true
    → less suffix (or_empty after) ≡ false
after_start none [] h = refl
after_start none (x ∷ s) h = refl
after_start (some a) suffix h = ground (arith, bytes_ord.gt_of_lt a suffix)

module _ (kind : EntityKind) (prefix : Text) (after : Option Text) where
  prefix-IsSegment :
      IsSegment (is_under kind prefix) (is_after_in prefix after) (kind, prefix ++ or_empty after)
  prefix-IsSegment = record {
    above = λ k h a. ground (
      arith,
      starts_with→append prefix k.1,
      bytes_cmp-append_left prefix (drop (length prefix) k.1) (or_empty after),
      after_start after (drop (length prefix) k.1),
    );
    convex = λ k j h n l. ground (
      arith,
      starts_with→append prefix j.1,
      prefix_between prefix k.1 (or_empty after) (drop (length prefix) j.1),
    );
  }

-- On a sorted index a scan under a prefix gives the rows of all the index entries that have the
-- kind, the prefix and a rest after the token, in key order, up to the limit.
pub scan_prefix_complete :
    (s : Snapshot) (kind : EntityKind) (prefix : Text) (after : Option Text) (limit : ℕ)
    → BTreeMap.IsSorted s.by_natural_key
    → scan_prefix s kind prefix after limit
      ≡ take limit (
          rows_at s kind (
            keep_keys
              (λ key. is_under kind prefix key && is_after_in prefix after key)
              s.by_natural_key))
unfolding scan_prefix
scan_prefix_complete s kind prefix after limit h =
    ap (λ (index : Index). take limit (rows_at s kind index))
      (keep_keys-range (is_under kind prefix) (is_after_in prefix after)
        (kind, prefix ++ or_empty after) (prefix-IsSegment kind prefix after) s.by_natural_key h)
