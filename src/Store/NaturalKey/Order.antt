-- ===== src/Store/NaturalKey/Order.antt =====
-- Column keys: the padded ordinal position of `pad_i64` sorts as the number does.
use Prim.Native.Nat.{compare}
use unity_catalog.Prelude.{ℕ, ◌+◌, ◌-◌, ◌^◌, ◌<◌, ℤ, pos, negsuc, pos_part, neg_part, ◌≡◌, arith}
use unity_catalog.Prelude.Order.{bytes_cmp}
use unity_catalog.Prelude.Decimal.{padded}
use unity_catalog.Prelude.Decimal.Fixed.{padded-fixed, bytes_cmp-fixed}
use unity_catalog.Store.NaturalKey.{pad_i64, i64_max}

bytes_cmp-padded :
    (m n : ℕ) → m < 10 ^ 19 → n < 10 ^ 19 → bytes_cmp (padded 19 m) (padded 19 n) ≡ compare m n
bytes_cmp-padded m n h k =
    rw (padded-fixed 18 m h, padded-fixed 18 n k) (bytes_cmp-fixed 19 m n h k)

-- the value of an `i64`
abbrev pub IsI64 : ℤ → Type 0
IsI64 (pos n) = n < 2 ^ 63
IsI64 (negsuc n) = n < 2 ^ 63

-- The texts of two `i64` compare, byte by byte, as the numbers do, negative ones included.
pub bytes_cmp-pad_i64 :
    (a b : ℤ)
    → IsI64 a
    → IsI64 b
    → bytes_cmp (pad_i64 a) (pad_i64 b)
      ≡ compare (pos_part a + neg_part b) (pos_part b + neg_part a)
unfolding pad_i64
bytes_cmp-pad_i64 (pos m) (pos n) h k = ground (arith, bytes_cmp-padded m n)
bytes_cmp-pad_i64 (pos m) (negsuc n) h k = ground arith
bytes_cmp-pad_i64 (negsuc m) (pos n) h k = ground arith
bytes_cmp-pad_i64 (negsuc m) (negsuc n) h k =
    ground (arith, bytes_cmp-padded (i64_max - m) (i64_max - n))
