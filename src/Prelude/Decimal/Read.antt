-- ===== src/Prelude/Decimal/Read.antt =====
-- Reading padded digits back, whatever their number: the number that a text was written for is the
-- only one that it can be read as.
use Prim.Native.Nat.{ℕ, zero, suc, ◌+◌, ◌-◌, ◌*◌, ◌^◌, ◌<◌, ◌≤◌}
use mathlib.Core.Path.{◌≡◌, refl, sym, ap, ◌∙◌}
use mathlib.Core.List.{[], ◌∷◌, ◌++◌}
use mathlib.Core.Option.{some}
use native.Mathlib.Omega.{arith}
use native.Mathlib.Nat.{pow-suc}
use unity_catalog.Prelude.Lists.{length}
use unity_catalog.Prelude.Text.{Text}
use unity_catalog.Prelude.Decimal.{padded, decimal, zeros, parse_digits}
use unity_catalog.Prelude.Decimal.Fixed.{padded-fixed, parse_digits-fixed}

below_pow : (n : ℕ) → n < 10 ^ n
below_pow zero = omega arith
below_pow (suc n) = rw (pow-suc 10 n) (omega (arith, below_pow n))

fits : (n : ℕ) → n < 10 ^ suc n
fits n = rw (pow-suc 10 n) (omega (arith, below_pow n))

-- leading zeros are not seen
parse_digits-zeros :
    (bound k : ℕ) (s : Text)
    → 0 < bound
    → parse_digits bound 0 (zeros k ++ s) ≡ parse_digits bound 0 s
unfolding parse_digits
parse_digits-zeros bound zero s h = refl
parse_digits-zeros bound (suc k) s h = ground (arith, parse_digits-zeros bound k s)

pub parse_digits-padded : (bound w n : ℕ) → n < bound → parse_digits bound 0 (padded w n) ≡ some n
unfolding padded
parse_digits-padded bound w n h =
    parse_digits-zeros bound (w - length (decimal n)) (decimal n) (omega arith)
    ∙ sym (parse_digits-zeros bound (suc n - length (decimal n)) (decimal n) (omega arith))
    ∙ ap (parse_digits bound 0) (padded-fixed n n (fits n))
    ∙ parse_digits-fixed bound (suc n) n (fits n) h

-- A larger bound reads the same.
pub parse_digits_mono :
    (low high acc n : ℕ) (s : Text)
    → low ≤ high
    → parse_digits low acc s ≡ some n
    → parse_digits high acc s ≡ some n
unfolding parse_digits
parse_digits_mono low high acc n [] h e = e
parse_digits_mono low high acc n (c ∷ s) h e =
    ground (arith, parse_digits_mono low high (acc * 10 + (c - 48)) n s)

pub padded-injective : (w m n : ℕ) → padded w m ≡ padded w n → m ≡ n
padded-injective w m n h =
    let e : some m ≡ some n =
      sym (parse_digits-padded (suc (m + n)) w m (omega arith))
      ∙ ap (parse_digits (suc (m + n)) 0) h
      ∙ parse_digits-padded (suc (m + n)) w n (omega arith) in
    ground arith

pub parse_digits-padded_eq : (bound w n m : ℕ) → parse_digits bound 0 (padded w n) ≡ some m → m ≡ n
parse_digits-padded_eq bound w n m h =
    let e : some m ≡ some n =
      sym (parse_digits_mono bound (suc (bound + n)) 0 m (padded w n) (omega arith) h)
      ∙ parse_digits-padded (suc (bound + n)) w n (omega arith) in
    ground arith
