-- ===== src/Prelude/Decimal/Fixed.antt =====
-- Numbers that fit the padding: a fixed number of digits, which sort as the numbers do and read
-- back.
use Prim.Native.Nat.{ℕ, zero, suc, ◌+◌, ◌-◌, ◌*◌, ◌/◌, ◌%◌, ◌^◌, ◌<◌, ◌≤◌, compare}
use mathlib.Core.Path.{◌≡◌, refl, ap, sym, ◌∙◌}
use mathlib.Core.Logic.{inl, inr}
use mathlib.Core.Bool.{true}
use mathlib.Core.Option.{some}
use mathlib.Core.List.{[], ◌∷◌, ◌++◌}
use mathlib.Core.List.{append_assoc}
use native.Mathlib.Omega.{arith}
use native.Mathlib.Nat.{pow-suc}
use unity_catalog.Prelude.Tests.{ltb, Bool-cases}
use unity_catalog.Prelude.Lists.{length, length-append}
use unity_catalog.Prelude.Order.{bytes_cmp, and_then}
use unity_catalog.Prelude.Text.{Text}
use unity_catalog.Prelude.Decimal.{decimal_go, decimal, padded, pad, zeros, parse_digits}

-- the last `w` digits of `n`
unfoldable pub fixed : ℕ → ℕ → Text
fixed zero n = []
fixed (suc w) n = fixed w (n / 10) ++ (48 + n % 10) ∷ []

pub length-fixed : (w n : ℕ) → length (fixed w n) ≡ w
unfolding fixed
length-fixed zero n = refl
length-fixed (suc w) n =
    omega (arith, length-append (fixed w (n / 10)) ((48 + n % 10) ∷ []), length-fixed w (n / 10))

zeros-suc : (w : ℕ) → zeros w ++ 48 ∷ [] ≡ zeros (suc w)
zeros-suc zero = refl
zeros-suc (suc w) = rw (zeros-suc w)

fixed-zero : (w : ℕ) → fixed w 0 ≡ zeros w
unfolding fixed
fixed-zero zero = refl
fixed-zero (suc w) = rw (fixed-zero w) (zeros-suc w)

pad-append : (w : ℕ) (s : Text) (d : ℕ) → pad (suc w) (s ++ d ∷ []) ≡ pad w s ++ d ∷ []
pad-append w s d =
    let e : suc w - length (s ++ d ∷ []) ≡ w - length s = omega (arith, length-append s (d ∷ [])) in
    rw e (sym (append_assoc (zeros (w - length s)) s (d ∷ [])))

pow_bound : (w n : ℕ) → n < 10 ^ suc w → n / 10 < 10 ^ w
pow_bound w n h = let h' : n < 10 ^ w * 10 = rw (← pow-suc 10 w) h in omega arith

small_bound : (n : ℕ) → n < 10 ^ zero → n ≡ 0
small_bound n h = omega arith

-- Padding the digits of a number that fits is writing a fixed number of them.
pad-decimal_go :
    (w f n : ℕ) → n < f → n < 10 ^ suc w → pad (suc w) (decimal_go f n) ≡ fixed (suc w) n
unfolding decimal_go fixed
pad-decimal_go w zero n h b = elim h [ ]
pad-decimal_go zero (suc f) n h b =
    let small : ltb n 10 ≡ true = ground arith in
    let r : n % 10 ≡ n = omega arith in rw (small, r) refl
pad-decimal_go (suc w) (suc f) n h b = elim (Bool-cases (ltb n 10)) [
  | inl small ↦
      let q : n / 10 ≡ 0 = ground arith in
      let r : n % 10 ≡ n = ground arith in
      let l : suc (suc w) - 1 ≡ suc w = omega arith in
      rw (small, q, r, l) (ap (λ (t : Text). t ++ (48 + n) ∷ []) (sym (fixed-zero (suc w))))
  | inr large ↦
      let smaller : n / 10 < f = ground arith in
      rw large (
        rw pad-append (
          ap (λ (t : Text). t ++ (48 + n % 10) ∷ [])
            (pad-decimal_go w f (n / 10) smaller (pow_bound (suc w) n b))))
]

pub padded-fixed : (w n : ℕ) → n < 10 ^ suc w → padded (suc w) n ≡ fixed (suc w) n
unfolding padded decimal
padded-fixed w n b = pad-decimal_go w (suc n) n (omega arith) b

-- Texts of one length: the first difference decides.
bytes_cmp-append :
    (a b : Text) (x y : ℕ)
    → length a ≡ length b
    → bytes_cmp (a ++ x ∷ []) (b ++ y ∷ []) ≡ and_then (bytes_cmp a b) (compare x y)
bytes_cmp-append [] [] x y h = ground arith
bytes_cmp-append [] (d ∷ b) x y h = absurd (omega arith)
bytes_cmp-append (c ∷ a) [] x y h = absurd (omega arith)
bytes_cmp-append (c ∷ a) (d ∷ b) x y h = ground (arith, bytes_cmp-append a b x y (omega arith))

-- Fixed-width digits compare as the numbers do.
pub bytes_cmp-fixed :
    (w m n : ℕ) → m < 10 ^ w → n < 10 ^ w → bytes_cmp (fixed w m) (fixed w n) ≡ compare m n
unfolding fixed
bytes_cmp-fixed zero m n h k = ground arith
bytes_cmp-fixed (suc w) m n h k =
    let e : length (fixed w (m / 10)) ≡ length (fixed w (n / 10)) =
      omega (arith, length-fixed w (m / 10), length-fixed w (n / 10)) in
    let step =
      bytes_cmp-append (fixed w (m / 10)) (fixed w (n / 10)) (48 + m % 10) (48 + n % 10) e in
    let ih = bytes_cmp-fixed w (m / 10) (n / 10) (pow_bound w m h) (pow_bound w n k) in
    rw step (rw ih (digits_decide m n))
  where
    digits_decide :
        (m n : ℕ)
        → and_then (compare (m / 10) (n / 10)) (compare (48 + m % 10) (48 + n % 10)) ≡ compare m n
    digits_decide m n = ground arith

-- every byte is a digit
abbrev DigitByte : ℕ → Type 0
DigitByte c = (48 ≤ c) × (c ≤ 57)

parse_digits-append :
    (bound acc d : ℕ) (s : Text) (k : ℕ)
    → parse_digits bound acc s ≡ some k
    → d < 10
    → k * 10 + d < bound
    → parse_digits bound acc (s ++ (48 + d) ∷ []) ≡ some (k * 10 + d)
unfolding parse_digits
parse_digits-append bound acc d [] k h b c = ground arith
parse_digits-append bound acc d (x ∷ s) k h b c =
    ground (arith, parse_digits-append bound (acc * 10 + (x - 48)) d s k)

-- Reading fixed-width digits gives the number, if it is below the bound of the type.
pub parse_digits-fixed :
    (bound w n : ℕ) → n < 10 ^ w → n < bound → parse_digits bound 0 (fixed w n) ≡ some n
unfolding fixed parse_digits
parse_digits-fixed bound zero n h b = ground arith
parse_digits-fixed bound (suc w) n h b =
    let ih = parse_digits-fixed bound w (n / 10) (pow_bound w n h) (omega arith) in
    let e : n / 10 * 10 + n % 10 ≡ n = omega arith in
    let b' : n / 10 * 10 + n % 10 < bound = omega arith in
    parse_digits-append bound 0 (n % 10) (fixed w (n / 10)) (n / 10) ih (omega arith) b' ∙ ap some e
