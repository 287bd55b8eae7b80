-- ===== src/Prelude/Decimal.antt =====
-- Signed integers, and decimal text: std::to_string, and `<<` of an integer.
use Prim.Native.Nat.{ℕ, zero, suc, ◌+◌, ◌*◌, ◌/◌, ◌%◌, ◌^◌, ◌≤◌}
use mathlib.Core.Path.{◌≡◌, refl}
use native.Mathlib.Omega.{arith}
use mathlib.Core.Bool.{true}
use mathlib.Core.List.{[], ◌∷◌, ◌++◌}
use mathlib.Core.Bool.{Bool}
use servertech_chat.Prelude.Tests.{Bytes, ltb, if◌then◌else◌}

-- `negsuc n` is -(n + 1).
pub data ℤ : Type 0 where
  pos : ℕ → ℤ
  negsuc : ℕ → ℤ

abbrev pub digit : ℕ → ℕ
digit d = b'0' + d

-- The decimal digits of a number below 10 ^ (fuel + 1), without leading zeros.
unfoldable pub digits : ℕ → ℕ → Bytes
digits zero n = digit (n % 10) ∷ []
digits (suc fuel) n =
    let rest = digits fuel (n / 10) in
    if ltb n 10 then digit n ∷ [] else rest ++ digit (n % 10) ∷ []

-- A 64-bit number has at most twenty digits.
unfoldable pub print_uint : ℕ → Bytes
unfolding digits
print_uint n = digits 19 n

unfoldable pub print_int : ℤ → Bytes
unfolding print_uint
print_int (pos n) = print_uint n
print_int (negsuc n) = b'-' ∷ print_uint (suc n)

-- The integer -n.
abbrev pub neg : ℕ → ℤ
neg zero = pos zero
neg (suc n) = negsuc n

abbrev pub abs : ℤ → ℕ
abs (pos n) = n
abs (negsuc n) = suc n

-- Multiplication by a positive number, and division by one, which rounds towards zero.
abbrev pub scale : ℤ → ℕ → ℤ
scale (pos n) k = pos (n * k)
scale (negsuc n) k = neg (suc n * k)

abbrev pub div_trunc : ℤ → ℕ → ℤ
div_trunc (pos n) k = pos (n / k)
div_trunc (negsuc n) k = neg (suc n / k)

-- The values of a std::int64_t.
abbrev pub fits_int64 : ℤ → Bool
fits_int64 (pos n) = ltb n (2 ^ 63)
fits_int64 (negsuc n) = ltb n (2 ^ 63)

pub abs-neg : (n : ℕ) → abs (neg n) ≡ n
abs-neg zero = refl
abs-neg (suc n) = refl

pub scale-neg : (n k : ℕ) → scale (neg n) k ≡ neg (n * k)
scale-neg zero k = ground arith
scale-neg (suc n) k = refl

pub div_trunc-neg : (n k : ℕ) → div_trunc (neg n) k ≡ neg (n / k)
div_trunc-neg zero k = ground arith
div_trunc-neg (suc n) k = refl

pub fits_int64-neg : (n : ℕ) → n ≤ 2 ^ 63 → fits_int64 (neg n) ≡ true
fits_int64-neg zero h = refl
fits_int64-neg (suc n) h = ground arith
