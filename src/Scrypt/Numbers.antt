-- ===== src/Scrypt/Numbers.antt =====
-- std::from_chars for a std::uint64_t, in parts.
use servertech_chat.Prelude.{
  ℕ, ◌+◌, ◌*◌, ◌-◌, ◌&&◌, leb, Bytes, [], ◌∷◌, if◌then◌else◌, suc, zero, ◌/◌, ◌%◌, ◌^◌, ◌<◌, ◌≡◌,
  refl, arith, ◌++◌,
}
use servertech_chat.Prelude.Decimal.{digit, digits, print_uint}

-- The digits at the front, and the rest.
unfoldable pub digit_run : Bytes → Bytes × Bytes
digit_run [] = ([], [])
digit_run (c ∷ from) =
    let (ds, rest) = digit_run from in
    if leb b'0' c && leb c b'9' then (c ∷ ds, rest) else ([], c ∷ from)

unfoldable pub value_of : ℕ → Bytes → ℕ
value_of n [] = n
value_of n (d ∷ ds) = value_of (n * 10 + (d - b'0')) ds

value_of-append :
    (n : ℕ) (ds : Bytes) (d : ℕ) → value_of n (ds ++ d ∷ []) ≡ value_of n ds * 10 + (d - b'0')
unfolding value_of
value_of-append n [] d = refl
value_of-append n (x ∷ ds) d = value_of-append (n * 10 + (x - b'0')) ds d

value_of-digits : (fuel n : ℕ) → n < 10 ^ suc fuel → value_of 0 (digits fuel n) ≡ n
unfolding digits value_of
value_of-digits zero n h = omega arith
value_of-digits (suc fuel) n h = ground (
  arith,
  value_of-append 0 (digits fuel (n / 10)) (digit (n % 10)),
  value_of-digits fuel (n / 10),
)

-- A 64-bit number is the value of its decimal digits.
pub value_of-print_uint : (n : ℕ) → n < 10 ^ 20 → value_of 0 (print_uint n) ≡ n
unfolding print_uint
value_of-print_uint n h = value_of-digits 19 n h
