-- ===== src/Main/Port.antt =====
-- The port of the command line.
use servertech_chat.Prelude.{
  ℕ, zero, suc, ◌<◌, ◌%◌, ◌/◌, ◌^◌, ◌&&◌, lt→ltb, ◌==◌, leb, all, false, all-append, Bool, true,
  Bytes, [], ◌∷◌, some, ◌≡◌, refl, arith, ap, ◌∙◌,
}
use servertech_chat.Prelude.Decimal.{pos, digits, digit, print_uint}
use servertech_chat.Scrypt.Numbers.{digit_run, value_of, value_of-print_uint}
use servertech_chat.Main.{is_space, atoi, signed, converted, port_of}

abbrev is_digit : ℕ → Bool
is_digit c = leb b'0' c && leb c b'9'

all-digits : (fuel n : ℕ) → n < 10 ^ suc fuel → all is_digit (digits fuel n) ≡ true
unfolding digits
all-digits zero n h = ground arith
all-digits (suc fuel) n h = ground (
  arith,
  all-digits fuel (n / 10),
  all-append is_digit (digits fuel (n / 10)) (digit (n % 10) ∷ []),
)

digit_run-digits : (ds : Bytes) → all is_digit ds ≡ true → digit_run ds ≡ (ds, [])
unfolding digit_run
digit_run-digits [] h = refl
digit_run-digits (c ∷ ds) h = ground (arith, digit_run-digits ds)

digits_first :
    (c : ℕ)
    → is_digit c ≡ true
    → (is_space c ≡ false) × ((c == b'-') ≡ false) × ((c == b'+') ≡ false)
digits_first c d = ground (arith, d)

atoi-digits :
    (ds : Bytes)
    → all is_digit ds ≡ true
    → value_of 0 ds < 2 ^ 31
    → atoi ds ≡ some (pos (value_of 0 ds))
unfolding atoi signed
atoi-digits [] h k = unfold value_of in refl
atoi-digits (c ∷ ds) h k =
    let (space, minus, plus) = digits_first c (ground (arith, h)) in
    rw (space, minus, plus, digit_run-digits (c ∷ ds) h, lt→ltb (value_of 0 (c ∷ ds)) (2 ^ 31) k)
      refl

print_uint-digits : (n : ℕ) → n < 2 ^ 31 → all is_digit (print_uint n) ≡ true
unfolding print_uint
print_uint-digits n h = all-digits 19 n (omega (arith, h))

-- The decimal text of a number that fits an int gives that number modulo 65536 as the port: a port
-- in range is the one that is listened on, and a larger number silently gives another one.
pub port_of-print_uint : (n : ℕ) → n < 2 ^ 31 → port_of (print_uint n) ≡ some (n % 65536)
unfolding port_of
port_of-print_uint n h =
    let value = value_of-print_uint n (omega (arith, h)) in
    ap converted (atoi-digits (print_uint n) (print_uint-digits n h) (rw value h))
    ∙ ap (λ k. some (k % 65536)) value
