-- ===== src/Base64/Bits.antt =====
-- The masks and shifts of base64.cpp on one byte, as arithmetic; each is a table of at most 256
-- entries, checked by evaluation.
use servertech_chat.Prelude.{
  ℕ, ◌+◌, ◌*◌, ◌/◌, ◌%◌, ◌^◌, ◌<◌, ◌≡◌, refl, true, arith, ◌==◌, ==_iff, all_below, all_below_sound,
  bit_and,
}
use servertech_chat.Base64.{sextet0, sextet1, sextet2, sextet3}

module _ (f g : ℕ → ℕ) where
  agree : (n : ℕ) → all_below n (λ x. f x == g x) ≡ true → (x : ℕ) → x < n → f x ≡ g x
  agree n e x h = (==_iff _ _).0 (all_below_sound n (λ x. f x == g x) x e h)

pub and_fc : (a : ℕ) → a < 256 → bit_and a 0xfc / 2 ^ 2 ≡ a / 4
unfolding all_below
and_fc = agree (λ a. bit_and a 0xfc / 2 ^ 2) (λ a. a / 4) 256 refl

pub and_03 : (a : ℕ) → a < 256 → bit_and a 0x03 ≡ a % 4
unfolding all_below
and_03 = agree (λ a. bit_and a 0x03) (λ a. a % 4) 256 refl

pub and_f0 : (a : ℕ) → a < 256 → bit_and a 0xf0 / 2 ^ 4 ≡ a / 16
unfolding all_below
and_f0 = agree (λ a. bit_and a 0xf0 / 2 ^ 4) (λ a. a / 16) 256 refl

pub and_0f : (a : ℕ) → a < 256 → bit_and a 0x0f ≡ a % 16
unfolding all_below
and_0f = agree (λ a. bit_and a 0x0f) (λ a. a % 16) 256 refl

pub and_c0 : (a : ℕ) → a < 256 → bit_and a 0xc0 / 2 ^ 6 ≡ a / 64
unfolding all_below
and_c0 = agree (λ a. bit_and a 0xc0 / 2 ^ 6) (λ a. a / 64) 256 refl

pub and_3f : (a : ℕ) → a < 256 → bit_and a 0x3f ≡ a % 64
unfolding all_below
and_3f = agree (λ a. bit_and a 0x3f) (λ a. a % 64) 256 refl

pub and_30 : (a : ℕ) → a < 64 → bit_and a 0x30 / 2 ^ 4 ≡ a / 16
unfolding all_below
and_30 = agree (λ a. bit_and a 0x30 / 2 ^ 4) (λ a. a / 16) 64 refl

pub and_3c : (a : ℕ) → a < 64 → bit_and a 0x3c / 2 ^ 2 ≡ a / 4 % 16
unfolding all_below
and_3c = agree (λ a. bit_and a 0x3c / 2 ^ 2) (λ a. a / 4 % 16) 64 refl

-- The sextets in plain arithmetic.
pub sextet0_lem : (a : ℕ) → a < 256 → sextet0 a ≡ a / 4
sextet0_lem a h = and_fc a h

pub sextet1_lem : (a b : ℕ) → a < 256 → b < 256 → sextet1 a b ≡ a % 4 * 16 + b / 16
sextet1_lem a b ha hb = rw (and_03 a ha, and_f0 b hb)

pub sextet2_lem : (b c : ℕ) → b < 256 → c < 256 → sextet2 b c ≡ b % 16 * 4 + c / 64
sextet2_lem b c hb hc = rw (and_0f b hb, and_c0 c hc) (omega arith)

pub sextet3_lem : (c : ℕ) → c < 256 → sextet3 c ≡ c % 64
sextet3_lem c h = and_3f c h
