-- ===== src/Base64/Encoded.antt =====
-- Which characters an encoding is made of.
use servertech_chat.Prelude.{
  ℕ, IsByte, ◌<◌, ◌*◌, ◌^◌, bit_and, All, if◌then◌else◌, ◌≡◌, refl, Bool, true, false, Bytes, [],
  ◌∷◌, arith, all, all_below, all_below_sound,
}
use servertech_chat.Base64.Tables.{forward}
use servertech_chat.Base64.Bits.{sextet0_lem, sextet1_lem, sextet2_lem, sextet3_lem, and_03, and_0f}
use servertech_chat.Base64.{sextet0, sextet1, sextet2, sextet3, encode, base64_encode}

module _ (p : ℕ → Bool) (table : all_below 64 (λ v. p (forward v)) ≡ true)
    (equal_sign : p b'=' ≡ true) where
  in_alphabet : (v : ℕ) → v < 64 → p (forward v) ≡ true
  in_alphabet v h = all_below_sound 64 (λ x. p (forward x)) v table h

  encode_pads : (w : Bool) → all p (if w then b'=' ∷ b'=' ∷ [] else []) ≡ true
  encode_pads true = ground arith
  encode_pads false = refl

  -- A test that every character of the alphabet and the padding character pass is passed by the
  -- whole of an encoding.
  pub all-base64_encode :
      (bs : Bytes) (w : Bool) → All IsByte bs → all p (base64_encode bs w) ≡ true
  unfolding base64_encode encode
  all-base64_encode [] w h = refl
  all-base64_encode (a ∷ []) w (ha, _) = ground (
    arith,
    in_alphabet (sextet0 a) (omega (arith, sextet0_lem a ha)),
    in_alphabet (bit_and a 0x03 * 2 ^ 4) (omega (arith, and_03 a ha)),
  )
  all-base64_encode (a ∷ b ∷ []) w (ha, (hb, _)) = ground (
    arith,
    in_alphabet (sextet0 a) (omega (arith, sextet0_lem a ha)),
    in_alphabet (sextet1 a b) (omega (arith, sextet1_lem a b ha hb)),
    in_alphabet (bit_and b 0x0f * 2 ^ 2) (omega (arith, and_0f b hb)),
  )
  all-base64_encode (a ∷ b ∷ c ∷ rest) w (ha, (hb, (hc, h))) = ground (
    arith,
    in_alphabet (sextet0 a) (omega (arith, sextet0_lem a ha)),
    in_alphabet (sextet1 a b) (omega (arith, sextet1_lem a b ha hb)),
    in_alphabet (sextet2 b c) (omega (arith, sextet2_lem b c hb hc)),
    in_alphabet (sextet3 c) (omega (arith, sextet3_lem c hc)),
    all-base64_encode rest w h,
  )
