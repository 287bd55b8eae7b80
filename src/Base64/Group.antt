-- ===== src/Base64/Group.antt =====
-- The groups of four characters, encoded and decoded.
use servertech_chat.Prelude.{
  ℕ, ◌+◌, ◌*◌, ◌/◌, ◌%◌, ◌^◌, ◌<◌, ◌≡◌, refl, ◌∙◌, Bool, true, false, Bytes, [], ◌∷◌, ◌++◌, arith,
  ◌==◌, IsByte, bit_and, all_below, all_below_sound, not,
}
use servertech_chat.Base64.Tables.{forward, inverse-forward}
use servertech_chat.Base64.Bits.{
  and_03, and_0f, and_30, and_3c, sextet0_lem, sextet1_lem, sextet2_lem, sextet3_lem,
}
use servertech_chat.Base64.{
  sextet0, sextet1, sextet2, sextet3, encode, C4, c4_set, c3_of, decode_loop,
}

-- No character of the alphabet is the padding character.
forward_table : all_below 64 (λ v. not (forward v == b'=')) ≡ true
unfolding all_below forward
forward_table = refl

forward_ne_padding : (v : ℕ) → v < 64 → (forward v == b'=') ≡ false
forward_ne_padding v h =
    ground (arith, all_below_sound 64 (λ x. not (forward x == b'=')) v forward_table h)

-- One round of the loop on a character of the alphabet.
pub decode_loop-forward :
    (v : ℕ) (src : Bytes) (c4 : C4) (i : ℕ) (out : Bytes)
    → v < 64
    → i < 3
    → decode_loop (forward v ∷ src) c4 i out ≡ decode_loop src (c4_set c4 i v) (i + 1) out
unfolding decode_loop
decode_loop-forward v src c4 i out h hi =
    ground (arith, forward_ne_padding v h, inverse-forward v h)

pub decode_loop-forward_last :
    (v : ℕ) (src : Bytes) (c4 : C4) (i : ℕ) (out : Bytes)
    → v < 64
    → i ≡ 3
    → decode_loop (forward v ∷ src) c4 i out
      ≡ decode_loop src (c4_set c4 3 v) 0 (out ++ c3_of (c4_set c4 3 v))
unfolding decode_loop
decode_loop-forward_last v src c4 i out h hi =
    ground (arith, forward_ne_padding v h, inverse-forward v h)

abbrev pub quad : ℕ → ℕ → ℕ → ℕ → C4
quad v w x y = record { at0 = v; at1 = w; at2 = x; at3 = y }

-- Four characters of the alphabet make a group.
decode_loop-quad :
    (v w x y : ℕ) (src : Bytes) (q : C4) (out : Bytes)
    → v < 64
    → w < 64
    → x < 64
    → y < 64
    → decode_loop (forward v ∷ forward w ∷ forward x ∷ forward y ∷ src) q 0 out
      ≡ decode_loop src (quad v w x y) 0 (out ++ c3_of (quad v w x y))
decode_loop-quad v w x y src q out hv hw hx hy =
    decode_loop-forward v _ q 0 out hv (omega arith)
    ∙ decode_loop-forward w _ _ 1 out hw (omega arith)
    ∙ decode_loop-forward x _ _ 2 out hx (omega arith)
    ∙ decode_loop-forward_last y src _ 3 out hy refl

-- The three bytes of c3, in plain arithmetic.
pub first_byte :
    (v w : ℕ) → v < 64 → w < 64 → (v * 2 ^ 2 + bit_and w 0x30 / 2 ^ 4) % 256 ≡ v * 4 + w / 16
first_byte v w hv hw = rw (and_30 w hw) (omega arith)

pub second_byte :
    (w x : ℕ)
    → w < 64
    → x < 64
    → (bit_and w 0xf * 2 ^ 4 + bit_and x 0x3c / 2 ^ 2) % 256 ≡ w % 16 * 16 + x / 4
second_byte w x hw hx = rw (and_0f w (omega arith), and_3c x hx) (omega arith)

third_byte : (x y : ℕ) → x < 64 → y < 64 → (bit_and x 0x3 * 2 ^ 6 + y) % 256 ≡ x % 4 * 64 + y
third_byte x y hx hy = rw (and_03 x (omega arith)) (omega arith)

module _ (a b c : ℕ) (ha : IsByte a) (hb : IsByte b) (hc : IsByte c) where
  c3_of_sextets : c3_of (quad (sextet0 a) (sextet1 a b) (sextet2 b c) (sextet3 c)) ≡ a ∷ b ∷ c ∷ []
  c3_of_sextets =
      rw (sextet0_lem a ha, sextet1_lem a b ha hb, sextet2_lem b c hb hc, sextet3_lem c hc)
        (ground (
          arith,
          first_byte (a / 4) (a % 4 * 16 + b / 16),
          second_byte (a % 4 * 16 + b / 16) (b % 16 * 4 + c / 64),
          third_byte (b % 16 * 4 + c / 64) (c % 64),
        ))

  -- A whole group is decoded to its three bytes.
  pub decode_loop-group :
      (src : Bytes) (q : C4) (out : Bytes)
      → (r : C4) × (decode_loop
            (forward (sextet0 a)
              ∷ forward (sextet1 a b)
              ∷ forward (sextet2 b c)
              ∷ forward (sextet3 c)
              ∷ src)
            q
            0
            out
          ≡ decode_loop src r 0 (out ++ a ∷ b ∷ c ∷ []))
  decode_loop-group src q out = (
    quad (sextet0 a) (sextet1 a b) (sextet2 b c) (sextet3 c),
    rw (← c3_of_sextets) (
        decode_loop-quad _ _ _ _ src q out (omega (arith, sextet0_lem a ha))
          (omega (arith, sextet1_lem a b ha hb)) (omega (arith, sextet2_lem b c hb hc))
          (omega (arith, sextet3_lem c hc))),
  )

pub encode-three :
    (a b c : ℕ) (rest : Bytes) (p : Bool)
    → encode (a ∷ b ∷ c ∷ rest) p
      ≡ forward (sextet0 a)
        ∷ forward (sextet1 a b)
        ∷ forward (sextet2 b c)
        ∷ forward (sextet3 c)
        ∷ encode rest p
unfolding encode
encode-three a b c rest p = refl
