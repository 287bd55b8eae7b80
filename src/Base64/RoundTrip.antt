-- ===== src/Base64/RoundTrip.antt =====
-- Decoding what was encoded.
use servertech_chat.Prelude.{
  ℕ, suc, ◌+◌, ◌*◌, ◌/◌, ◌%◌, ◌^◌, ◌≡◌, refl, sym, ◌∙◌, Bool, true, false, Bytes, [], ◌∷◌, ◌++◌,
  arith, ◌==◌, if◌then◌else◌, length, All, IsByte, bit_and, append_assoc, append-nil,
}
use servertech_chat.Error.{ok}
use servertech_chat.Base64.Tables.{forward}
use servertech_chat.Base64.Bits.{and_03, and_0f, sextet0_lem, sextet1_lem}
use servertech_chat.Base64.Group.{
  decode_loop-forward, quad, first_byte, second_byte, decode_loop-group, encode-three,
}
use servertech_chat.Base64.{
  get_padding, sextet0, sextet1, encode, base64_encode, C4, c4_zero, Decoding, decode_loop,
  decode_tail, check_padding, decode, base64_decode,
}

-- The padding characters that `encode` writes behind `n` bytes.
pads : ℕ → Bool → Bytes
unfolding get_padding
pads n true = if n % 3 == 1 then b'=' ∷ b'=' ∷ [] else if n % 3 == 2 then b'=' ∷ [] else []
pads n false = []

-- The loop stops at the padding, or at the end.
decode_loop-pads :
    (n : ℕ) (with_padding : Bool) (q : C4) (i : ℕ) (out : Bytes)
    → decode_loop (pads n with_padding) q i out
      ≡ ok (record { src = pads n with_padding; c4 = q; i = i; out = out })
unfolding decode_loop pads
decode_loop-pads n true q i out = ground arith
decode_loop-pads n false q i out = refl

pads_three : (n : ℕ) (p : Bool) → pads (suc (suc (suc n))) p ≡ pads n p
unfolding pads
pads_three n true = ground arith
pads_three n false = refl

-- What the loop and the tail make of an encoding.
abbrev Decodes : Bytes → C4 → Bytes → Bytes → Bytes → Type 0
Decodes text q out bytes left =
    (d : Decoding) × (decode_loop text q 0 out ≡ ok d)
    × (decode_tail d ≡ out ++ bytes)
    × (d.src ≡ left)

encode_one :
    (a : ℕ) (p : Bool)
    → encode (a ∷ []) p ≡ forward (sextet0 a) ∷ forward (bit_and a 0x03 * 2 ^ 4) ∷ pads 1 p
unfolding encode pads
encode_one a true = refl
encode_one a false = refl

encode_two :
    (a b : ℕ) (p : Bool)
    → encode (a ∷ b ∷ []) p
      ≡ forward (sextet0 a) ∷ forward (sextet1 a b) ∷ forward (bit_and b 0x0f * 2 ^ 2) ∷ pads 2 p
unfolding encode pads
encode_two a b true = refl
encode_two a b false = refl

Decodes-one :
    (a : ℕ) (p : Bool) (q : C4) (out : Bytes)
    → IsByte a
    → Decodes (encode (a ∷ []) p) q out (a ∷ []) (pads 1 p)
unfolding decode_tail
Decodes-one a p q out ha = (
  record {
    src = pads 1 p;
    c4 = quad (sextet0 a) (bit_and a 0x03 * 2 ^ 4) q.at2 q.at3;
    i = 2;
    out = out;
  },
  rw (encode_one a p) (
      decode_loop-forward (sextet0 a) _ q 0 out (omega (arith, sextet0_lem a ha)) (omega arith)
      ∙ decode_loop-forward (bit_and a 0x03 * 2 ^ 4) _ _ 1 out (omega (arith, and_03 a ha))
          (omega arith)
      ∙ decode_loop-pads 1 p _ 2 out),
  ground (arith, sextet0_lem a ha, and_03 a ha, first_byte (a / 4) (a % 4 * 16)),
  refl,
)

Decodes-two :
    (a b : ℕ) (p : Bool) (q : C4) (out : Bytes)
    → IsByte a
    → IsByte b
    → Decodes (encode (a ∷ b ∷ []) p) q out (a ∷ b ∷ []) (pads 2 p)
unfolding decode_tail
Decodes-two a b p q out ha hb = (
  record {
    src = pads 2 p;
    c4 = quad (sextet0 a) (sextet1 a b) (bit_and b 0x0f * 2 ^ 2) q.at3;
    i = 3;
    out = out;
  },
  rw (encode_two a b p) (
      decode_loop-forward (sextet0 a) _ q 0 out (omega (arith, sextet0_lem a ha)) (omega arith)
      ∙ decode_loop-forward (sextet1 a b) _ _ 1 out (omega (arith, sextet1_lem a b ha hb))
          (omega arith)
      ∙ decode_loop-forward (bit_and b 0x0f * 2 ^ 2) _ _ 2 out (omega (arith, and_0f b hb))
          (omega arith)
      ∙ decode_loop-pads 2 p _ 3 out),
  rw (sextet0_lem a ha, sextet1_lem a b ha hb, and_0f b hb)
      (ground (
        arith,
        first_byte (a / 4) (a % 4 * 16 + b / 16),
        second_byte (a % 4 * 16 + b / 16) (b % 16 * 4),
      )),
  refl,
)

Decodes-none : (p : Bool) (q : C4) (out : Bytes) → Decodes (encode [] p) q out [] (pads 0 p)
unfolding encode decode_loop decode_tail pads
Decodes-none true q out =
    (record { src = []; c4 = q; i = 0; out = out }, refl, sym (append-nil out), refl)
Decodes-none false q out =
    (record { src = []; c4 = q; i = 0; out = out }, refl, sym (append-nil out), refl)

decode_loop-encode :
    (bs : Bytes) (p : Bool) (q : C4) (out : Bytes)
    → All IsByte bs
    → Decodes (encode bs p) q out bs (pads (length bs) p)
decode_loop-encode [] p q out h = Decodes-none p q out
decode_loop-encode (a ∷ []) p q out h = Decodes-one a p q out h.0
decode_loop-encode (a ∷ b ∷ []) p q out h = Decodes-two a b p q out h.0 h.1.0
decode_loop-encode (a ∷ b ∷ c ∷ rest) p q out (ha, (hb, (hc, h))) =
    let (r, e) = decode_loop-group a b c ha hb hc (encode rest p) q out in
    let (d, loop, tail, left) = decode_loop-encode rest p r (out ++ a ∷ b ∷ c ∷ []) h in
    (
      d,
      rw (encode-three a b c rest p) (e ∙ loop),
      tail ∙ append_assoc out (a ∷ b ∷ c ∷ []) rest,
      left ∙ sym (pads_three (length rest) p),
    )

-- The padding check accepts exactly what `encode` wrote.
check_padding-pads : (n : ℕ) → check_padding (get_padding n) (pads n true) ≡ ok []
unfolding check_padding get_padding pads
check_padding-pads n = ground arith

decode-encode : (bs : Bytes) (p : Bool) → All IsByte bs → decode (encode bs p) p ≡ ok (bs, [])
unfolding decode
decode-encode bs true h =
    let (d, loop, tail, left) = decode_loop-encode bs true c4_zero [] h in
    rw loop (rw (tail, left) (rw (check_padding-pads (length bs))))
decode-encode bs false h =
    let (d, loop, tail, left) = decode_loop-encode bs false c4_zero [] h in
    rw loop (rw (tail, left) (unfold pads in refl))

-- Decoding an encoding of bytes, both with the same padding flag, gives the bytes back.
pub decode-base64_encode :
    (bs : Bytes) (with_padding : Bool)
    → All IsByte bs
    → base64_decode (base64_encode bs with_padding) with_padding ≡ ok bs
unfolding base64_decode base64_encode
decode-base64_encode bs p h = rw (decode-encode bs p h)
