-- ===== src/Base64/Bounds.antt =====
-- The sizes that base64_encode and base64_decode allocate in advance.
use servertech_chat.Prelude.{
  ℕ, ◌+◌, ◌-◌, ◌*◌, ◌/◌, ◌≤◌, ◌≡◌, ap, ◌∙◌, inl, inr, Bool, true, false, Bytes, [], ◌∷◌, ◌++◌,
  arith, length, length-append, length-take_le, take,
}
use servertech_chat.Error.{>>=-eq-ok, ok}
use servertech_chat.Base64.Tables.{inverse-cases}
use servertech_chat.Base64.{
  encoded_size, decoded_size, encode, base64_encode, C4, c4_zero, c4_set, c3_of, Decoding,
  decode_loop, decode_tail, decode, base64_decode, consumed, decode_rest,
}

length-encode_padded : (bs : Bytes) → length (encode bs true) ≡ encoded_size (length bs)
unfolding encode encoded_size
length-encode_padded [] = omega arith
length-encode_padded (a ∷ []) = omega arith
length-encode_padded (a ∷ b ∷ []) = omega arith
length-encode_padded (a ∷ b ∷ c ∷ rest) = omega (arith, length-encode_padded rest)

length-encode_plain : (bs : Bytes) → length (encode bs false) ≡ (4 * length bs + 2) / 3
unfolding encode
length-encode_plain [] = omega arith
length-encode_plain (a ∷ []) = omega arith
length-encode_plain (a ∷ b ∷ []) = omega arith
length-encode_plain (a ∷ b ∷ c ∷ rest) = omega (arith, length-encode_plain rest)

-- With padding, an encoding fills the whole of the buffer that is allocated for it; without, it is
-- the least number of characters that hold the bits, which fits in the buffer.
length-base64_encode :
    (bs : Bytes)
    → (length (base64_encode bs true) ≡ encoded_size (length bs))
      × (length (base64_encode bs false) ≡ (4 * length bs + 2) / 3)
      × (length (base64_encode bs false) ≤ encoded_size (length bs))
unfolding base64_encode
length-base64_encode bs = (
  length-encode_padded bs,
  length-encode_plain bs,
  unfold encoded_size in omega (arith, length-encode_plain bs),
)

-- The loop writes three bytes for four characters.
length-decode_loop :
    (src : Bytes) (q : C4) (i : ℕ) (out : Bytes) (d : Decoding)
    → i ≤ 3
    → decode_loop src q i out ≡ ok d
    → (d.i ≤ 3) × (4 * length d.out + 3 * d.i ≤ 4 * length out + 3 * i + 3 * length src)
unfolding decode_loop
length-decode_loop [] q i out d h e = ground arith
length-decode_loop (c ∷ src) q i out d h e = elim (inverse-cases c) [
  | inl outside ↦ ground arith
  | inr (inl bad) ↦ ground arith
  | inr (inr (v, good)) ↦ ground (
    arith,
    length-append out (c3_of (c4_set q i v)),
    length-decode_loop src (c4_set q i v) 0 (out ++ c3_of (c4_set q i v)) d,
    length-decode_loop src (c4_set q i v) (i + 1) out d,
  )
]

length-decode_tail :
    (d : Decoding) → d.i ≤ 3 → 4 * length (decode_tail d) ≤ 4 * length d.out + 3 * d.i
unfolding decode_tail
length-decode_tail d h = ground (
  arith,
  length-append d.out (take (d.i - 1) (c3_of d.c4)),
  length-take_le (d.i - 1) (c3_of d.c4),
)

consumed-ok : (out src bs : Bytes) → consumed out src ≡ ok bs → out ≡ bs
consumed-ok out [] bs e = cc
consumed-ok out (c ∷ src) bs e = cc

decode_rest-ok :
    (p : Bool) (d : Decoding) {out src : Bytes}
    → decode_rest p d ≡ ok (out, src)
    → decode_tail d ≡ out
unfolding decode_rest
decode_rest-ok true d e = ground arith
decode_rest-ok false d e = ground arith

-- A successful decode, and the decoding that it came from.
abbrev Decoded : Bytes → Bytes → Type 0
Decoded input bs = (d : Decoding) × (decode_loop input c4_zero 0 [] ≡ ok d) × (decode_tail d ≡ bs)

pub base64_decode-Decoded :
    (input : Bytes) (p : Bool) (bs : Bytes) → base64_decode input p ≡ ok bs → Decoded input bs
unfolding base64_decode
base64_decode-Decoded input p bs e =
    let ((out, rest), r, c) = >>=-eq-ok (decode input p) (λ o. consumed o.0 o.1) e in
    let (d, loop, checked) = >>=-eq-ok (decode_loop input c4_zero 0 []) (decode_rest p) r in
    (d, loop, decode_rest-ok p d checked ∙ consumed-ok out rest bs c)

-- What a successful base64_decode writes fits in the buffer that it allocates.
length-base64_decode :
    (input : Bytes) (with_padding : Bool) (bs : Bytes)
    → base64_decode input with_padding ≡ ok bs
    → length bs ≤ decoded_size (length input)
length-base64_decode input p bs e =
    let (d, loop, tail) = base64_decode-Decoded input p bs e in
    unfold decoded_size in
    omega (
      arith,
      length-decode_loop input c4_zero 0 [] d (omega arith) loop,
      length-decode_tail d (length-decode_loop input c4_zero 0 [] d (omega arith) loop).0,
      ap length tail,
    )
