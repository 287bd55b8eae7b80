-- ===== src/Base64.antt =====
-- server/src/util/base64.cpp: base64_encode and base64_decode.
-- A buffer and the pointers into it are the list of the bytes that are still to be read, or that
-- have been written.
pub mod Tables
pub mod Bits
pub mod Group
pub mod Bounds
pub mod Encoded
pub mod RoundTrip
pub mod Rejects
use servertech_chat.Prelude.{
  ℕ, zero, suc, ◌+◌, ◌-◌, ◌*◌, ◌/◌, ◌%◌, ◌^◌, Bool, true, false, not, Bytes, List, [], ◌∷◌, ◌++◌,
  none, some, ltb, ◌==◌, if◌then◌else◌, length, take, bit_and,
}
use servertech_chat.Error.{ErrorCode, chat, invalid_base64, Result, ok, err, undefined, ◌>>=◌, ◌>>◌}
use Tables.{forward, inverse}

-- Number of bytes of expected padding for a given input data length.
unfoldable pub get_padding : ℕ → ℕ
get_padding n = if n % 3 == 1 then 2 else if n % 3 == 2 then 1 else 0

unfoldable pub encoded_size : ℕ → ℕ
encoded_size n = 4 * ((n + 2) / 3)

unfoldable pub decoded_size : ℕ → ℕ
decoded_size n = (n + 4) / 4 * 3

-- The sextets that `encode` looks up, as the shifts and masks of the source.
abbrev pub sextet0 : ℕ → ℕ
sextet0 a = bit_and a 0xfc / 2 ^ 2

abbrev pub sextet1 : ℕ → ℕ → ℕ
sextet1 a b = bit_and a 0x03 * 2 ^ 4 + bit_and b 0xf0 / 2 ^ 4

abbrev pub sextet2 : ℕ → ℕ → ℕ
sextet2 b c = bit_and c 0xc0 / 2 ^ 6 + bit_and b 0x0f * 2 ^ 2

abbrev pub sextet3 : ℕ → ℕ
sextet3 c = bit_and c 0x3f

-- `encode`: whole groups of three bytes, then the switch on `len % 3`.
unfoldable pub encode : Bytes → Bool → Bytes
encode [] with_padding = []
encode (a ∷ []) with_padding =
    forward (sextet0 a)
    ∷ forward (bit_and a 0x03 * 2 ^ 4)
    ∷ (if with_padding then b'=' ∷ b'=' ∷ [] else [])
encode (a ∷ b ∷ []) with_padding =
    forward (sextet0 a)
    ∷ forward (sextet1 a b)
    ∷ forward (bit_and b 0x0f * 2 ^ 2)
    ∷ (if with_padding then b'=' ∷ [] else [])
encode (a ∷ b ∷ c ∷ rest) with_padding =
    forward (sextet0 a)
    ∷ forward (sextet1 a b)
    ∷ forward (sextet2 b c)
    ∷ forward (sextet3 c)
    ∷ encode rest with_padding

unfoldable pub base64_encode : Bytes → Bool → Bytes
base64_encode input with_padding = encode input with_padding

-- unsigned char c4[4], of which entries left over from the last group are never cleared.
pub record C4 : Type 0 where
  pub at0 : ℕ
  pub at1 : ℕ
  pub at2 : ℕ
  pub at3 : ℕ

abbrev pub c4_zero : C4
c4_zero = record { at0 = 0; at1 = 0; at2 = 0; at3 = 0 }

-- `c4[i] = v`; the loop keeps `i` below 4.
abbrev pub c4_set : C4 → ℕ → ℕ → C4
c4_set q zero v = record q { at0 = v }
c4_set q (suc zero) v = record q { at1 = v }
c4_set q (suc (suc zero)) v = record q { at2 = v }
c4_set q (suc (suc (suc i))) v = record q { at3 = v }

-- unsigned char c3[3], computed from c4.
abbrev pub c3_of : C4 → Bytes
c3_of q =
    ((q.at0 * 2 ^ 2 + bit_and q.at1 0x30 / 2 ^ 4) % 256)
    ∷ ((bit_and q.at1 0xf * 2 ^ 4 + bit_and q.at2 0x3c / 2 ^ 2) % 256)
    ∷ ((bit_and q.at2 0x3 * 2 ^ 6 + q.at3) % 256)
    ∷ []

-- Where the `while` loop of `decode` leaves src, c4, i and the output.
pub record Decoding : Type 0 where
  pub src : Bytes
  pub c4 : C4
  pub i : ℕ
  pub out : Bytes

unfoldable pub decode_loop : Bytes → C4 → ℕ → Bytes → Result ErrorCode Decoding
decode_loop [] c4 i out = ok (record { src = []; c4 = c4; i = i; out = out })
decode_loop (c ∷ src) c4 i out = elim (c == b'=') [
  | true ↦ ok (record { src = c ∷ src; c4 = c4; i = i; out = out })
  | false ↦ elim (inverse c) [
    | none ↦ undefined
    | some none ↦ err (chat invalid_base64)
    | some (some v) ↦
        let q = c4_set c4 i v in
        elim (i + 1 == 4) [
          | true ↦ decode_loop src q 0 (out ++ c3_of q)
          | false ↦ decode_loop src q (i + 1) out
        ]
  ]
]

-- `if (i) { ... }`: the first i - 1 bytes of a group cut short.
unfoldable pub decode_tail : Decoding → Bytes
decode_tail d = if d.i == 0 then d.out else d.out ++ take (d.i - 1) (c3_of d.c4)

-- The loop over the expected padding; returns the first unparsed character.
unfoldable pub skip_padding : ℕ → Bytes → Result ErrorCode Bytes
skip_padding zero src = ok src
skip_padding (suc n) [] = err (chat invalid_base64)
skip_padding (suc n) (c ∷ src) =
    let rest = skip_padding n src in if c == b'=' then rest else err (chat invalid_base64)

unfoldable pub check_padding : ℕ → Bytes → Result ErrorCode Bytes
unfolding skip_padding
check_padding expected src =
    if ltb (length src) expected then err (chat invalid_base64) else skip_padding expected src

-- `decode` after its loop: the tail, then the padding if there should be one.
unfoldable pub decode_rest : Bool → Decoding → Result ErrorCode (Bytes × Bytes)
unfolding decode_tail check_padding get_padding
decode_rest true d = do
  src ← check_padding (get_padding (length (decode_tail d))) d.src
  ok (decode_tail d, src)
decode_rest false d = ok (decode_tail d, d.src)

unfoldable pub decode : Bytes → Bool → Result ErrorCode (Bytes × Bytes)
unfolding decode_loop decode_rest
decode from with_padding = do d ← decode_loop from c4_zero 0 []; decode_rest with_padding d

-- `if (last != input.data() + input.size())`
abbrev consumed : Bytes → Bytes → Result ErrorCode Bytes
consumed out [] = ok out
consumed out (c ∷ src) = err (chat invalid_base64)

unfoldable pub base64_decode : Bytes → Bool → Result ErrorCode Bytes
unfolding decode
base64_decode input with_padding = do (out, src) ← decode input with_padding; consumed out src
