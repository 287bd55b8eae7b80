-- ===== src/Base64/Rejects.antt =====
-- What base64_decode makes of text that base64_encode did not write.
use servertech_chat.Prelude.{
  ℕ, IsByte, zero, suc, ◌+◌, ◌%◌, ◌≤◌, ◌<◌, ◌≡◌, ◌≢◌, refl, ap, ◌∙◌, inl, inr, Bool, true, false,
  Bytes, [], ◌∷◌, ◌++◌, arith, Bool-cases, ==_iff, ltb, ltb→lt, if◌then◌else◌, length, none, some,
  All, map, ◌==◌, append_assoc, List, append-nil,
}
use servertech_chat.Error.{
  >>=-eq-undefined, ErrorCode, chat, invalid_base64, Result, ok, err, undefined, ◌>>=◌,
}
use servertech_chat.Base64.Tables.{
  forward-inverse, forward, inverse, inverse-cases, inverse-ascii, inverse-high,
}
use servertech_chat.Base64.Group.{
  decode_loop-forward, decode_loop-forward_last, decode_loop-group, encode-three,
}
use servertech_chat.Base64.{
  get_padding, encode, base64_encode, C4, c4_zero, c4_set, c3_of, Decoding, decode_loop,
  decode_tail, check_padding, skip_padding, decode_rest, decode, base64_decode, consumed,
}

abbrev pub IsAscii : ℕ → Type 0
IsAscii c = c < 128

decode_loop-ascii :
    (src : Bytes) (q : C4) (i : ℕ) (out : Bytes)
    → All IsAscii src
    → decode_loop src q i out ≢ undefined
unfolding decode_loop
decode_loop-ascii [] q i out h e = cc
decode_loop-ascii (c ∷ src) q i out (hc, h) e = elim (inverse-cases c) [
  | inl outside ↦ absurd (inverse-ascii c hc outside)
  | inr (inl bad) ↦ ground arith
  | inr (inr (v, good)) ↦ ground (
    arith,
    decode_loop-ascii src (c4_set q i v) 0 (out ++ c3_of (c4_set q i v)) h,
    decode_loop-ascii src (c4_set q i v) (i + 1) out h,
  )
]

skip_padding-defined : (n : ℕ) (src : Bytes) → skip_padding n src ≢ undefined
unfolding skip_padding
skip_padding-defined zero src e = cc
skip_padding-defined (suc n) [] e = cc
skip_padding-defined (suc n) (c ∷ src) e = ground (arith, skip_padding-defined n src)

decode_rest-defined : (p : Bool) (d : Decoding) → decode_rest p d ≢ undefined
unfolding decode_rest check_padding
decode_rest-defined true d e =
    ground (arith, skip_padding-defined (get_padding (length (decode_tail d))) d.src)
decode_rest-defined false d e = cc

consumed-defined : (out src : Bytes) → consumed out src ≢ undefined
consumed-defined out [] e = cc
consumed-defined out (c ∷ src) e = cc

-- On ASCII text every table lookup of base64_decode is inside the table.
base64_decode-ascii :
    (input : Bytes) (with_padding : Bool)
    → All IsAscii input
    → base64_decode input with_padding ≢ undefined
unfolding base64_decode decode
base64_decode-ascii input p h e =
    elim (>>=-eq-undefined (decode input p) (λ o. consumed o.0 o.1) e) [
      | inl u ↦ elim (>>=-eq-undefined (decode_loop input c4_zero 0 []) (decode_rest p) u) [
        | inl v ↦ decode_loop-ascii input c4_zero 0 [] h v
        | inr (d, _, v) ↦ decode_rest-defined p d v
      ]
      | inr ((out, src), _, u) ↦ consumed-defined out src u
    ]

-- The loop gets past any characters of the alphabet.
decode_loop-alphabet :
    (vs : List ℕ) (rest : Bytes) (q : C4) (i : ℕ) (out : Bytes)
    → All (λ v. v < 64) vs
    → i ≤ 3
    → (d : Decoding) × (decode_loop (map forward vs ++ rest) q i out
        ≡ decode_loop rest d.c4 d.i d.out)
decode_loop-alphabet [] rest q i out h hi = (record { src = []; c4 = q; i = i; out = out }, refl)
decode_loop-alphabet (v ∷ vs) rest q i out (hv, h) hi = elim (Bool-cases (i == 3)) [
  | inl last ↦
      let r = c4_set q 3 v in
      let (d, e) = decode_loop-alphabet vs rest r 0 (out ++ c3_of r) h (omega arith) in
      (d, decode_loop-forward_last v _ q i out hv ((==_iff i 3).0 last) ∙ e)
  | inr more ↦
      let (d, e) = decode_loop-alphabet vs rest (c4_set q i v) (i + 1) out h (ground arith) in
      (d, decode_loop-forward v _ q i out hv (ground arith) ∙ e)
]

-- What becomes of a character outside the alphabet.
abbrev stray_loop : ℕ → Result ErrorCode Decoding
stray_loop c = if ltb c 128 then err (chat invalid_base64) else undefined

abbrev pub stray : ℕ → Result ErrorCode Bytes
stray c = if ltb c 128 then err (chat invalid_base64) else undefined

inverse-stray : (c : ℕ) → c < 128 → ((v : ℕ) → v < 64 → forward v ≢ c) → inverse c ≡ some none
inverse-stray c h out = elim (inverse-cases c) [
  | inl outside ↦ absurd (inverse-ascii c h outside)
  | inr (inl bad) ↦ bad
  | inr (inr (v, good)) ↦
      let (small, e) = forward-inverse c v (omega arith) good in absurd (out v small e)
]

decode_loop-stray :
    (c : ℕ) (rest : Bytes) (q : C4) (i : ℕ) (o : Bytes)
    → c < 256
    → c ≢ b'='
    → ((v : ℕ) → v < 64 → forward v ≢ c)
    → decode_loop (c ∷ rest) q i o ≡ stray_loop c
unfolding decode_loop
decode_loop-stray c rest q i o hc ne out = elim (Bool-cases (ltb c 128)) [
  | inl low ↦ ground (arith, inverse-stray c (ltb→lt c 128 low) out)
  | inr high ↦ ground (arith, inverse-high c hc)
]

-- Behind any characters of the alphabet, the first one that is neither in the alphabet nor the
-- padding character decides: an ASCII character is an error, and any other byte an access outside
-- the inverse table.
pub base64_decode-stray :
    (vs : List ℕ) (c : ℕ) (rest : Bytes) (with_padding : Bool)
    → All (λ v. v < 64) vs
    → c < 256
    → c ≢ b'='
    → ((v : ℕ) → v < 64 → forward v ≢ c)
    → base64_decode (map forward vs ++ c ∷ rest) with_padding ≡ stray c
unfolding base64_decode decode
base64_decode-stray vs c rest p h hc ne out =
    let (d, e) = decode_loop-alphabet vs (c ∷ rest) c4_zero 0 [] h (omega arith) in
    rw (e, decode_loop-stray c rest d.c4 d.i d.out hc ne out) (ground arith)

-- Whole groups, with anything behind them.
decode_loop-whole :
    (bs : Bytes) (p : Bool) (rest : Bytes) (q : C4) (out : Bytes)
    → All IsByte bs
    → length bs % 3 ≡ 0
    → (r : C4) × (decode_loop (encode bs p ++ rest) q 0 out ≡ decode_loop rest r 0 (out ++ bs))
decode_loop-whole [] p rest q out h e = (q, unfold encode in rw (append-nil out))
decode_loop-whole (a ∷ []) p rest q out h e = absurd (omega arith)
decode_loop-whole (a ∷ b ∷ []) p rest q out h e = absurd (omega arith)
decode_loop-whole (a ∷ b ∷ c ∷ bs) p rest q out (ha, (hb, (hc, h))) e =
    let (r, first) = decode_loop-group a b c ha hb hc (encode bs p ++ rest) q out in
    let (s, more) = decode_loop-whole bs p rest r (out ++ a ∷ b ∷ c ∷ []) h (omega arith) in
    (
      s,
      rw (encode-three a b c bs p)
          (first ∙ more ∙ ap (λ o. decode_loop rest s 0 o) (append_assoc out (a ∷ b ∷ c ∷ []) bs)),
    )

dangling_rest :
    (r : C4) (v : ℕ) (bs : Bytes)
    → length bs % 3 ≡ 0
    → (do d ← decode_loop [] (c4_set r 0 v) 1 bs; decode_rest true d) ≡ ok (bs, [])
unfolding decode_loop decode_rest
dangling_rest r v bs whole = rw append-nil (ground arith)

-- A last group of a single character of the alphabet is dropped without an error, with and without
-- padding: it may stand behind any encoding of whole groups of bytes.
base64_decode_dangling :
    (bs : Bytes) (v : ℕ) (with_padding : Bool)
    → All IsByte bs
    → length bs % 3 ≡ 0
    → v < 64
    → base64_decode (base64_encode bs with_padding ++ forward v ∷ []) with_padding ≡ ok bs
unfolding base64_decode decode base64_encode
base64_decode_dangling bs v true h whole hv =
    let (r, e) = decode_loop-whole bs true (forward v ∷ []) c4_zero [] h whole in
    rw (e, decode_loop-forward v [] r 0 bs hv (omega arith)) (rw (dangling_rest r v bs whole))
base64_decode_dangling bs v false h whole hv =
    let (r, e) = decode_loop-whole bs false (forward v ∷ []) c4_zero [] h whole in
    rw (e, decode_loop-forward v [] r 0 bs hv (omega arith)) (rw append-nil)
