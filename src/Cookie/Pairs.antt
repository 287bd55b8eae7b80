-- ===== src/Cookie/Pairs.antt =====
-- One cookie: the grammar of RFC 6265 that cookie.cpp quotes, and parse_cookie on it.
use servertech_chat.Prelude.{
  ℕ, ◌≡◌, ◌≢◌, refl, true, false, ◌||◌, Bytes, [], ◌∷◌, ◌++◌, some, arith, all, ◌==◌, ==_iff, ◌⊎◌,
  inl, inr, append_assoc, Bool-cases,
}
use servertech_chat.Cookie.Chars.{
  is_token_char, is_cookie_value_char, delimiters_no_token, delimiters_no_value,
}
use servertech_chat.Cookie.Scan.{Stops, view-append, skip_while-append}
use servertech_chat.Cookie.{
  is_ows, is_empty, skip_token, skip_cookie_value, CookiePair, expect, skip_value, parse_cookie,
}

abbrev pub quoted : Bytes → Bytes
quoted w = b'"' ∷ (w ++ b'"' ∷ [])

-- cookie-value = *cookie-octet / ( DQUOTE *cookie-octet DQUOTE )
abbrev pub IsCookieValue : Bytes → Type 0
IsCookieValue v =
    (all is_cookie_value_char v ≡ true)
    ⊎ ((w : Bytes) × (v ≡ quoted w) × (all is_cookie_value_char w ≡ true))

-- cookie-pair = cookie-name "=" cookie-value
pub record IsCookie (p : CookiePair) : Type 0 where
  pub named : p.name ≢ []
  pub token : all is_token_char p.name ≡ true
  pub octets : IsCookieValue p.value

abbrev pub render : CookiePair → Bytes → Bytes
render p rest = p.name ++ (b'=' ∷ (p.value ++ rest))

-- What can stand behind a cookie: the end, the semicolon before the next one, or white space.
abbrev pub Ends : Bytes → Type 0
Ends [] = Unit {0}
Ends (c ∷ rest) = (c == b';' || is_ows c) ≡ true

Ends-Stops : (rest : Bytes) → Ends rest → Stops is_cookie_value_char rest
Ends-Stops [] e = tt
Ends-Stops (c ∷ rest) e = elim (Bool-cases (c == b';')) [
  | inl h ↦ rw ((==_iff _ _).0 h) delimiters_no_value.0
  | inr h ↦ elim (Bool-cases (c == b' ')) [
    | inl k ↦ rw ((==_iff _ _).0 k) delimiters_no_value.1
    | inr k ↦ rw (tab h k) delimiters_no_value.2
  ]
]
  where
    tab : (c == b';') ≡ false → (c == b' ') ≡ false → c ≡ b'\t'
    tab h k = ground arith

skip_value-quoted :
    (w rest : Bytes) → all is_cookie_value_char w ≡ true → skip_value (quoted w ++ rest) ≡ some rest
unfolding skip_value skip_cookie_value expect
skip_value-quoted w rest h =
    rw (append_assoc w (b'"' ∷ []) rest)
      (rw (skip_while-append is_cookie_value_char w (b'"' ∷ rest) h delimiters_no_value.3))

value_char-ne-quote : (c : ℕ) → is_cookie_value_char c ≡ true → (c == b'"') ≡ false
value_char-ne-quote c h = elim (Bool-cases (c == b'"')) [
  | inl q ↦ cc (h, delimiters_no_value.3, (==_iff c b'"').0 q)
  | inr n ↦ n
]

skip_value-plain :
    (v rest : Bytes)
    → all is_cookie_value_char v ≡ true
    → Ends rest
    → skip_value (v ++ rest) ≡ some rest
unfolding skip_value skip_cookie_value
skip_value-plain [] [] h e = refl
skip_value-plain [] (c ∷ rest) h e =
    ground (arith, skip_while-append is_cookie_value_char [] (c ∷ rest) h (Ends-Stops (c ∷ rest) e))
skip_value-plain (c ∷ v) rest h e = ground (
  arith,
  value_char-ne-quote c,
  skip_while-append is_cookie_value_char (c ∷ v) rest h (Ends-Stops rest e),
)

skip_value-IsCookieValue :
    (v rest : Bytes) → IsCookieValue v → Ends rest → skip_value (v ++ rest) ≡ some rest
skip_value-IsCookieValue v rest (inl h) e = skip_value-plain v rest h e
skip_value-IsCookieValue v rest (inr (w, q, h)) e = rw q (skip_value-quoted w rest h)

is_empty-ne : (s : Bytes) → s ≢ [] → is_empty s ≡ false
is_empty-ne [] h = absurd (h refl)
is_empty-ne (c ∷ s) h = refl

-- parse_cookie takes one cookie, whatever ends it.
pub parse_cookie-first :
    (p : CookiePair) (rest : Bytes)
    → IsCookie p
    → Ends rest
    → parse_cookie true (render p rest) ≡ some (p, rest)
unfolding parse_cookie
parse_cookie-first p rest c e =
    let stop : skip_token (render p rest) ≡ b'=' ∷ (p.value ++ rest) =
      unfold skip_token in skip_while-append is_token_char p.name _ c.token delimiters_no_token.0 in
    rw (stop, view-append, is_empty-ne p.name c.named)
      (unfold expect in
        rw (skip_value-IsCookieValue p.value rest c.octets e, view-append p.value rest))

pub parse_cookie-next :
    (p : CookiePair) (rest : Bytes)
    → IsCookie p
    → Ends rest
    → parse_cookie false (b';' ∷ b' ' ∷ render p rest) ≡ some (p, rest)
unfolding parse_cookie
parse_cookie-next p rest c e = parse_cookie-first p rest c e
