-- ===== src/Cookie/Sound.antt =====
-- What increment accepts is a cookie of the grammar, and nothing else.
use servertech_chat.Prelude.{
  ℕ, ◌≡◌, ◌≢◌, refl, subst, sym, ap, ◌∙◌, true, false, Bytes, [], ◌∷◌, ◌++◌, some, arith, all, ◌==◌,
  inl, inr, append_assoc, Bool-cases,
}
use mathlib.Core.Path.{ap₂}
use servertech_chat.Prelude.Options.{>>=-eq-some}
use servertech_chat.Cookie.Chars.{is_token_char, is_cookie_value_char}
use servertech_chat.Cookie.Scan.{skip_while-splits, view-append, view-skip_while}
use servertech_chat.Cookie.Pairs.{IsCookieValue, quoted, IsCookie, render}
use servertech_chat.Cookie.{
  is_empty, skip_token, skip_cookie_value, view, CookiePair, expect, separator, skip_value,
  parse_cookie, parse_name, parse_value,
}

expect-some : (c : ℕ) (src : Bytes) {r : Bytes} → expect c src ≡ some r → src ≡ c ∷ r
unfolding expect
expect-some c [] e = cc
expect-some c (d ∷ src) e = ground arith

separator-some : (src : Bytes) {r : Bytes} → separator false src ≡ some r → src ≡ b';' ∷ b' ' ∷ r
unfolding separator
separator-some src e =
    let (a, p, q) = >>=-eq-some (expect b';' src) (expect b' ') e in
    expect-some b';' src p ∙ ap (◌∷◌ b';') (expect-some b' ' a q)

is_empty-false : (s : Bytes) → is_empty s ≡ false → s ≢ []
is_empty-false [] h e = cc
is_empty-false (c ∷ s) h e = cc

parse_name-some :
    (src : Bytes) {name r : Bytes}
    → parse_name src ≡ some (name, r)
    → (src ≡ name ++ (b'=' ∷ r)) × (all is_token_char name ≡ true) × (name ≢ [])
unfolding parse_name
parse_name-some src {name} {r} e =
    let (split, good) = view-skip_while is_token_char src in
    unfold skip_token in
    ground (
      arith,
      split,
      good,
      expect-some b'=' (skip_token src) {r = r},
      is_empty-false (view src (skip_token src)),
    )

skip_value-some :
    (src : Bytes) {r : Bytes}
    → skip_value src ≡ some r
    → (v : Bytes) × (src ≡ v ++ r) × IsCookieValue v
unfolding skip_value
skip_value-some [] e = ([], ground arith, inl refl)
skip_value-some (c ∷ src) {r} e = elim (Bool-cases (c == b'"')) [
  | inl q ↦
      let (xs, split, good, _) = skip_while-splits is_cookie_value_char src in
      (
        quoted xs,
        unfold skip_cookie_value in
            ground (
              arith,
              split,
              expect-some b'"' (skip_cookie_value src) {r = r},
              append_assoc xs (b'"' ∷ []) r,
            ),
        inr (xs, refl, good),
      )
  | inr n ↦
      let (xs, split, good, _) = skip_while-splits is_cookie_value_char (c ∷ src) in
      (xs, unfold skip_cookie_value in ground (arith, split), inl good)
]

parse_value-some :
    (src : Bytes) {value r : Bytes}
    → parse_value src ≡ some (value, r)
    → (src ≡ value ++ r) × IsCookieValue value
unfolding parse_value
parse_value-some src {value} {r} e =
    let (current, s, done) = >>=-eq-some (skip_value src) (λ c. some (view src c, c)) e in
    let (v, split, octets) = skip_value-some src s in
    let same : view src current ≡ v =
      subst (λ s. view s current ≡ v) (sym split) (view-append v current) in
    let value_eq : value ≡ v = ground (arith, done, same) in
    let rest_eq : r ≡ current = ground (arith, done) in
    (split ∙ ap₂ ◌++◌ (sym value_eq) (sym rest_eq), subst IsCookieValue (sym value_eq) octets)

-- Where increment takes a first cookie, it takes exactly one cookie of the grammar, and where it
-- stops is behind that cookie.
pub parse_cookie_sound :
    (src : Bytes) {p : CookiePair} {current : Bytes}
    → parse_cookie true src ≡ some (p, current)
    → (src ≡ render p current) × IsCookie p
unfolding parse_cookie
parse_cookie_sound src {p} {current} e =
    let ((name, value_first), n, e1) = >>=-eq-some (parse_name src) _ e in
    let ((value, rest), v, e2) =
      >>=-eq-some (parse_value value_first) (λ o. some (record { name = name; value = o.0 }, o.1))
        e1 in
    let (split1, token, named) = parse_name-some src n in
    let (split2, octets) = parse_value-some value_first v in
    let whole : src ≡ render (record { name = name; value = value }) rest =
      split1 ∙ ap (λ t. name ++ (b'=' ∷ t)) split2 in
    let same : p ≡ record { name = name; value = value } = ground (arith, e2) in
    let end : current ≡ rest = ground (arith, e2) in
    (
      whole ∙ ap₂ render (sym same) (sym end),
      subst IsCookie (sym same) (record { named = named; token = token; octets = octets }),
    )

-- Behind a cookie it first takes a semicolon and a space.
pub parse_cookie_sound_next :
    (src : Bytes) {p : CookiePair} {current : Bytes}
    → parse_cookie false src ≡ some (p, current)
    → (src ≡ b';' ∷ b' ' ∷ render p current) × IsCookie p
unfolding parse_cookie
parse_cookie_sound_next src {p} {current} e =
    let (first, s, e1) = >>=-eq-some (separator false src) _ e in
    let (split, cookie) = parse_cookie_sound first {p = p} {current = current} e1 in
    (separator-some src s ∙ ap (λ t. b';' ∷ b' ' ∷ t) split, cookie)
