-- ===== src/Cookie/Parse.antt =====
-- The whole of a Cookie header.
use servertech_chat.Prelude.{
  ℕ, zero, suc, ◌≤◌, ◌<◌, ◌≡◌, ◌≢◌, refl, ap, Bool, true, false, Bytes, List, [], ◌∷◌, ◌++◌, none,
  some, arith, length, length-append, all, All, all-append, ◌==◌, ==_iff, inl, inr, Bool-cases,
  Option-cases,
}
use servertech_chat.Cookie.Chars.{is_token_char, delimiters_no_token}
use servertech_chat.Cookie.Scan.{Stops, skip_while-all, skip_while-append, length-skip_while-le}
use servertech_chat.Cookie.Sound.{parse_cookie_sound, parse_cookie_sound_next}
use servertech_chat.Cookie.Pairs.{IsCookie, render, Ends, parse_cookie-first, parse_cookie-next}
use servertech_chat.Cookie.{
  is_ows, is_empty, skip_ows, trim_ows, CookiePair, expect, separator, parse_cookie, increment,
  begin, iterate, cookie_list,
}

-- Each cookie takes some of the header.
parse_cookie-length :
    (f : Bool) (src : Bytes) {p : CookiePair} {current : Bytes}
    → parse_cookie f src ≡ some (p, current)
    → length current < length src
parse_cookie-length true src {p} {current} e = omega (
  arith,
  ap length (parse_cookie_sound src e).0,
  length-append p.name (b'=' ∷ (p.value ++ current)),
  length-append p.value current,
)
parse_cookie-length false src {p} {current} e = omega (
  arith,
  ap length (parse_cookie_sound_next src e).0,
  length-append p.name (b'=' ∷ (p.value ++ current)),
  length-append p.value current,
)

-- cookie-string = cookie-pair *( ";" SP cookie-pair ), with what follows it.
unfoldable pub following : List CookiePair → Bytes → Bytes
following [] rest = rest
following (p ∷ ps) rest = b';' ∷ b' ' ∷ render p (following ps rest)

unfoldable pub cookie_string : List CookiePair → Bytes → Bytes
unfolding following
cookie_string [] rest = rest
cookie_string (p ∷ ps) rest = render p (following ps rest)

-- Enough rounds for what is left of the header.
iterate_total :
    (fuel : ℕ) (f : Bool) (src : Bytes)
    → length src < fuel
    → (ps : List CookiePair) × (iterate fuel (increment f src) ≡ some ps)
unfolding iterate increment
iterate_total zero f src h = absurd (omega arith)
iterate_total (suc fuel) f src h = elim (Option-cases (parse_cookie f src)) [
  | inl stop ↦ ([], rw stop)
  | inr ((p, current), e) ↦
      let (ps, rest) =
        iterate_total fuel false current (omega (arith, parse_cookie-length f src e)) in
      (p ∷ ps, rw (e, rest))
]

-- Walking over any header ends.
pub cookie_list_total : (header : Bytes) → (ps : List CookiePair) × (cookie_list header ≡ some ps)
unfolding cookie_list begin
cookie_list_total header = elim (Bool-cases (is_empty (trim_ows header))) [
  | inl none_left ↦ ([], rw none_left (unfold iterate in refl))
  | inr some_left ↦
      let (ps, e) =
        iterate_total (suc (suc (length header))) true (trim_ows header)
          (unfold trim_ows skip_ows in omega (arith, length-skip_while-le is_ows header)) in
      (ps, rw some_left e)
]

ows-Stops : (c : ℕ) → is_ows c ≡ true → is_token_char c ≡ false
ows-Stops c h = elim (Bool-cases (c == b' ')) [
  | inl k ↦ rw ((==_iff _ _).0 k) delimiters_no_token.2
  | inr k ↦ rw (tab k) delimiters_no_token.3
]
  where
    tab : (c == b' ') ≡ false → c ≡ b'\t'
    tab k = ground arith

Ends-following :
    (ps : List CookiePair) (trail : Bytes) → all is_ows trail ≡ true → Ends (following ps trail)
unfolding following
Ends-following [] [] h = tt
Ends-following [] (c ∷ trail) h = ground arith
Ends-following (p ∷ ps) trail h = refl

stops_at_trail : (trail : Bytes) → all is_ows trail ≡ true → parse_cookie false trail ≡ none
unfolding parse_cookie separator expect
stops_at_trail [] h = refl
stops_at_trail (c ∷ trail) h = ground arith

iterate-following :
    (ps : List CookiePair) (fuel : ℕ) (trail : Bytes)
    → All IsCookie ps
    → all is_ows trail ≡ true
    → length ps < fuel
    → iterate fuel (increment false (following ps trail)) ≡ some ps
unfolding iterate increment following
iterate-following ps zero trail v h k = absurd (omega arith)
iterate-following [] (suc fuel) trail v h k = rw (stops_at_trail trail h)
iterate-following (p ∷ ps) (suc fuel) trail (c, v) h k =
    rw (parse_cookie-next p (following ps trail) c (Ends-following ps trail h))
      (rw (iterate-following ps fuel trail v h (omega arith)))

length-following : (ps : List CookiePair) (trail : Bytes) → length ps ≤ length (following ps trail)
unfolding following
length-following [] trail = omega arith
length-following (p ∷ ps) trail = omega (
  arith,
  length-following ps trail,
  length-append p.name (b'=' ∷ (p.value ++ following ps trail)),
  length-append p.value (following ps trail),
)

-- A cookie's name does not begin with white space.
name-Stops :
    (name rest : Bytes)
    → name ≢ []
    → all is_token_char name ≡ true
    → Stops is_ows (name ++ rest) × (is_empty (name ++ rest) ≡ false)
name-Stops [] rest n h = absurd (n refl)
name-Stops (c ∷ name) rest n h = (ground (arith, ows-Stops c), refl)

trim_ows-cookie_string :
    (lead trail : Bytes) (p : CookiePair) (ps : List CookiePair)
    → all is_ows lead ≡ true
    → IsCookie p
    → (trim_ows (lead ++ cookie_string (p ∷ ps) trail) ≡ cookie_string (p ∷ ps) trail)
      × (is_empty (cookie_string (p ∷ ps) trail) ≡ false)
unfolding trim_ows skip_ows cookie_string
trim_ows-cookie_string lead trail p ps h c =
    let (stop, full) = name-Stops p.name (b'=' ∷ (p.value ++ following ps trail)) c.named c.token in
    (skip_while-append is_ows lead _ h stop, full)

trim_ows-blank :
    (lead trail : Bytes)
    → all is_ows lead ≡ true
    → all is_ows trail ≡ true
    → trim_ows (lead ++ trail) ≡ []
unfolding trim_ows skip_ows
trim_ows-blank lead trail h k =
    skip_while-all is_ows (lead ++ trail) (all-append is_ows lead trail h k)

length-cookie_string :
    (lead trail : Bytes) (p : CookiePair) (ps : List CookiePair)
    → length ps < length (lead ++ cookie_string (p ∷ ps) trail)
unfolding cookie_string
length-cookie_string lead trail p ps = omega (
  arith,
  length-following ps trail,
  length-append lead (render p (following ps trail)),
  length-append p.name (b'=' ∷ (p.value ++ following ps trail)),
  length-append p.value (following ps trail),
)

-- Reading the cookies of a header gives back the cookies of the RFC 6265 grammar that were written
-- to it, in order, with white space allowed before the first and behind the last.
pub cookie_list-cookie_string :
    (lead trail : Bytes) (ps : List CookiePair)
    → all is_ows lead ≡ true
    → all is_ows trail ≡ true
    → All IsCookie ps
    → cookie_list (lead ++ cookie_string ps trail) ≡ some ps
unfolding cookie_list begin
cookie_list-cookie_string lead trail [] h k v =
    unfold cookie_string in rw (trim_ows-blank lead trail h k) (unfold iterate in refl)
cookie_list-cookie_string lead trail (p ∷ ps) h k (c, v) =
    let (trimmed, full) = trim_ows-cookie_string lead trail p ps h c in
    rw (trimmed, full)
      (unfold increment iterate cookie_string in
        rw (parse_cookie-first p (following ps trail) c (Ends-following ps trail k)) (
          rw (
            iterate-following ps (suc (length (lead ++ cookie_string (p ∷ ps) trail))) trail v k
              (omega (arith, length-cookie_string lead trail p ps)))))
