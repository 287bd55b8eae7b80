-- ===== src/Email/Shape.antt =====
-- What an email looks like.
use servertech_chat.Prelude.{
  ℕ, ◌==◌, ==_iff, ◌||◌, Bool, true, all, all-append, Bytes, ◌∷◌, ◌++◌, ◌≡◌, ◌↔◌, inl, inr, refl,
  ap, ◌∙◌, arith,
}
use servertech_chat.Email.Expressions.{
  Regex, nothing, empty, one, seq, alt, star, Repeats, stop, more, Matches,
}
use servertech_chat.Email.Matcher.{matches_iff}
use servertech_chat.Email.{is_letter, is_digit, octet, local_part, domain, email_regex, is_email}

-- The bytes that an expression asks for all have the property.
abbrev pub Within : (ℕ → Bool) → Regex → Type 0
Within p nothing = Unit {0}
Within p empty = Unit {0}
Within p (one q) = (c : ℕ) → q c ≡ true → p c ≡ true
Within p (seq r q) = Within p r × Within p q
Within p (alt r q) = Within p r × Within p q
Within p (star r) = Within p r

both_all :
    (p : ℕ → Bool) (s t u : Bytes) → u ≡ s ++ t → all p s ≡ true → all p t ≡ true → all p u ≡ true
both_all p s t u e h k = ap (all p) e ∙ ground (arith, all-append p s t, h, k)

parts_all :
    (p : ℕ → Bool) (P : Bytes → Type 0) (u : Bytes)
    → ((s : Bytes) → P s → all p s ≡ true)
    → Repeats P u
    → all p u ≡ true
parts_all p P u each stop = refl
parts_all p P u each (more s t _ e m rest) =
    both_all p s t u e (each s m) (parts_all p P t each rest)

pub all-Within : (p : ℕ → Bool) (r : Regex) (u : Bytes) → Within p r → Matches r u → all p u ≡ true
all-Within p nothing u w m = cc m
all-Within p empty u w m = ap (all p) m
all-Within p (one q) u w (c, e, h) = ap (all p) e ∙ ground (arith, w c h)
all-Within p (seq r q) u (v, w) (s, t, e, m, n) =
    both_all p s t u e (all-Within p r s v m) (all-Within p q t w n)
all-Within p (alt r q) u (v, w) (inl m) = all-Within p r u v m
all-Within p (alt r q) u (v, w) (inr m) = all-Within p q u w m
all-Within p (star r) u w m = parts_all p (Matches r) u (λ s. all-Within p r s w) m

-- Letters, digits, `-`, `.` and brackets.
abbrev pub is_domain_byte : ℕ → Bool
is_domain_byte c = is_letter c || is_digit c || c == b'-' || c == b'.' || c == b'[' || c == b']'

digit_domain : (c : ℕ) → is_digit c ≡ true → is_domain_byte c ≡ true
digit_domain c h = ground (arith, h)

letter_domain : (c : ℕ) → is_letter c ≡ true → is_domain_byte c ≡ true
letter_domain c h = ground (arith, h)

label_domain : (c : ℕ) → (is_letter c || c == b'-' || is_digit c) ≡ true → is_domain_byte c ≡ true
label_domain c h = ground (arith, h)

dot_domain : (c : ℕ) → (c == b'.') ≡ true → is_domain_byte c ≡ true
dot_domain c h = ground (arith, h)

open_domain : (c : ℕ) → (c == b'[') ≡ true → is_domain_byte c ≡ true
open_domain c h = ground (arith, h)

close_domain : (c : ℕ) → (c == b']') ≡ true → is_domain_byte c ≡ true
close_domain c h = ground (arith, h)

module _ (is_space : ℕ → Bool) where
  octet-Within : Within is_domain_byte (octet is_space)
  octet-Within = (digit_domain, (tt, (digit_domain, (tt, digit_domain))))

  domain-Within : Within is_domain_byte (domain is_space)
  domain-Within = (
    (
      open_domain,
      (
        octet-Within,
        (
          dot_domain,
          (octet-Within, (dot_domain, (octet-Within, (dot_domain, (octet-Within, close_domain))))),
        ),
      ),
    ),
    (
      (((label_domain, label_domain), dot_domain), ((label_domain, label_domain), dot_domain)),
      (letter_domain, (letter_domain, letter_domain)),
    ),
  )

  -- is_email says yes exactly to the texts that its expression describes.
  pub is_email_iff :
      (email : Bytes) → (is_email is_space email ≡ true) ↔ Matches (email_regex is_space) email
  unfolding is_email
  is_email_iff email = matches_iff (email_regex is_space) email

  -- A text that is_email takes is a local part of the expression, an `@`, and a domain of the
  -- expression, of which every byte is a letter, a digit, `-`, `.` or a bracket: so that the last
  -- `@` of the text is the one between them.
  pub is_email_lem :
      (email : Bytes)
      → is_email is_space email ≡ true
      → (local : Bytes) × (host : Bytes) × (email ≡ local ++ b'@' ∷ host)
        × Matches (local_part is_space) local
        × Matches (domain is_space) host
        × (all is_domain_byte host ≡ true)
  unfolding email_regex
  is_email_lem email h =
      let (local, behind, e, m, (at, host, k, (c, at_is, is_at), n)) = (is_email_iff email).0 h in
      let same : c ≡ b'@' = (==_iff c b'@').0 is_at in
      (
        local,
        host,
        e ∙ ap (λ x. local ++ x) (k ∙ ap (λ x. x ++ host) at_is ∙ ap (λ x. x ∷ host) same),
        m,
        n,
        all-Within is_domain_byte (domain is_space) host domain-Within n,
      )
