-- ===== src/Email/Domain.antt =====
-- The domain of an email, described without an expression.
use servertech_chat.Prelude.{
  ℕ, ◌≤◌, ◌==◌, ◌||◌, Bool, true, all, All, length, Bytes, List, [], ◌∷◌, ◌++◌, ◌≡◌, ◌≢◌, ◌↔◌, ◌⊎◌,
  inl, inr, refl, ap, sym, ◌∙◌, subst,
}
use servertech_chat.Email.Expressions.{Regex, one, seq, plus, literal, Matches}
use servertech_chat.Email.{is_letter, is_digit, octet, address_literal, domain_name, domain}
use servertech_chat.Email.Parts.{
  Filled, joined, plus_one, literal_iff, Repeats-joined, joined-Repeats, literal_then, then_literal,
  one_to_three_iff, two_or_more_iff,
}

abbrev pub IsOctet : Bytes → Type 0
IsOctet u = (all is_digit u ≡ true) × (1 ≤ length u) × (length u ≤ 3)

-- Four numbers in brackets, or labels with a dot behind each and two letters or more.
abbrev pub IsAddress : Bytes → Type 0
IsAddress u =
    (a : Bytes) × (b : Bytes) × (c : Bytes) × (d : Bytes) × IsOctet a
    × IsOctet b
    × IsOctet c
    × IsOctet d
    × (u ≡ b'[' ∷ (a ++ b'.' ∷ (b ++ b'.' ∷ (c ++ b'.' ∷ (d ++ b']' ∷ [])))))

abbrev pub label_byte : ℕ → Bool
label_byte c = is_letter c || c == b'-' || is_digit c

abbrev pub IsName : Bytes → Type 0
IsName u =
    (labels : List Bytes) × (top : Bytes) × (labels ≢ [])
    × All (Filled label_byte) labels
    × (all is_letter top ≡ true)
    × (2 ≤ length top)
    × (u ≡ joined (λ label. label ++ b'.' ∷ []) labels ++ top)

abbrev pub IsDomain : Bytes → Type 0
IsDomain u = IsAddress u ⊎ IsName u

module _ (is_space : ℕ → Bool) where
  -- An octet and a dot.
  octet_then :
      (r : Regex) (u : Bytes)
      → Matches (seq (octet is_space) (seq (literal b'.') r)) u
      → (a : Bytes) × (t : Bytes) × IsOctet a × (u ≡ a ++ b'.' ∷ t) × Matches r t
  octet_then r u (a, t, e, o, m) =
      let (t', e', m') = literal_then b'.' r t m in
      (a, t', (one_to_three_iff is_digit a).0 o, e ∙ ap (λ x. a ++ x) e', m')

  then_octet :
      (r : Regex) (a t : Bytes)
      → IsOctet a
      → Matches r t
      → Matches (seq (octet is_space) (seq (literal b'.') r)) (a ++ b'.' ∷ t)
  then_octet r a t o m =
      (a, b'.' ∷ t, refl, (one_to_three_iff is_digit a).1 o, then_literal b'.' r t m)

  -- The expression of an address from its first, second, third and last octet on.
  abbrev from_d : Regex
  from_d = seq (octet is_space) (literal b']')

  abbrev from_c : Regex
  from_c = seq (octet is_space) (seq (literal b'.') from_d)

  abbrev from_b : Regex
  from_b = seq (octet is_space) (seq (literal b'.') from_c)

  abbrev from_a : Regex
  from_a = seq (octet is_space) (seq (literal b'.') from_b)

  Matches-IsAddress : (u : Bytes) → Matches (address_literal is_space) u ↔ IsAddress u
  Matches-IsAddress u = (to, back)
    where
      to : Matches (address_literal is_space) u → IsAddress u
      to m =
          let (t, e, m0) = literal_then b'[' from_a u m in
          let (a, t1, oa, e1, m1) = octet_then from_b t m0 in
          let (b, t2, ob, e2, m2) = octet_then from_c t1 m1 in
          let (c, t3, oc, e3, (d, t4, e4, m4, m5)) = octet_then from_d t2 m2 in
          (
            a,
            b,
            c,
            d,
            oa,
            ob,
            oc,
            (one_to_three_iff is_digit d).0 m4,
            e
                ∙ ap (λ x. b'[' ∷ x)
                    (e1
                      ∙ ap (λ x. a ++ b'.' ∷ x)
                          (e2
                            ∙ ap (λ x. b ++ b'.' ∷ x)
                                (e3
                                  ∙ ap (λ x. c ++ b'.' ∷ x)
                                      (e4 ∙ ap (λ x. d ++ x) ((literal_iff b']' t4).0 m5))))),
          )

      back : IsAddress u → Matches (address_literal is_space) u
      back (a, b, c, d, oa, ob, oc, od, e) =
          let last : Matches from_d (d ++ b']' ∷ []) = (
            d,
            b']' ∷ [],
            refl,
            (one_to_three_iff is_digit d).1 od,
            (literal_iff b']' (b']' ∷ [])).1 refl,
          ) in
          subst (Matches (address_literal is_space)) (sym e) (
            then_literal b'[' from_a _ (
              then_octet from_b a _ oa
                (then_octet from_c b _ ob (then_octet from_d c (d ++ b']' ∷ []) oc last))))

  -- One label of a name, with its dot.
  label_iff :
      (u : Bytes)
      → Matches (seq (plus (one label_byte)) (literal b'.')) u
        ↔ ((x : Bytes) × Filled label_byte x × (u ≡ x ++ b'.' ∷ []))
  label_iff u = (
    λ (x, t, e, m, l). (x, (plus_one label_byte x).0 m, rw (e, (literal_iff b'.' t).0 l) refl),
    λ (x, f, e).
        (x, b'.' ∷ [], e, (plus_one label_byte x).1 f, (literal_iff b'.' (b'.' ∷ [])).1 refl),
  )

  abbrev label_part : Regex
  label_part = seq (plus (one label_byte)) (literal b'.')

  abbrev with_dot : Bytes → Bytes
  with_dot x = x ++ b'.' ∷ []

  Matches-IsName : (u : Bytes) → Matches (domain_name is_space) u ↔ IsName u
  Matches-IsName u = (to, back)
    where
      to : Matches (domain_name is_space) u → IsName u
      to (s, t, e, (s', t', e', m, rest), top) =
          let (x, f, k) = (label_iff s').0 m in
          let (xs, fs, l) =
            Repeats-joined (Matches label_part) (Filled label_byte) with_dot
              (λ part h. (label_iff part).0 h) t' rest in
          let (letters, two) = (two_or_more_iff is_letter t).0 top in
          (
            x ∷ xs,
            t,
            λ none. cc none,
            (f, fs),
            letters,
            two,
            e ∙ ap (λ y. y ++ t) (e' ∙ ap (λ y. y ++ t') k ∙ ap (λ y. with_dot x ++ y) l),
          )

      back : IsName u → Matches (domain_name is_space) u
      back ([], top, some_labels, filled, letters, two, e) = absurd (some_labels refl)
      back (x ∷ xs, top, some_labels, (f, fs), letters, two, e) = (
        joined with_dot (x ∷ xs),
        top,
        e,
        (
          with_dot x,
          joined with_dot xs,
          refl,
          (label_iff (with_dot x)).1 (x, f, refl),
          joined-Repeats (Matches label_part) (Filled label_byte) with_dot
              (λ part h. (label_iff (with_dot part)).1 (part, h, refl)) xs fs,
        ),
        (two_or_more_iff is_letter top).1 (letters, two),
      )

  pub Matches-IsDomain : (u : Bytes) → Matches (domain is_space) u ↔ IsDomain u
  Matches-IsDomain u = (to, back)
    where
      to : Matches (domain is_space) u → IsDomain u
      to (inl m) = inl ((Matches-IsAddress u).0 m)
      to (inr m) = inr ((Matches-IsName u).0 m)

      back : IsDomain u → Matches (domain is_space) u
      back (inl a) = inl ((Matches-IsAddress u).1 a)
      back (inr n) = inr ((Matches-IsName u).1 n)
