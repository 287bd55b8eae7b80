-- ===== src/Email/Described.antt =====
-- An email, described without an expression.
use servertech_chat.Prelude.{
  ℕ, leb, Bool, true, all, All, Bytes, List, [], ◌∷◌, ◌++◌, ◌≡◌, ◌≢◌, ◌↔◌, ◌⊎◌, inl, inr, refl, ap,
  sym, ◌∙◌, arith, subst,
}
use servertech_chat.Email.Expressions.{Regex, one, seq, plus, literal, Matches}
use servertech_chat.Email.{is_atom, local_part, domain, email_regex, is_email}
use servertech_chat.Email.Shape.{is_email_iff}
use servertech_chat.Email.Domain.{IsDomain, Matches-IsDomain}
use servertech_chat.Email.Parts.{
  Filled, joined, plus_one, literal_iff, Repeats-joined, joined-Repeats, literal_then, then_literal,
}

-- Atoms with a dot between them, or any text in quotes.
abbrev pub IsLocal : (ℕ → Bool) → Bytes → Type 0
IsLocal is_space u =
    ((first : Bytes) × (parts : List Bytes) × Filled (is_atom is_space) first
      × All (Filled (is_atom is_space)) parts
      × (u ≡ first ++ joined (λ part. b'.' ∷ part) parts))
    ⊎ ((text : Bytes) × (text ≢ []) × (u ≡ b'"' ∷ text ++ b'"' ∷ []))

abbrev pub IsEmail : (ℕ → Bool) → Bytes → Type 0
IsEmail is_space u =
    (local : Bytes) × (host : Bytes) × (u ≡ local ++ b'@' ∷ host)
    × IsLocal is_space local
    × IsDomain host

module _ (is_space : ℕ → Bool) where
  dot_iff :
      (u : Bytes)
      → Matches (seq (literal b'.') (plus (one (is_atom is_space)))) u
        ↔ ((x : Bytes) × Filled (is_atom is_space) x × (u ≡ b'.' ∷ x))
  dot_iff u = (
    λ m.
        let (x, e, f) = literal_then b'.' (plus (one (is_atom is_space))) u m in
        (x, (plus_one (is_atom is_space) x).0 f, e),
    λ (x, f, e).
        subst (Matches (seq (literal b'.') (plus (one (is_atom is_space))))) (sym e) (
          then_literal b'.' (plus (one (is_atom is_space))) x
            ((plus_one (is_atom is_space) x).1 f)),
  )

  abbrev dot_part : Regex
  dot_part = seq (literal b'.') (plus (one (is_atom is_space)))

  any_byte : (u : Bytes) → all (λ c. leb 0 c) u ≡ true
  any_byte [] = refl
  any_byte (c ∷ u) = ground (arith, any_byte u)

  Matches-IsLocal : (u : Bytes) → Matches (local_part is_space) u ↔ IsLocal is_space u
  Matches-IsLocal u = (to, back)
    where
      to : Matches (local_part is_space) u → IsLocal is_space u
      to (inl (s, t, e, m, rest)) =
          let (parts, fs, l) =
            Repeats-joined (Matches dot_part) (Filled (is_atom is_space)) (λ x. b'.' ∷ x)
              (λ part h. (dot_iff part).0 h) t rest in
          inl (s, parts, (plus_one (is_atom is_space) s).0 m, fs, e ∙ ap (λ x. s ++ x) l)
      to (inr m) =
          let (t, e, (x, t', e', f, l)) =
            literal_then b'"' (seq (plus (one (λ c. leb 0 c))) (literal b'"')) u m in
          inr (
            x,
            ((plus_one (λ c. leb 0 c) x).0 f).0,
            e ∙ ap (λ y. b'"' ∷ y) (e' ∙ ap (λ y. x ++ y) ((literal_iff b'"' t').0 l)),
          )

      back : IsLocal is_space u → Matches (local_part is_space) u
      back (inl (first, parts, filled, fs, e)) = inl (
        first,
        joined (λ x. b'.' ∷ x) parts,
        e,
        (plus_one (is_atom is_space) first).1 filled,
        joined-Repeats (Matches dot_part) (Filled (is_atom is_space)) (λ x. b'.' ∷ x)
            (λ part h. (dot_iff (b'.' ∷ part)).1 (part, h, refl)) parts fs,
      )
      back (inr (text, some_text, e)) = inr (
        b'"' ∷ [],
        text ++ b'"' ∷ [],
        e,
        (literal_iff b'"' (b'"' ∷ [])).1 refl,
        (
          text,
          b'"' ∷ [],
          refl,
          (plus_one (λ c. leb 0 c) text).1 (some_text, any_byte text),
          (literal_iff b'"' (b'"' ∷ [])).1 refl,
        ),
      )

  -- is_email takes exactly the texts that are a local part, an `@` and a domain: the local part one
  -- or more atoms with a dot between them, or a text in quotes; the domain four numbers of one to
  -- three digits, with dots between them and in brackets, or one or more labels of letters, digits
  -- and `-` with a dot behind each, and then two letters or more.
  pub is_email-IsEmail : (email : Bytes) → (is_email is_space email ≡ true) ↔ IsEmail is_space email
  unfolding email_regex
  is_email-IsEmail email = (
    λ h.
        let (local, behind, e, m, rest) = (is_email_iff is_space email).0 h in
        let (host, k, n) = literal_then b'@' (domain is_space) behind rest in
        (
          local,
          host,
          e ∙ ap (λ x. local ++ x) k,
          (Matches-IsLocal local).0 m,
          (Matches-IsDomain is_space host).0 n,
        ),
    λ (local, host, e, l, d). (is_email_iff is_space email).1 (
      local,
      b'@' ∷ host,
      e,
      (Matches-IsLocal local).1 l,
      then_literal b'@' (domain is_space) host ((Matches-IsDomain is_space host).1 d),
    ),
  )
