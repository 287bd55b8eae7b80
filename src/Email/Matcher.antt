-- ===== src/Email/Matcher.antt =====
-- The matcher decides what an expression describes.
use servertech_chat.Prelude.{
  ℕ, Bool, true, false, Bool-cases, Bytes, [], ◌∷◌, ◌++◌, ◌≡◌, ◌↔◌, inl, inr, refl, ap, sym, ◌∙◌,
  subst, arith, if◌then◌else◌,
}
use servertech_chat.Email.Expressions.{
  Regex, nothing, empty, one, seq, alt, star, Repeats, stop, more, Matches, nullable, derive,
  matches,
}

no_parts : (s t : Bytes) → [] ≡ s ++ t → (s ≡ []) × (t ≡ [])
no_parts [] t e = (refl, sym e)
no_parts (x ∷ s) t e = cc e

nullable-Matches : (r : Regex) → nullable r ≡ true → Matches r []
unfolding nullable
nullable-Matches nothing h = cc h
nullable-Matches empty h = refl
nullable-Matches (one p) h = cc h
nullable-Matches (seq r q) h =
    ([], [], refl, nullable-Matches r (ground (arith, h)), nullable-Matches q (ground (arith, h)))
nullable-Matches (alt r q) h = elim (Bool-cases (nullable r)) [
  | inl some_left ↦ inl (nullable-Matches r some_left)
  | inr none_left ↦ inr (nullable-Matches q (ground (arith, h, none_left)))
]
nullable-Matches (star r) h = stop

Matches-nullable : (r : Regex) → Matches r [] → nullable r ≡ true
unfolding nullable
Matches-nullable nothing m = cc m
Matches-nullable empty m = refl
Matches-nullable (one p) (c, e, _) = cc e
Matches-nullable (seq r q) (s, t, e, m, n) =
    let (no_s, no_t) = no_parts s t e in
    ground (
      arith,
      Matches-nullable r (subst (Matches r) no_s m),
      Matches-nullable q (subst (Matches q) no_t n),
    )
Matches-nullable (alt r q) (inl m) = ground (arith, Matches-nullable r m)
Matches-nullable (alt r q) (inr m) = ground (arith, Matches-nullable q m)
Matches-nullable (star r) m = refl

one_derived :
    (p : ℕ → Bool) (c : ℕ) (u : Bytes) (b : Bool)
    → p c ≡ b
    → Matches (if b then empty else nothing) u
    → Matches (one p) (c ∷ u)
one_derived p c u true e m = (c, ap (λ x. c ∷ x) m, e)
one_derived p c u false e m = cc m

derive-Matches : (c : ℕ) (r : Regex) (u : Bytes) → Matches (derive c r) u → Matches r (c ∷ u)
unfolding derive
derive-Matches c nothing u m = cc m
derive-Matches c empty u m = cc m
derive-Matches c (one p) u m = one_derived p c u (p c) refl m
derive-Matches c (seq r q) u (inl (s, t, e, m, n)) =
    (c ∷ s, t, ap (λ x. c ∷ x) e, derive-Matches c r s m, n)
derive-Matches c (seq r q) u (inr m) = later (nullable r) refl m (derive-Matches c q u)
  where
    later :
        (b : Bool)
        → nullable r ≡ b
        → Matches (if b then derive c q else nothing) u
        → (Matches (derive c q) u → Matches q (c ∷ u))
        → Matches (seq r q) (c ∷ u)
    later true e m rest = ([], c ∷ u, refl, nullable-Matches r e, rest m)
    later false e m rest = cc m
derive-Matches c (alt r q) u (inl m) = inl (derive-Matches c r u m)
derive-Matches c (alt r q) u (inr m) = inr (derive-Matches c q u m)
derive-Matches c (star r) u (s, t, e, m, n) =
    more (c ∷ s) t (c ∷ u) (ap (λ x. c ∷ x) e) (derive-Matches c r s m) n

-- The parts of a text with a first byte: the first part that is not empty begins with it.
first_part :
    (r : Regex) (c : ℕ) (u v : Bytes)
    → v ≡ c ∷ u
    → Repeats (Matches r) v
    → (s : Bytes) × (t : Bytes) × (u ≡ s ++ t) × Matches r (c ∷ s) × Repeats (Matches r) t
first_part r c u v e stop = cc e
first_part r c u v e (more [] t _ k m rest) = first_part r c u t (sym k ∙ e) rest
first_part r c u v e (more (x ∷ s) t _ k m rest) =
    let both : x ∷ (s ++ t) ≡ c ∷ u = sym k ∙ e in
    let head : x ≡ c = cc both in
    let tail : s ++ t ≡ u = cc both in (s, t, sym tail, subst (λ y. Matches r (y ∷ s)) head m, rest)

Matches-derive : (c : ℕ) (r : Regex) (u : Bytes) → Matches r (c ∷ u) → Matches (derive c r) u
unfolding derive
Matches-derive c nothing u m = m
Matches-derive c empty u m = cc m
Matches-derive c (one p) u (x, e, h) =
    let head : c ≡ x = cc e in let tail : u ≡ [] = cc e in rw (ap p head ∙ h) tail
Matches-derive c (seq r q) u ([], t, e, m, n) =
    inr (rw (Matches-nullable r m) (Matches-derive c q u (subst (Matches q) (sym e) n)))
Matches-derive c (seq r q) u (x ∷ s, t, e, m, n) =
    let head : x ≡ c = cc e in
    let tail : u ≡ s ++ t = cc e in
    inl (s, t, tail, Matches-derive c r s (subst (λ y. Matches r (y ∷ s)) head m), n)
Matches-derive c (alt r q) u (inl m) = inl (Matches-derive c r u m)
Matches-derive c (alt r q) u (inr m) = inr (Matches-derive c q u m)
Matches-derive c (star r) u m =
    let (s, t, e, first, rest) = first_part r c u (c ∷ u) refl m in
    (s, t, e, Matches-derive c r s first, rest)

-- A text is matched exactly if the expression describes it.
pub matches_iff : (r : Regex) (u : Bytes) → (matches r u ≡ true) ↔ Matches r u
unfolding matches
matches_iff r [] = (nullable-Matches r, Matches-nullable r)
matches_iff r (c ∷ u) =
    let (only, all) = matches_iff (derive c r) u in
    (λ h. derive-Matches c r u (only h), λ m. all (Matches-derive c r u m))
