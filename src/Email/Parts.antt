-- ===== src/Email/Parts.antt =====
-- Texts that parts of an expression describe.
use servertech_chat.Prelude.{
  ℕ, ◌≤◌, ==_iff, ==_refl, Bool, true, all, All, length, Bytes, List, [], ◌∷◌, ◌++◌, ◌≡◌, ◌≢◌, ◌↔◌,
  inl, inr, refl, ap, ◌∙◌, arith,
}
use servertech_chat.Email.Expressions.{
  Regex, one, seq, star, plus, literal, one_to_three, two_or_more, Repeats, stop, more, Matches,
}
use servertech_chat.Email.Shape.{all-Within}

-- A text that is not empty, of bytes with the property.
abbrev pub Filled : (ℕ → Bool) → Bytes → Type 0
Filled p u = (u ≢ []) × (all p u ≡ true)

-- One text behind the other, each written by `f`.
abbrev pub joined : (Bytes → Bytes) → List Bytes → Bytes
joined f [] = []
joined f (part ∷ parts) = f part ++ joined f parts

module _ (p : ℕ → Bool) where
  pub star_one : (u : Bytes) → Matches (star (one p)) u ↔ (all p u ≡ true)
  star_one u = (all-Within p (star (one p)) u (λ c h. h), back u)
    where
      back : (u : Bytes) → all p u ≡ true → Matches (star (one p)) u
      back [] h = stop
      back (c ∷ u) h =
          more (c ∷ []) u (c ∷ u) refl (c, refl, ground (arith, h)) (back u (ground (arith, h)))

  pub plus_one : (u : Bytes) → Matches (plus (one p)) u ↔ Filled p u
  plus_one u = (
    λ (s, t, e, (c, k, h), m). (
      λ none. cc (none, e, k),
      ap (all p) (e ∙ ap (λ x. x ++ t) k) ∙ ground (arith, h, (star_one t).0 m),
    ),
    back u,
  )
    where
      back : (u : Bytes) → Filled p u → Matches (plus (one p)) u
      back [] (some_bytes, h) = absurd (some_bytes refl)
      back (c ∷ u) (some_bytes, h) =
          (c ∷ [], u, refl, (c, refl, ground (arith, h)), (star_one u).1 (ground (arith, h)))

pub literal_iff : (c : ℕ) (u : Bytes) → Matches (literal c) u ↔ (u ≡ c ∷ [])
literal_iff c u = (λ (x, e, h). e ∙ ap (λ y. y ∷ []) ((==_iff x c).0 h), λ e. (c, e, ==_refl c))

-- Repetitions, when each part is a text with a property, written by `f`.
module _ (P Q : Bytes → Type 0) (f : Bytes → Bytes) where
  pub Repeats-joined :
      ((s : Bytes) → P s → (x : Bytes) × Q x × (s ≡ f x))
      → (u : Bytes) → Repeats P u
      → (xs : List Bytes) × All Q xs × (u ≡ joined f xs)
  Repeats-joined to [] stop = ([], tt, refl)
  Repeats-joined to u (more s t _ e h rest) =
      let (x, q, k) = to s h in
      let (xs, qs, l) = Repeats-joined to t rest in
      (x ∷ xs, (q, qs), e ∙ ap (λ y. y ++ t) k ∙ ap (λ y. f x ++ y) l)

  pub joined-Repeats :
      ((x : Bytes) → Q x → P (f x)) → (xs : List Bytes) → All Q xs → Repeats P (joined f xs)
  joined-Repeats of [] qs = stop
  joined-Repeats of (x ∷ xs) (q, qs) =
      more (f x) (joined f xs) (f x ++ joined f xs) refl (of x q) (joined-Repeats of xs qs)

-- Sequences that begin with a byte, and with an octet.
pub literal_then :
    (c : ℕ) (r : Regex) (u : Bytes)
    → Matches (seq (literal c) r) u
    → (t : Bytes) × (u ≡ c ∷ t) × Matches r t
literal_then c r u (s, t, e, l, m) = (t, e ∙ ap (λ x. x ++ t) ((literal_iff c s).0 l), m)

pub then_literal :
    (c : ℕ) (r : Regex) (t : Bytes) → Matches r t → Matches (seq (literal c) r) (c ∷ t)
then_literal c r t m = (c ∷ [], t, refl, (literal_iff c (c ∷ [])).1 refl, m)

module _ (p : ℕ → Bool) where
  -- One to three bytes.
  pub one_to_three_iff :
      (u : Bytes)
      → Matches (one_to_three (one p)) u ↔ ((all p u ≡ true) × (1 ≤ length u) × (length u ≤ 3))
  one_to_three_iff u = (to u, back u)
    where
      to :
          (u : Bytes)
          → Matches (one_to_three (one p)) u
          → (all p u ≡ true) × (1 ≤ length u) × (length u ≤ 3)
      to u (s, t, e, (a, k, h), inl l) = rw (e, k, l) (ground (arith, h), omega arith, omega arith)
      to u (s, t, e, (a, k, h), inr (s', t', e', (b, k', h'), inl l)) =
          rw (e, k, e', k', l) (ground (arith, h, h'), omega arith, omega arith)
      to u (s, t, e, (a, k, h), inr (s', t', e', (b, k', h'), inr (c, k'', h''))) =
          rw (e, k, e', k', k'') (ground (arith, h, h', h''), omega arith, omega arith)

      back :
          (u : Bytes)
          → (all p u ≡ true) × (1 ≤ length u) × (length u ≤ 3)
          → Matches (one_to_three (one p)) u
      back [] (h, low, high) = absurd (omega (arith, low))
      back (a ∷ []) (h, low, high) = (a ∷ [], [], refl, (a, refl, ground (arith, h)), inl refl)
      back (a ∷ b ∷ []) (h, low, high) = (
        a ∷ [],
        b ∷ [],
        refl,
        (a, refl, ground (arith, h)),
        inr (b ∷ [], [], refl, (b, refl, ground (arith, h)), inl refl),
      )
      back (a ∷ b ∷ c ∷ []) (h, low, high) = (
        a ∷ [],
        b ∷ c ∷ [],
        refl,
        (a, refl, ground (arith, h)),
        inr (b ∷ [], c ∷ [], refl, (b, refl, ground (arith, h)), inr (c, refl, ground (arith, h))),
      )
      back (a ∷ b ∷ c ∷ d ∷ u) (h, low, high) = absurd (omega (arith, high))

  both_true :
      (a b : ℕ) (u : Bytes) → p a ≡ true → p b ≡ true → all p u ≡ true → all p (a ∷ b ∷ u) ≡ true
  both_true a b u h k l = ground (arith, h, k, l)

  pub two_or_more_iff :
      (u : Bytes) → Matches (two_or_more (one p)) u ↔ ((all p u ≡ true) × (2 ≤ length u))
  two_or_more_iff u = (to, back u)
    where
      to : Matches (two_or_more (one p)) u → (all p u ≡ true) × (2 ≤ length u)
      to (s, t, e, (a, k, h), (s', t', e', (b, k', h'), m)) =
          rw (e, k, e', k') (both_true a b t' h h' ((star_one p t').0 m), omega arith)

      back : (u : Bytes) → (all p u ≡ true) × (2 ≤ length u) → Matches (two_or_more (one p)) u
      back [] (h, low) = absurd (omega (arith, low))
      back (a ∷ []) (h, low) = absurd (omega (arith, low))
      back (a ∷ b ∷ u) (h, low) = (
        a ∷ [],
        b ∷ u,
        refl,
        (a, refl, ground (arith, h)),
        (plus_one p (b ∷ u)).1 (λ e. cc e, ground (arith, h)),
      )
