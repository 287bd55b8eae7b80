-- ===== src/Cookie/Scan.antt =====
-- The scanning loops and the views between two pointers.
use servertech_chat.Prelude.{
  ℕ, zero, suc, ◌≤◌, ◌≡◌, append-nil, refl, sym, subst, ap, Bool, true, false, Bytes, [], ◌∷◌, ◌++◌,
  arith, length, length-append, take, all, Bool-cases, inl, inr,
}
use servertech_chat.Cookie.{skip_while, view}

-- A scan with the test `p` stops before `src`.
abbrev pub Stops : (ℕ → Bool) → Bytes → Type 0
Stops p [] = Unit {0}
Stops p (c ∷ src) = p c ≡ false

take-append : (xs ys : Bytes) (n : ℕ) → n ≡ length xs → take n (xs ++ ys) ≡ xs
take-append [] ys zero e = refl
take-append [] ys (suc n) e = absurd (omega arith)
take-append (x ∷ xs) ys zero e = absurd (omega arith)
take-append (x ∷ xs) ys (suc n) e = ap (◌∷◌ x) (take-append xs ys n (omega arith))

-- The view from a pointer up to a later one is what stands between them.
pub view-append : (xs ys : Bytes) → view (xs ++ ys) ys ≡ xs
unfolding view
view-append xs ys = take-append xs ys _ (omega (arith, length-append xs ys))

module _ (p : ℕ → Bool) where
  pub skip_while-append :
      (xs ys : Bytes) → all p xs ≡ true → Stops p ys → skip_while p (xs ++ ys) ≡ ys
  unfolding skip_while
  skip_while-append [] [] h s = refl
  skip_while-append [] (c ∷ ys) h s = rw s
  skip_while-append (x ∷ xs) ys h s = ground (arith, skip_while-append xs ys)

  -- A scan takes a prefix of characters that pass the test, and stops before one that does not.
  pub skip_while-splits :
      (src : Bytes)
      → (xs : Bytes) × (src ≡ xs ++ skip_while p src)
        × (all p xs ≡ true)
        × Stops p (skip_while p src)
  unfolding skip_while
  skip_while-splits [] = ([], refl, refl, tt)
  skip_while-splits (c ∷ src) = elim (Bool-cases (p c)) [
    | inl good ↦
        let (xs, e, h, s) = skip_while-splits src in
        (c ∷ xs, rw good (ap (◌∷◌ c) e), ground arith, rw good s)
    | inr bad ↦ ([], rw bad, refl, rw bad bad)
  ]

  pub length-skip_while-le : (src : Bytes) → length (skip_while p src) ≤ length src
  length-skip_while-le src =
      let (xs, e, _, _) = skip_while-splits src in
      omega (arith, ap length e, length-append xs (skip_while p src))

  -- The view from where a scan began to where it stopped.
  pub view-skip_while :
      (src : Bytes)
      → (src ≡ view src (skip_while p src) ++ skip_while p src)
        × (all p (view src (skip_while p src)) ≡ true)
  view-skip_while src =
      let (xs, e, good, _) = skip_while-splits src in
      let v : view src (skip_while p src) ≡ xs =
        subst (λ s. view s (skip_while p src) ≡ xs) (sym e) (view-append xs (skip_while p src)) in
      rw v (e, good)

  pub skip_while-all : (src : Bytes) → all p src ≡ true → skip_while p src ≡ []
  skip_while-all src h = rw append-nil at (skip_while-append src [] h tt)
