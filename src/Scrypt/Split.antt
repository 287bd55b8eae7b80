-- ===== src/Scrypt/Split.antt =====
-- `find` and `substr` of std::string_view, as the PHC parser uses them.
use servertech_chat.Prelude.{
  ℕ, Bool, not, all, true, ◌==◌, Bytes, List, [], ◌∷◌, ◌++◌, Option, none, some, if◌then◌else◌, ◌≡◌,
  arith,
}

abbrev pub prepend : ℕ → Option (Bytes × Bytes) → Option (Bytes × Bytes)
prepend c none = none
prepend c (some (before, after)) = some (c ∷ before, after)

-- What is before and behind the first `sep`; `none` for npos.
unfoldable pub split : ℕ → Bytes → Option (Bytes × Bytes)
split sep [] = none
split sep (c ∷ from) =
    let later = split sep from in if c == sep then some ([], from) else prepend c later

abbrev pub extend : ℕ → List Bytes → List Bytes
extend c [] = (c ∷ []) ∷ []
extend c (piece ∷ more) = (c ∷ piece) ∷ more

-- The texts between the separators, which the loop visits in turn.
unfoldable pub pieces : ℕ → Bytes → List Bytes
pieces sep [] = [] ∷ []
pieces sep (c ∷ from) = let rest = pieces sep from in if c == sep then [] ∷ rest else extend c rest

abbrev pub differs : ℕ → ℕ → Bool
differs sep c = not (c == sep)

pub split-append :
    (sep : ℕ) (xs ys : Bytes)
    → all (differs sep) xs ≡ true
    → split sep (xs ++ (sep ∷ ys)) ≡ some (xs, ys)
unfolding split
split-append sep [] ys h = ground arith
split-append sep (x ∷ xs) ys h = ground (arith, split-append sep xs ys)
