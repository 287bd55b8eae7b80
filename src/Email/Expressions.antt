-- ===== src/Email/Expressions.antt =====
-- Regular expressions over bytes, what they match, and a matcher by derivatives.
use servertech_chat.Prelude.{
  ℕ, ◌&&◌, ◌||◌, ◌==◌, Bool, true, false, Bytes, [], ◌∷◌, ◌++◌, ◌≡◌, ◌⊎◌, if◌then◌else◌,
}

pub data Regex : Type 0 where
  nothing empty : Regex
  one : (ℕ → Bool) → Regex
  seq alt : Regex → Regex → Regex
  star : Regex → Regex

-- A text cut into parts, each with the property.
pub data Repeats (P : Bytes → Type 0) : Bytes → Type 0 where
  stop : Repeats P []
  more : (s t u : Bytes) → u ≡ s ++ t → P s → Repeats P t → Repeats P u

-- The texts that an expression describes.
abbrev pub Matches : Regex → Bytes → Type 0
Matches nothing u = true ≡ false
Matches empty u = u ≡ []
Matches (one p) u = (c : ℕ) × (u ≡ c ∷ []) × (p c ≡ true)
Matches (seq r q) u = (s : Bytes) × (t : Bytes) × (u ≡ s ++ t) × Matches r s × Matches q t
Matches (alt r q) u = Matches r u ⊎ Matches q u
Matches (star r) u = Repeats (Matches r) u

abbrev pub literal : ℕ → Regex
literal c = one (λ x. x == c)

abbrev pub plus : Regex → Regex
plus r = seq r (star r)

-- `{1,3}` and `{2}`
abbrev pub one_to_three : Regex → Regex
one_to_three r = seq r (alt empty (seq r (alt empty r)))

abbrev pub two_or_more : Regex → Regex
two_or_more r = seq r (plus r)

unfoldable pub nullable : Regex → Bool
nullable nothing = false
nullable empty = true
nullable (one p) = false
nullable (seq r q) = let rest = nullable q in nullable r && rest
nullable (alt r q) = let rest = nullable q in nullable r || rest
nullable (star r) = true

-- What may follow behind the byte.
unfoldable pub derive : ℕ → Regex → Regex
unfolding nullable
derive c nothing = nothing
derive c empty = nothing
derive c (one p) = if p c then empty else nothing
derive c (seq r q) =
    let later = derive c q in alt (seq (derive c r) q) (if nullable r then later else nothing)
derive c (alt r q) = alt (derive c r) (derive c q)
derive c (star r) = seq (derive c r) (star r)

unfoldable pub matches : Regex → Bytes → Bool
unfolding derive nullable
matches r [] = nullable r
matches r (c ∷ u) = matches (derive c r) u
