-- ===== src/Base64/Tables.antt =====
-- The two tables of server/src/util/base64.cpp, and what they have to do with one another.
use servertech_chat.Prelude.{
  ℕ, ◌+◌, ◌-◌, ◌^◌, ◌<◌, ◌≤◌, ◌≡◌, ◌≢◌, ◌⊎◌, inl, inr, not, refl, ◌&&◌, Bool, true, false, Bytes,
  codes, List, [], ◌∷◌, Option, none, some, arith, ltb, ◌==◌, if◌then◌else◌, get_or, get_elem?,
  all_below, all_below_sound,
}

-- static constexpr char alphabet[]
unfoldable pub alphabet : Bytes
alphabet = codes "ABCDEFGHIJKLMNOPQRSTUVWXYZabcdefghijklmnopqrstuvwxyz0123456789+/"

-- `tab[v]`; the array ends in the literal's NUL.
unfoldable pub forward : ℕ → ℕ
unfolding alphabet
forward v = get_or alphabet v 0

abbrev nones : ℕ → List (Option ℕ) → List (Option ℕ)
nones ℕ.zero t = t
nones (ℕ.suc n) t = none ∷ nones n t

abbrev count_up : ℕ → ℕ → List (Option ℕ) → List (Option ℕ)
count_up from ℕ.zero t = t
count_up from (ℕ.suc n) t = some from ∷ count_up (from + 1) n t

-- static constexpr signed char inverse_tab[]; an entry of -1 is `none`.
unfoldable pub inverse_tab : List (Option ℕ)
inverse_tab = nones 43 (
    some 62
    ∷ nones 3 (
        some 63
        ∷ count_up 52 10 (nones 7 (count_up 0 26 (nones 6 (count_up 26 26 (nones 133 [])))))))

-- static_cast<std::size_t>(c) for a char with bit pattern `c`. `char` is signed, so a byte from 128
-- on is negative, and the conversion wraps around.
unfoldable pub char_to_size : ℕ → ℕ
char_to_size c = if ltb c 128 then c else 2 ^ 64 + c - 256

-- `inverse[static_cast<std::size_t>(c)]`: the outer `none` is a read outside the table.
unfoldable pub inverse : ℕ → Option (Option ℕ)
unfolding inverse_tab char_to_size
inverse c = get_elem? inverse_tab (char_to_size c)

is_value : ℕ → Option (Option ℕ) → Bool
is_value v (some (some w)) = v == w
is_value v _ = false

is_value→eq : (v : ℕ) (o : Option (Option ℕ)) → is_value v o ≡ true → o ≡ some (some v)
unfolding is_value
is_value→eq v (some (some w)) h = ground arith
is_value→eq v (some none) h = ground arith
is_value→eq v none h = ground arith

forward_table : all_below 64 (λ v. is_value v (inverse (forward v))) ≡ true
unfolding all_below inverse forward is_value
forward_table = refl

-- The inverse table undoes the forward table.
pub inverse-forward : (v : ℕ) → v < 64 → inverse (forward v) ≡ some (some v)
inverse-forward v h =
    is_value→eq v _ (all_below_sound 64 (λ x. is_value x (inverse (forward x))) v forward_table h)

is_place : ℕ → Option (Option ℕ) → Bool
is_place c none = true
is_place c (some none) = true
is_place c (some (some v)) = ltb v 64 && forward v == c

place_table : all_below 256 (λ c. is_place c (inverse c)) ≡ true
unfolding all_below inverse forward is_place
place_table = refl

is_place→place :
    (c v : ℕ) (o : Option (Option ℕ))
    → is_place c o ≡ true
    → o ≡ some (some v)
    → (v < 64) × (forward v ≡ c)
unfolding is_place
is_place→place c v none h e = cc
is_place→place c v (some none) h e = cc
is_place→place c v (some (some w)) h e = ground arith

-- The inverse table gives the place of a character in the alphabet.
pub forward-inverse : (c v : ℕ) → c < 256 → inverse c ≡ some (some v) → (v < 64) × (forward v ≡ c)
forward-inverse c v h e =
    is_place→place c v (inverse c)
      (all_below_sound 256 (λ x. is_place x (inverse x)) c place_table h) e

-- What a read of the inverse table can give.
pub inverse-cases :
    (c : ℕ)
    → (inverse c ≡ none) ⊎ ((inverse c ≡ some none) ⊎ ((v : ℕ) × (inverse c ≡ some (some v))))
inverse-cases c = cases (inverse c)
  where
    cases :
        (o : Option (Option ℕ)) → (o ≡ none) ⊎ ((o ≡ some none) ⊎ ((v : ℕ) × (o ≡ some (some v))))
    cases none = inl refl
    cases (some none) = inr (inl refl)
    cases (some (some v)) = inr (inr (v, refl))

in_range : Option (Option ℕ) → Bool
in_range none = false
in_range (some o) = true

ascii_table : all_below 128 (λ c. in_range (inverse c)) ≡ true
unfolding all_below inverse in_range
ascii_table = refl

-- The table is only read inside its bounds for an ASCII character,
pub inverse-ascii : (c : ℕ) → c < 128 → inverse c ≢ none
unfolding in_range
inverse-ascii c h e = cc (e, all_below_sound 128 (λ x. in_range (inverse x)) c ascii_table h)

high_table : all_below 128 (λ c. not (in_range (inverse (c + 128)))) ≡ true
unfolding all_below inverse in_range
high_table = refl

outside→none : (o : Option (Option ℕ)) → not (in_range o) ≡ true → o ≡ none
unfolding in_range
outside→none none n = refl
outside→none (some o) n = ground arith

-- and outside of them for every other byte.
pub inverse-high : (c : ℕ) → c < 256 → 128 ≤ c → inverse c ≡ none
inverse-high c h k =
    let e : c - 128 + 128 ≡ c = omega arith in
    let n : inverse (c - 128 + 128) ≡ none = outside→none _ (
      all_below_sound 128 (λ x. not (in_range (inverse (x + 128)))) (c - 128) high_table
        (omega arith)) in
    rw e at n
