-- ===== src/Cookie/Chars.antt =====
-- The two character tables of server/src/util/cookie.cpp.
use servertech_chat.Prelude.{
  ℕ, List, [], ◌∷◌, Bool, true, false, ◌==◌, get_or, ◌≡◌, refl, not, all_below,
}
use servertech_chat.Base64.Tables.{forward}

abbrev row : (a b c d e f g h i j k l m n o p : ℕ) → List ℕ → List ℕ
row a b c d e f g h i j k l m n o p t =
    a ∷ b ∷ c ∷ d ∷ e ∷ f ∷ g ∷ h ∷ i ∷ j ∷ k ∷ l ∷ m ∷ n ∷ o ∷ p ∷ t

token_tab : List ℕ
token_tab = row 0 0 0 0 0 0 0 0 0 0 0 0 0 0 0 0 (
    row 0 0 0 0 0 0 0 0 0 0 0 0 0 0 0 0 (
      row 0 1 0 1 1 1 1 1 0 0 1 1 0 1 1 0 (
        row 1 1 1 1 1 1 1 1 1 1 0 0 0 0 0 0 (
          row 0 1 1 1 1 1 1 1 1 1 1 1 1 1 1 1 (
            row 1 1 1 1 1 1 1 1 1 1 1 0 0 0 1 1 (
              row 1 1 1 1 1 1 1 1 1 1 1 1 1 1 1 1 (
                row 1 1 1 1 1 1 1 1 1 1 1 0 1 0 1 0 (
                  row 0 0 0 0 0 0 0 0 0 0 0 0 0 0 0 0 (
                    row 0 0 0 0 0 0 0 0 0 0 0 0 0 0 0 0 (
                      row 0 0 0 0 0 0 0 0 0 0 0 0 0 0 0 0 (
                        row 0 0 0 0 0 0 0 0 0 0 0 0 0 0 0 0 (
                          row 0 0 0 0 0 0 0 0 0 0 0 0 0 0 0 0 (
                            row 0 0 0 0 0 0 0 0 0 0 0 0 0 0 0 0 (
                              row 0 0 0 0 0 0 0 0 0 0 0 0 0 0 0 0
                                (row 0 0 0 0 0 0 0 0 0 0 0 0 0 0 0 0 [])))))))))))))))

cookie_value_tab : List ℕ
cookie_value_tab = row 0 0 0 0 0 0 0 0 0 0 0 0 0 0 0 0 (
    row 0 0 0 0 0 0 0 0 0 0 0 0 0 0 0 0 (
      row 0 1 0 1 1 1 1 1 1 1 1 1 0 1 1 1 (
        row 1 1 1 1 1 1 1 1 1 1 1 0 1 1 1 1 (
          row 1 1 1 1 1 1 1 1 1 1 1 1 1 1 1 1 (
            row 1 1 1 1 1 1 1 1 1 1 1 1 0 1 1 1 (
              row 1 1 1 1 1 1 1 1 1 1 1 1 1 1 1 1 (
                row 1 1 1 1 1 1 1 1 1 1 1 1 1 1 1 0 (
                  row 0 0 0 0 0 0 0 0 0 0 0 0 0 0 0 0 (
                    row 0 0 0 0 0 0 0 0 0 0 0 0 0 0 0 0 (
                      row 0 0 0 0 0 0 0 0 0 0 0 0 0 0 0 0 (
                        row 0 0 0 0 0 0 0 0 0 0 0 0 0 0 0 0 (
                          row 0 0 0 0 0 0 0 0 0 0 0 0 0 0 0 0 (
                            row 0 0 0 0 0 0 0 0 0 0 0 0 0 0 0 0 (
                              row 0 0 0 0 0 0 0 0 0 0 0 0 0 0 0 0
                                (row 0 0 0 0 0 0 0 0 0 0 0 0 0 0 0 0 [])))))))))))))))

-- `tab[static_cast<unsigned char>(c)]`
unfoldable pub is_token_char : ℕ → Bool
unfolding token_tab
is_token_char c = not (get_or token_tab c 0 == 0)

unfoldable pub is_cookie_value_char : ℕ → Bool
unfolding cookie_value_tab
is_cookie_value_char c = not (get_or cookie_value_tab c 0 == 0)

-- The characters that delimit a cookie are no token characters.
pub delimiters_no_token :
    (is_token_char b'=' ≡ false)
    × (is_token_char b';' ≡ false)
    × (is_token_char b' ' ≡ false)
    × (is_token_char b'\t' ≡ false)
unfolding is_token_char
delimiters_no_token = (refl, refl, refl, refl)

-- Nor are those behind a value, and the quote, characters of a value.
pub delimiters_no_value :
    (is_cookie_value_char b';' ≡ false)
    × (is_cookie_value_char b' ' ≡ false)
    × (is_cookie_value_char b'\t' ≡ false)
    × (is_cookie_value_char b'"' ≡ false)
unfolding is_cookie_value_char
delimiters_no_value = (refl, refl, refl, refl)

-- Every character of the base64 alphabet may stand in a cookie value,
pub alphabet_table : all_below 64 (λ v. is_cookie_value_char (forward v)) ≡ true
unfolding all_below forward is_cookie_value_char
alphabet_table = refl

-- and so may the padding character.
pub padding-is_cookie_value_char : is_cookie_value_char b'=' ≡ true
unfolding is_cookie_value_char
padding-is_cookie_value_char = refl
