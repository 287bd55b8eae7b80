-- ===== src/Cookie/Build.antt =====
-- The Set-Cookie header, and the name-value-pair that a user agent reads in it.
use servertech_chat.Prelude.{
  ℕ, ◌≡◌, refl, ap, ◌∙◌, Bool, true, false, Bytes, [], ◌∷◌, ◌++◌, some, none, arith, all, ◌==◌,
  ==_iff, inl, inr, if◌then◌else◌, Bool-cases, Option,
}
use servertech_chat.Prelude.Decimal.{ℤ}
use servertech_chat.Error.{ok}
use servertech_chat.Cookie.Chars.{
  is_token_char, is_cookie_value_char, delimiters_no_token, delimiters_no_value,
}
use servertech_chat.Cookie.Attributes.{SameSite}
use servertech_chat.Cookie.Pairs.{IsCookie}
use servertech_chat.Cookie.Parse.{cookie_string, following, cookie_list-cookie_string}
use servertech_chat.Cookie.{
  is_valid_token, is_valid_cookie_value, CookiePair, SetCookieBuilder, set_cookie_builder,
  max_age_attribute, same_site_attribute, attributes, build_header, cookie_list,
}

-- RFC 6265, 5.2: the name-value-pair of a set-cookie-string is what stands before its first
-- semicolon. A user agent that has stored the cookie and sends it back, alone, writes this in its
-- Cookie header; whether it does depends on the attributes, which are not looked at here.
unfoldable pub name_value_pair : Bytes → Bytes
name_value_pair [] = []
name_value_pair (c ∷ rest) = let more = name_value_pair rest in if c == b';' then [] else c ∷ more

not_semicolon : (p : ℕ → Bool) → p b';' ≡ false → (c : ℕ) → p c ≡ true → (c == b';') ≡ false
not_semicolon p semi c h = elim (Bool-cases (c == b';')) [
  | inl e ↦ cc (h, semi, (==_iff c b';').0 e)
  | inr n ↦ n
]

name_value_pair-append :
    (p : ℕ → Bool) (xs ys : Bytes)
    → p b';' ≡ false
    → all p xs ≡ true
    → name_value_pair (xs ++ ys) ≡ xs ++ name_value_pair ys
unfolding name_value_pair
name_value_pair-append p [] ys semi h = refl
name_value_pair-append p (x ∷ xs) ys semi h =
    ground (arith, not_semicolon p semi x, name_value_pair-append p xs ys)

cut-append :
    (xs ys : Bytes)
    → name_value_pair xs ≡ []
    → name_value_pair ys ≡ []
    → name_value_pair (xs ++ ys) ≡ []
unfolding name_value_pair
cut-append [] ys h k = k
cut-append (x ∷ xs) ys h k = ground arith

cut_flag : (rest : Bytes) → name_value_pair (b';' ∷ rest) ≡ []
unfolding name_value_pair
cut_flag rest = refl

cut_if :
    (b : Bool) (xs : Bytes) → name_value_pair xs ≡ [] → name_value_pair (if b then xs else []) ≡ []
unfolding name_value_pair
cut_if true xs h = h
cut_if false xs h = refl

cut_max_age : (o : Option ℤ) → name_value_pair (max_age_attribute o) ≡ []
unfolding name_value_pair
cut_max_age none = refl
cut_max_age (some age) = refl

cut_same_site : (s : SameSite) → name_value_pair (same_site_attribute s) ≡ []
unfolding name_value_pair
cut_same_site SameSite.strict = refl
cut_same_site SameSite.lax = refl
cut_same_site SameSite.none = refl

equal_sign : (rest : Bytes) → name_value_pair (b'=' ∷ rest) ≡ b'=' ∷ name_value_pair rest
unfolding name_value_pair
equal_sign rest = refl

-- The attributes begin with a semicolon, if there are any.
name_value_pair-attributes : (b : SetCookieBuilder) → name_value_pair (attributes b) ≡ []
unfolding attributes
name_value_pair-attributes b = cut-append _ _ (cut_if b.http_only _ (cut_flag _)) (
    cut-append _ _ (cut_max_age b.max_age)
      (cut-append _ _ (cut_same_site b.same_site) (cut_if b.secure _ (cut_flag _))))

-- The cookie pair that a builder was made for.
abbrev pub pair_of : SetCookieBuilder → CookiePair
pair_of b = record { name = b.name; value = b.value }

-- What the constructor has checked.
pub record IsChecked (b : SetCookieBuilder) : Type 0 where
  pub token : is_valid_token b.name ≡ true
  pub octets : is_valid_cookie_value b.value ≡ true

-- The constructor throws unless the name is a token and the value a non-empty run of cookie
-- octets, and otherwise sets no attribute.
pub set_cookie_builder_ok :
    (name value : Bytes) {b : SetCookieBuilder}
    → set_cookie_builder name value ≡ ok b
    → IsChecked b × (b.name ≡ name) × (b.value ≡ value) × (attributes b ≡ [])
unfolding set_cookie_builder attributes
set_cookie_builder_ok name value {b} e = ground arith

IsChecked-IsCookie : (b : SetCookieBuilder) → IsChecked b → IsCookie (pair_of b)
unfolding is_valid_token is_valid_cookie_value
IsChecked-IsCookie b c = record {
  named = λ e. ground arith;
  token = ground arith;
  octets = inl (ground arith);
}

pair_cut :
    (b : SetCookieBuilder)
    → all is_token_char b.name ≡ true
    → all is_cookie_value_char b.value ≡ true
    → name_value_pair (build_header b) ≡ cookie_string (pair_of b ∷ []) []
unfolding build_header cookie_string following
pair_cut b t v =
    name_value_pair-append is_token_char b.name _ delimiters_no_token.1 t
    ∙ ap (◌++◌ b.name) (
        equal_sign _
        ∙ ap (◌∷◌ b'=') (
            name_value_pair-append is_cookie_value_char b.value _ delimiters_no_value.0 v
            ∙ ap (◌++◌ b.value) (name_value_pair-attributes b)))

-- For a builder whose name and value the constructor accepts, whatever attributes were set: what
-- stands before the first semicolon of the header of build_header, which is the name-value-pair of
-- RFC 6265, is read by cookie_list as one cookie, the pair that the builder was made for.
pub cookie_list-build_header :
    (b : SetCookieBuilder)
    → IsChecked b
    → cookie_list (name_value_pair (build_header b)) ≡ some (pair_of b ∷ [])
unfolding build_header
cookie_list-build_header b c =
    let k = IsChecked-IsCookie b c in
    let cut : name_value_pair (build_header b) ≡ cookie_string (pair_of b ∷ []) [] =
      pair_cut b k.token (unfold is_valid_cookie_value in ground (arith, c.octets)) in
    rw cut (cookie_list-cookie_string [] [] (pair_of b ∷ []) refl refl (k, tt))
