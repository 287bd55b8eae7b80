-- ===== src/CookieAuthService/Checked.antt =====
-- The session cookie is well-formed.
use servertech_chat.Prelude.{Bytes, [], ◌∷◌, All, length, IsByte, ◌≡◌, refl, arith, true, false}
use servertech_chat.Error.{ok}
use servertech_chat.Base64.{base64_encode, encode}
use servertech_chat.Base64.Encoded.{all-base64_encode}
use servertech_chat.Cookie.Chars.{
  is_token_char, is_cookie_value_char, alphabet_table, padding-is_cookie_value_char,
}
use servertech_chat.Cookie.{
  is_valid_token, is_valid_cookie_value, is_empty, set_cookie_builder, SetCookieBuilder,
  build_header,
}
use servertech_chat.SessionStore.{session_id_size}
use servertech_chat.CookieAuthService.{
  session_cookie_name, session_cookie, session_duration, session_cookie_in, find_if,
}
use servertech_chat.Cookie.{cookie_list}
use servertech_chat.Cookie.Build.{name_value_pair, cookie_list-build_header}
use servertech_chat.Prelude.Decimal.{pos}
use servertech_chat.Prelude.{some, str_eq_refl}
use servertech_chat.Cookie.Attributes.{SameSite}

base64_encode-is_empty :
    (raw : Bytes) → length raw ≡ session_id_size → is_empty (base64_encode raw true) ≡ false
unfolding base64_encode encode
base64_encode-is_empty [] l = ground arith
base64_encode-is_empty (a ∷ []) l = refl
base64_encode-is_empty (a ∷ b ∷ []) l = refl
base64_encode-is_empty (a ∷ b ∷ c ∷ rest) l = refl

-- Every identifier that a session can get is a non-empty run of cookie octets.
pub base64_encode-is_valid_cookie_value :
    (raw : Bytes)
    → length raw ≡ session_id_size
    → All IsByte raw
    → is_valid_cookie_value (base64_encode raw true) ≡ true
unfolding is_valid_cookie_value
base64_encode-is_valid_cookie_value raw l h = ground (
  arith,
  base64_encode-is_empty raw l,
  all-base64_encode is_cookie_value_char alphabet_table padding-is_cookie_value_char raw true h,
)

name-is_valid : is_valid_token session_cookie_name ≡ true
unfolding is_valid_token is_token_char
name-is_valid = refl

-- The builder of a session cookie.
abbrev pub session_builder : Bytes → SetCookieBuilder
session_builder session_id = record {
  name = session_cookie_name;
  value = session_id;
  http_only = true;
  max_age = some (pos session_duration);
  same_site = SameSite.strict;
  secure = false;
}

pub session_cookie_ok :
    (id : Bytes)
    → is_valid_cookie_value id ≡ true
    → session_cookie id ≡ ok (build_header (session_builder id))
unfolding session_cookie set_cookie_builder
session_cookie_ok id h = rw (name-is_valid, h) refl

-- What a user agent sends back for it holds the one cookie.
pub cookie_list-session_builder :
    (id : Bytes)
    → is_valid_cookie_value id ≡ true
    → cookie_list (name_value_pair (build_header (session_builder id)))
      ≡ some (record { name = session_cookie_name; value = id } ∷ [])
cookie_list-session_builder id h =
    cookie_list-build_header (session_builder id) (record { token = name-is_valid; octets = h })

pub session_cookie_in-session_builder :
    (id : Bytes)
    → is_valid_cookie_value id ≡ true
    → session_cookie_in (name_value_pair (build_header (session_builder id)))
      ≡ some (record { name = session_cookie_name; value = id })
unfolding session_cookie_in find_if
session_cookie_in-session_builder id h =
    rw (cookie_list-session_builder id h) (rw (str_eq_refl session_cookie_name) refl)
