-- ===== src/Examples/Texts.antt =====
-- Base64, cookies and timestamps on concrete inputs.
use servertech_chat.Prelude.{
  ℕ, ◌<◌, ◌≡◌, ◌≢◌, true, All, IsByte, all_below, all_below_sound, not, ◌==◌, map, Bytes, codes, [],
  ◌∷◌, ◌++◌, some, refl, arith,
}
use servertech_chat.Prelude.Decimal.{pos}
use servertech_chat.Error.{ok}
use servertech_chat.Base64.{base64_encode, base64_decode}
use servertech_chat.Base64.Tables.{forward}
use servertech_chat.Base64.RoundTrip.{decode-base64_encode}
use servertech_chat.Base64.Rejects.{base64_decode-stray, stray}
use servertech_chat.Cookie.{
  CookiePair, SetCookieBuilder, cookie_list, build_header, parse_cookie, is_valid_token,
  is_valid_cookie_value, separator, parse_name, parse_value, skip_value, skip_token,
  skip_cookie_value, skip_while, view, expect,
}
use servertech_chat.Cookie.Chars.{is_token_char, is_cookie_value_char}
use servertech_chat.Cookie.Attributes.{SameSite}
use servertech_chat.Cookie.Build.{IsChecked, name_value_pair, pair_of, cookie_list-build_header}

abbrev two : Bytes
two = 1 ∷ 2 ∷ []

abbrev bytes : Bytes
bytes = 1 ∷ 2 ∷ 255 ∷ []

three : All IsByte bytes
three = (omega arith, (omega arith, (omega arith, tt)))

decode-base64_encode_example : base64_decode (base64_encode bytes true) true ≡ ok bytes
decode-base64_encode_example = decode-base64_encode bytes true three

no_sextet_table : all_below 64 (λ v. not (forward v == 200)) ≡ true
unfolding all_below forward
no_sextet_table = refl

no_sextet : (v : ℕ) → v < 64 → forward v ≢ 200
no_sextet v h e =
    ground (arith, all_below_sound 64 (λ x. not (forward x == 200)) v no_sextet_table h, e)

base64_decode-stray_example : base64_decode (map forward (1 ∷ 2 ∷ []) ++ 200 ∷ []) true ≡ stray 200
base64_decode-stray_example =
    base64_decode-stray (1 ∷ 2 ∷ []) 200 [] true (omega arith, (omega arith, tt)) (omega arith)
      (omega arith) no_sextet

abbrev a_builder : SetCookieBuilder
a_builder = record {
  name = codes "n";
  value = codes "v";
  http_only = true;
  max_age = some (pos 60);
  same_site = SameSite.strict;
  secure = true;
}

a_builder-IsChecked : IsChecked a_builder
unfolding is_valid_token is_valid_cookie_value is_token_char is_cookie_value_char
a_builder-IsChecked = record { token = refl; octets = refl }

cookie_list-build_header_example :
    cookie_list (name_value_pair (build_header a_builder)) ≡ some (pair_of a_builder ∷ [])
cookie_list-build_header_example = cookie_list-build_header a_builder a_builder-IsChecked

abbrev a_pair : CookiePair
a_pair = record { name = codes "n"; value = codes "v" }

parsed : parse_cookie true (codes "n=v; m=w") ≡ some (a_pair, codes "; m=w")
unfolding parse_cookie separator parse_name parse_value skip_value skip_token skip_cookie_value
    skip_while view expect is_token_char is_cookie_value_char
parsed = refl
