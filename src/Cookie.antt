-- ===== src/Cookie.antt =====
-- server/include/util/cookie.hpp and server/src/util/cookie.cpp: the Set-Cookie header and the
-- list of the cookies in a Cookie header. A pointer into a header is the list of the bytes from
-- there to its end.
pub mod Chars
pub mod Attributes
pub mod Scan
pub mod Pairs
pub mod Sound
pub mod Parse
pub mod Build
use servertech_chat.Prelude.{
  ℕ, zero, suc, ◌+◌, ◌-◌, Bool, true, false, not, ◌&&◌, ◌||◌, Bytes, codes, List, [], ◌∷◌, ◌++◌,
  Option, none, some, ◌==◌, if◌then◌else◌, length, take, all,
}
use servertech_chat.Prelude.Options.{◌>>=◌}
use servertech_chat.Prelude.Decimal.{ℤ, print_int}
use servertech_chat.Error.{Result, ok, throws, ErrorCode}
use Attributes.{SameSite}
use Chars.{is_token_char, is_cookie_value_char}

-- skip_ows, skip_token and skip_cookie_value are one loop with different tests.
unfoldable pub skip_while : (ℕ → Bool) → Bytes → Bytes
skip_while p [] = []
skip_while p (c ∷ src) = let rest = skip_while p src in if p c then rest else c ∷ src

abbrev pub is_ows : ℕ → Bool
is_ows c = c == b' ' || c == b'\t'

unfoldable pub skip_ows : Bytes → Bytes
unfolding skip_while
skip_ows src = skip_while is_ows src

unfoldable pub skip_token : Bytes → Bytes
unfolding skip_while
skip_token src = skip_while is_token_char src

unfoldable pub skip_cookie_value : Bytes → Bytes
unfolding skip_while
skip_cookie_value src = skip_while is_cookie_value_char src

-- std::string_view(first, current - first)
unfoldable pub view : Bytes → Bytes → Bytes
view first current = take (length first - length current) first

abbrev pub is_empty : Bytes → Bool
is_empty [] = true
is_empty (c ∷ src) = false

unfoldable pub is_valid_token : Bytes → Bool
is_valid_token value = not (is_empty value) && all is_token_char value

unfoldable pub is_valid_cookie_value : Bytes → Bool
is_valid_cookie_value value = not (is_empty value) && all is_cookie_value_char value

unfoldable pub trim_ows : Bytes → Bytes
unfolding skip_ows
trim_ows from = skip_ows from

-- class set_cookie_builder
pub record SetCookieBuilder : Type 0 where
  pub name : Bytes
  pub value : Bytes
  pub http_only : Bool
  pub max_age : Option ℤ
  pub same_site : SameSite
  pub secure : Bool

-- The constructor.
unfoldable pub set_cookie_builder : Bytes → Bytes → Result ErrorCode SetCookieBuilder
unfolding is_valid_token is_valid_cookie_value
set_cookie_builder name value =
    if not (is_valid_token name)
    then throws (codes "Invalid cookie name")
    else if not (is_valid_cookie_value value)
    then throws (codes "Invalid cookie value")
    else ok (record {
      name = name;
      value = value;
      http_only = false;
      max_age = none;
      same_site = SameSite.lax;
      secure = false;
    })

-- The setters.
abbrev pub http_only : Bool → SetCookieBuilder → SetCookieBuilder
http_only value b = record b { http_only = value }

abbrev pub max_age : ℤ → SetCookieBuilder → SetCookieBuilder
max_age val b = record b { max_age = some val }

abbrev pub same_site : SameSite → SetCookieBuilder → SetCookieBuilder
same_site val b = record b { same_site = val }

abbrev pub secure : Bool → SetCookieBuilder → SetCookieBuilder
secure val b = record b { secure = val }

abbrev pub same_site_attribute : SameSite → Bytes
same_site_attribute SameSite.strict = codes "; SameSite=Strict"
same_site_attribute SameSite.lax = []
same_site_attribute SameSite.none = codes "; SameSite=None"

abbrev pub max_age_attribute : Option ℤ → Bytes
max_age_attribute none = []
max_age_attribute (some age) = codes "; Max-Age=" ++ print_int age

-- build_header
unfoldable pub attributes : SetCookieBuilder → Bytes
unfolding print_int
attributes b =
    (if b.http_only then codes "; HttpOnly" else [])
    ++ (max_age_attribute b.max_age
        ++ (same_site_attribute b.same_site ++ (if b.secure then codes "; Secure" else [])))

unfoldable pub build_header : SetCookieBuilder → Bytes
unfolding attributes
build_header b = b.name ++ (b'=' ∷ (b.value ++ attributes b))

-- struct cookie_pair
pub record CookiePair : Type 0 where
  pub name : Bytes
  pub value : Bytes

-- cookie_list::const_iterator: `next` is `none` for the end iterator, whose pointers are null.
pub record ConstIterator : Type 0 where
  pub val : CookiePair
  pub next : Option Bytes

abbrev pub end_iterator : ConstIterator
end_iterator = record { val = record { name = []; value = [] }; next = none }

-- `if (current == last || *current++ != c) return reset();`
unfoldable pub expect : ℕ → Bytes → Option Bytes
expect c [] = none
expect c (d ∷ src) = if d == c then some src else none

-- What stands before all cookies but the first.
unfoldable pub separator : Bool → Bytes → Option Bytes
unfolding expect
separator true current = some current
separator false current = do after ← expect b';' current; expect b' ' after

-- The value: an opening quote, the characters, and the closing quote that an opening one wants.
-- Returns the character behind the value.
unfoldable pub skip_value : Bytes → Option Bytes
unfolding skip_cookie_value expect
skip_value [] = some (skip_cookie_value [])
skip_value (c ∷ src) =
    if c == b'"' then expect b'"' (skip_cookie_value src) else some (skip_cookie_value (c ∷ src))

-- The cookie's name and the equal sign, with the character behind them.
unfoldable pub parse_name : Bytes → Option (Bytes × Bytes)
unfolding skip_token view expect
parse_name name_first = do
  let current = skip_token name_first
  let name = view name_first current
  value_first ← if is_empty name then none else expect b'=' current
  some (name, value_first)

unfoldable pub parse_value : Bytes → Option (Bytes × Bytes)
unfolding skip_value view
parse_value value_first = do
  current ← skip_value value_first
  some (view value_first current, current)

-- One cookie, and the character behind it; `none` stands for `return reset()`.
unfoldable pub parse_cookie : Bool → Bytes → Option (CookiePair × Bytes)
unfolding separator parse_name parse_value
parse_cookie is_first next = do
  name_first ← separator is_first next
  (name, value_first) ← parse_name name_first
  (value, current) ← parse_value value_first
  some (record { name = name; value = value }, current)

abbrev pub iterator_at : Option (CookiePair × Bytes) → ConstIterator
iterator_at none = end_iterator
iterator_at (some (val, current)) = record { val = val; next = some current }

-- const_iterator::increment, for an iterator whose `next_` is given.
unfoldable pub increment : Bool → Bytes → ConstIterator
unfolding parse_cookie
increment is_first next = iterator_at (parse_cookie is_first next)

-- The constructor of cookie_list, then begin().
unfoldable pub begin : Bytes → ConstIterator
unfolding trim_ows increment
begin header =
    let trimmed = trim_ows header in
    if is_empty trimmed then end_iterator else increment true trimmed

-- `for (it = begin(); it != end(); ++it)`; `none` means that the fuel has run out.
unfoldable pub iterate : ℕ → ConstIterator → Option (List CookiePair)
unfolding increment
iterate zero it = none
iterate (suc fuel) it = elim it.next [
  | none ↦ some []
  | some next ↦ do rest ← iterate fuel (increment false next); some (it.val ∷ rest)
]

-- The elements of a cookie_list.
unfoldable pub cookie_list : Bytes → Option (List CookiePair)
unfolding begin iterate
cookie_list header = iterate (suc (suc (length header))) (begin header)
