-- ===== src/CookieAuthService.antt =====
-- server/include/services/cookie_auth_service.hpp and
-- server/src/services/cookie_auth_service.cpp. A request is given by its Cookie header, `none` where
-- it has none.
pub mod Checked
pub mod Login
use servertech_chat.Prelude.{
  ℕ, Bool, true, false, Bytes, codes, List, ◌*◌, [], ◌∷◌, Option, none, some, str_eq, if◌then◌else◌,
  map,
}
use servertech_chat.Prelude.Decimal.{ℤ, pos}
use servertech_chat.Error.{
  ErrorCode, ErrorWithMessage, chat, requires_auth, not_found, no_message, Result, ok, err, throws,
  undefined, ◌>>=◌,
}
use servertech_chat.Exec
use servertech_chat.Exec.{Exec, continue, pure, lift}
use servertech_chat.BusinessTypes.{User}
use servertech_chat.Cookie.{
  set_cookie_builder, http_only, same_site, max_age, build_header, CookiePair, cookie_list,
}
use servertech_chat.Cookie.Attributes.{SameSite}
use servertech_chat.RedisClient.{bare}
use servertech_chat.MysqlClient.{MysqlClient}
use servertech_chat.SessionStore.{generate_session_id, get_user_by_session}
use servertech_chat.SessionStore.Backend.{Random}

abbrev pub session_cookie_name : Bytes
session_cookie_name = codes "sid"

-- 7 days
abbrev pub session_duration : ℕ
session_duration = 3600 * 24 * 7

-- The cookie to be set.
unfoldable pub session_cookie : Bytes → Result ErrorWithMessage Bytes
unfolding set_cookie_builder build_header
session_cookie session_id = do
  b ← bare (set_cookie_builder session_cookie_name session_id)
  ok (build_header (max_age (pos session_duration) (same_site SameSite.strict (http_only true b))))

-- std::find_if
unfoldable pub find_if {ℓ} : {A : Type ℓ} → (A → Bool) → List A → Option A
find_if p [] = none
find_if p (x ∷ xs) = let later = find_if p xs in if p x then some x else later

abbrev pub is_session_cookie : CookiePair → Bool
is_session_cookie p = str_eq p.name session_cookie_name

abbrev pub find_session : Option (List CookiePair) → Option CookiePair
find_session none = none
find_session (some cookies) = find_if is_session_cookie cookies

-- The session cookie of a Cookie header. Walking over the header always ends.
unfoldable pub session_cookie_in : Bytes → Option CookiePair
unfolding cookie_list find_if
session_cookie_in header = find_session (cookie_list header)

abbrev pub unauthorized : Bytes → ErrorWithMessage
unauthorized m = record { ec = chat requires_auth; msg = m }

-- `if (err.ec == errc::not_found)`
abbrev pub as_auth_error : ErrorWithMessage → ErrorWithMessage
as_auth_error e = elim e.ec [ chat not_found ↦ unauthorized e.msg | _ ↦ e ]

abbrev pub as_auth_result : Result ErrorWithMessage ℤ → Result ErrorWithMessage ℤ
as_auth_result (ok n) = ok n
as_auth_result (err e) = err (as_auth_error e)
as_auth_result (throws what) = throws what
as_auth_result undefined = undefined

module _ (r : Random) where
  open r use {World}

  abbrev pub with_cookie :
      Option (Result ErrorWithMessage Bytes × World)
      → Option (Result ErrorWithMessage Bytes × World)
  with_cookie none = none
  with_cookie (some (session_id, w)) = some (session_id >>= session_cookie, w)

  unfoldable pub generate_session_cookie :
      ℕ → ℤ → World → Option (Result ErrorWithMessage Bytes × World)
  unfolding session_cookie generate_session_id
  generate_session_cookie fuel user_id w =
      with_cookie (generate_session_id r fuel user_id session_duration w)

  -- The look-up in Redis.
  abbrev pub look_up : Option CookiePair → Exec World ℤ
  look_up none w = (err (unauthorized []), w)
  look_up (some p) w = let (res, w') = get_user_by_session r p.value w in (as_auth_result res, w')

  unfoldable pub user_id_from_cookie : Option Bytes → Exec World ℤ
  unfolding session_cookie_in get_user_by_session
  user_id_from_cookie none w = (err (unauthorized []), w)
  user_id_from_cookie (some header) w = look_up (session_cookie_in header) w

  unfoldable pub user_from_cookie : MysqlClient World → Option Bytes → Exec World User
  unfolding user_id_from_cookie
  user_from_cookie mysql header w =
      let (user_id, w') = user_id_from_cookie header w in continue user_id mysql.get_user_by_id w'
