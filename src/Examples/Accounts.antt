-- ===== src/Examples/Accounts.antt =====
-- Sessions on concrete inputs.
use servertech_chat.Prelude.{◌≡◌, Bytes, codes, [], some, refl, ◌⊎◌}
use servertech_chat.Prelude.Decimal.{pos, print_int}
use servertech_chat.Error.{ErrorWithMessage, Result, ok, err}
use servertech_chat.Cookie.{build_header}
use servertech_chat.Cookie.Build.{name_value_pair}
use servertech_chat.SessionStore.{get_redis_key, generate_session_id}
use servertech_chat.SessionStore.Unique
use servertech_chat.SessionStore.Sessions.{generate_session_id_lem}
use servertech_chat.CookieAuthService.{
  session_duration, user_id_from_cookie, user_from_cookie, unauthorized,
}
use servertech_chat.CookieAuthService.Checked.{session_builder}
use servertech_chat.CookieAuthService.Login.{
  generate_session_cookie_lem, user_id_from_cookie-generate_session_cookie,
  user_from_cookie-unauthorized,
}
use servertech_chat.Examples.Backend.{Store}
use servertech_chat.Examples.Server.{
  random, laws, start, first_id, after, first_session, start_empty,
}
use servertech_chat.Examples.Services.{mysql}

generate_session_id_lem_example :
    Unique.Exhausted random laws 1 (print_int (pos 7)) session_duration start
    ⊎ ((res : Result ErrorWithMessage Bytes) × (w' : Store) × (generate_session_id random 1
            (pos 7)
            session_duration
            start
          ≡ some (res, w'))
        × Unique.Returned random laws start w' (print_int (pos 7)) res)
generate_session_id_lem_example =
    generate_session_id_lem random laws 1 (pos 7) session_duration start

user_id_from_cookie-generate_session_cookie_example :
    (user_id_from_cookie random
      (some (name_value_pair (build_header (session_builder first_id))))
      (after (print_int (pos 7)))).0
    ≡ ok (pos 7)
user_id_from_cookie-generate_session_cookie_example =
    user_id_from_cookie-generate_session_cookie random laws 1 (pos 7) start
      (after (print_int (pos 7))) (build_header (session_builder first_id)) refl
      (generate_session_cookie_lem random laws 1 (pos 7) start (after (print_int (pos 7))) first_id
        first_session).0

user_from_cookie-unauthorized_example :
    (user_from_cookie random mysql (some (codes "sid=abc")) start).0 ≡ err (unauthorized [])
user_from_cookie-unauthorized_example =
    user_from_cookie-unauthorized random laws mysql (some (codes "sid=abc")) start
      (λ h p e k. start_empty (get_redis_key p.value))
