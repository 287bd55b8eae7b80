-- ===== src/Auth.antt =====
-- server/src/api/auth.cpp: the endpoints that create an account and log in. `none` means that the
-- fuel for drawing session identifiers has run out.
pub mod Services
pub mod Cookies
pub mod Sessions
pub mod Accounts
pub mod Failures
pub mod Registered
use servertech_chat.Prelude.{
  ℕ, ◌||◌, Bool, true, false, not, ltb, Bytes, codes, [], length, Option, none, some, if◌then◌else◌,
}
use servertech_chat.Prelude.Decimal.{ℤ}
use servertech_chat.Error.{
  ErrorCode, ErrorWithMessage, chat, Errc, not_found, Result, ok, err, throws, undefined,
}
use servertech_chat.BusinessTypes.{AuthUser}
use servertech_chat.RequestContext.{
  Response, ResponseBuilder, RequestContext, ApiErrorId, set_cookie, empty_response,
  bad_request_json, json_error, internal_server_error, parse_json_body,
}
use servertech_chat.Scrypt.{salt_size, hash_password, verify_password}
use servertech_chat.CookieAuthService.{generate_session_cookie}
use Services.{CreateAccountRequest, LoginRequest, AuthServices}

abbrev pub min_username_size : ℕ
min_username_size = 4

abbrev pub max_username_size : ℕ
max_username_size = 100

abbrev pub max_email_size : ℕ
max_email_size = 100

abbrev pub min_password_size : ℕ
min_password_size = 10

abbrev pub max_password_size : ℕ
max_password_size = 100

abbrev pub login_failed : ResponseBuilder → Response
login_failed resp = bad_request_json ApiErrorId.login_failed (codes "Login failed") resp

-- bad_request_json with the generic error ID.
abbrev pub invalid : Bytes → ResponseBuilder → Response
invalid why resp = bad_request_json ApiErrorId.bad_request why resp

-- The validation of create_account_request, and of login_request: what is wrong with it.
unfoldable pub check_create_account : (Bytes → Bool) → CreateAccountRequest → Option Bytes
check_create_account is_email req_params =
    if ltb (length req_params.username) min_username_size
      || ltb max_username_size (length req_params.username)
    then some (codes "username: invalid size")
    else if ltb max_email_size (length req_params.email)
    then some (codes "email: too long")
    else if not (is_email req_params.email)
    then some (codes "email: invalid format")
    else if ltb (length req_params.password) min_password_size
        || ltb max_password_size (length req_params.password)
    then some (codes "password: invalid size")
    else none

unfoldable pub check_login : (Bytes → Bool) → LoginRequest → Option Bytes
check_login is_email req_params =
    if ltb max_email_size (length req_params.email)
    then some (codes "email: too long")
    else if not (is_email req_params.email)
    then some (codes "email: invalid format")
    else if ltb (length req_params.password) min_password_size
        || ltb max_password_size (length req_params.password)
    then some (codes "password: invalid size")
    else none

-- The response for an error of create_user.
unfoldable pub create_user_error : ErrorWithMessage → ResponseBuilder → Response
create_user_error e resp = elim e.ec [
  | chat Errc.username_exists ↦ json_error 400 ApiErrorId.username_exists [] resp
  | chat Errc.email_exists ↦ json_error 400 ApiErrorId.email_exists [] resp
  | _ ↦ internal_server_error e resp
]

-- The response for an error of get_user_by_email.
unfoldable pub get_user_error : ErrorWithMessage → ResponseBuilder → Response
get_user_error e resp = elim e.ec [
  | chat not_found ↦ login_failed resp
  | _ ↦ internal_server_error e resp
]

abbrev pub Handled {ℓ} : Type ℓ → Type ℓ
Handled W = Option (Result ErrorCode Response × W)

-- The end of both handlers.
abbrev pub session_response {ℓ} :
    {W : Type ℓ} → ResponseBuilder → Option (Result ErrorWithMessage Bytes × W) → Handled W
session_response resp none = none
session_response resp (some (ok cookie, w)) = some (ok (empty_response (set_cookie cookie resp)), w)
session_response resp (some (err e, w)) = some (ok (internal_server_error e resp), w)
session_response resp (some (throws what, w)) = some (throws what, w)
session_response resp (some (undefined, w)) = some (undefined, w)

module _ (services : AuthServices) where
  open services use {
    World, random, mysql, ssl, rand_priv_bytes, is_email, create_account_from_json, login_from_json,
  }

  unfoldable pub with_session : ℕ → ResponseBuilder → ℤ → World → Handled World
  unfolding generate_session_cookie
  with_session fuel resp user_id w =
      session_response resp (generate_session_cookie random fuel user_id w)

  -- From the answer of create_user on,
  unfoldable pub with_user : ℕ → ResponseBuilder → Result ErrorWithMessage ℤ → World → Handled World
  unfolding with_session create_user_error
  with_user fuel resp (ok user_id) w = with_session fuel resp user_id w
  with_user fuel resp (err e) w = some (ok (create_user_error e resp), w)
  with_user fuel resp (throws what) w = some (throws what, w)
  with_user fuel resp undefined w = some (undefined, w)

  -- from the hashed password on,
  unfoldable pub with_hash :
      ℕ → ResponseBuilder → CreateAccountRequest → Result ErrorCode Bytes → World → Handled World
  unfolding with_user
  with_hash fuel resp req_params (ok hashed_passwd) w =
      let (user_id, w') = mysql.create_user req_params.username req_params.email hashed_passwd w in
      with_user fuel resp user_id w'
  with_hash fuel resp req_params (err e) w = some (err e, w)
  with_hash fuel resp req_params (throws what) w = some (throws what, w)
  with_hash fuel resp req_params undefined w = some (undefined, w)

  -- and from the validation on.
  unfoldable pub create_account :
      ℕ → ResponseBuilder → CreateAccountRequest → Option Bytes → World → Handled World
  unfolding with_hash hash_password
  create_account fuel resp req_params (some why) w = some (ok (invalid why resp), w)
  create_account fuel resp req_params none w =
      let (salt, w') = rand_priv_bytes salt_size w in
      with_hash fuel resp req_params (hash_password ssl salt req_params.password) w'

  abbrev pub create_account_parsed :
      ℕ → ResponseBuilder → Result ErrorCode CreateAccountRequest → World → Handled World
  create_account_parsed fuel resp (ok req_params) w =
      create_account fuel resp req_params (check_create_account is_email req_params) w
  create_account_parsed fuel resp (err e) w =
      some (ok (invalid (codes "Invalid body provided") resp), w)
  create_account_parsed fuel resp (throws what) w = some (throws what, w)
  create_account_parsed fuel resp undefined w = some (undefined, w)

  unfoldable pub handle_create_account : ℕ → RequestContext → World → Handled World
  unfolding create_account check_create_account parse_json_body
  handle_create_account fuel ctx w =
      create_account_parsed fuel ctx.response (parse_json_body create_account_from_json ctx) w

  -- From the verdict on the password on,
  unfoldable pub with_verdict :
      ℕ → ResponseBuilder → AuthUser → Result ErrorCode Bool → World → Handled World
  unfolding with_session
  with_verdict fuel resp user (ok true) w = with_session fuel resp user.id w
  with_verdict fuel resp user (ok false) w = some (ok (login_failed resp), w)
  with_verdict fuel resp user (err e) w = some (err e, w)
  with_verdict fuel resp user (throws what) w = some (throws what, w)
  with_verdict fuel resp user undefined w = some (undefined, w)

  -- from the answer of get_user_by_email on,
  unfoldable pub with_found :
      ℕ → ResponseBuilder → LoginRequest → Result ErrorWithMessage AuthUser → World → Handled World
  unfolding with_verdict verify_password get_user_error
  with_found fuel resp req_params (ok user) w =
      with_verdict fuel resp user (verify_password ssl req_params.password user.hashed_password) w
  with_found fuel resp req_params (err e) w = some (ok (get_user_error e resp), w)
  with_found fuel resp req_params (throws what) w = some (throws what, w)
  with_found fuel resp req_params undefined w = some (undefined, w)

  -- and from the validation on.
  unfoldable pub login : ℕ → ResponseBuilder → LoginRequest → Option Bytes → World → Handled World
  unfolding with_found
  login fuel resp req_params (some why) w = some (ok (invalid why resp), w)
  login fuel resp req_params none w =
      let (user, w') = mysql.get_user_by_email req_params.email w in
      with_found fuel resp req_params user w'

  abbrev pub login_parsed :
      ℕ → ResponseBuilder → Result ErrorCode LoginRequest → World → Handled World
  login_parsed fuel resp (ok req_params) w =
      login fuel resp req_params (check_login is_email req_params) w
  login_parsed fuel resp (err e) w = some (ok (invalid (codes "Invalid body provided") resp), w)
  login_parsed fuel resp (throws what) w = some (throws what, w)
  login_parsed fuel resp undefined w = some (undefined, w)

  unfoldable pub handle_login : ℕ → RequestContext → World → Handled World
  unfolding login check_login parse_json_body
  handle_login fuel ctx w = login_parsed fuel ctx.response (parse_json_body login_from_json ctx) w
