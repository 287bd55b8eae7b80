-- ===== src/Auth/Sessions.antt =====
-- Who gets a session by a login.
use servertech_chat.Prelude.{
  ℕ, ◌≤◌, ◌≡◌, Bool, true, false, Bytes, length, Option, none, some, refl, arith,
}
use servertech_chat.Prelude.Decimal.{fits_int64}
use servertech_chat.Error.{ErrorCode, ErrorWithMessage, Result, ok, err, throws, undefined}
use servertech_chat.BusinessTypes.{AuthUser}
use servertech_chat.RequestContext.{ResponseBuilder, RequestContext, parse_json_body}
use servertech_chat.SessionStore.Laws.{SessionLaws}
use servertech_chat.Scrypt.{verify_password}
use servertech_chat.Auth.Services.{LoginRequest, AuthServices}
use servertech_chat.Auth.{
  with_verdict, with_found, login, check_login, login_parsed, handle_login, get_user_error,
  login_failed, invalid,
}
use servertech_chat.Auth.Cookies.{
  no_cookie, find_error-Bare, invalid-Bare, failed-Bare, with_session_lem, Sets, Bare, LoggedIn,
  BigintIds,
}

module _ (services : AuthServices) where
  open services use {
    World, random, mysql, ssl, rand_priv_bytes, is_email, create_account_from_json, login_from_json,
  }

  module _ (laws : SessionLaws random) (ids : BigintIds services) where
    open ids use {created_fits, found_fits}

    -- What a successful login rests on.
    pub record LoginOf (req_params : LoginRequest) (header : Bytes) (w w' : World) : Type 0 where
      pub user : AuthUser
      pub email_size : length req_params.email ≤ 100
      pub email_format : is_email req_params.email ≡ true
      pub password_min : 10 ≤ length req_params.password
      pub password_max : length req_params.password ≤ 100
      pub found : (mysql.get_user_by_email req_params.email w).0 ≡ ok user
      pub verified : verify_password ssl req_params.password user.hashed_password ≡ ok true
      pub logged_in : LoggedIn services w' header user.id

    verdict_lem :
        (fuel : ℕ) (resp : ResponseBuilder) (user : AuthUser) (verdict : Result ErrorCode Bool)
        (w w' : World) (header : Bytes)
        → fits_int64 user.id ≡ true
        → Bare services resp
        → Sets services (with_verdict services fuel resp user verdict w) header w'
        → (verdict ≡ ok true) × LoggedIn services w' header user.id
    unfolding with_verdict
    verdict_lem fuel resp user (ok true) w w' header f bare s =
        (refl, with_session_lem services laws ids fuel resp user.id w w' header f bare s)
    verdict_lem fuel resp user (ok false) w w' header f bare s =
        absurd
          (no_cookie services (login_failed resp) header w w' (failed-Bare services resp bare) s)
    verdict_lem fuel resp user (err e) w w' header f bare s = cc s.is
    verdict_lem fuel resp user (throws e) w w' header f bare s = cc s.is
    verdict_lem fuel resp user undefined w w' header f bare s = cc s.is

    found_lem :
        (fuel : ℕ) (resp : ResponseBuilder) (req_params : LoginRequest)
        (answer : Result ErrorWithMessage AuthUser) (w w' : World) (header : Bytes)
        → ((user : AuthUser) → answer ≡ ok user → fits_int64 user.id ≡ true)
        → Bare services resp
        → Sets services (with_found services fuel resp req_params answer w) header w'
        → (user : AuthUser) × (answer ≡ ok user)
          × (verify_password ssl req_params.password user.hashed_password ≡ ok true)
          × LoggedIn services w' header user.id
    unfolding with_found
    found_lem fuel resp req_params (ok user) w w' header f bare s =
        let (verified, logged) =
          verdict_lem fuel resp user (verify_password ssl req_params.password user.hashed_password)
            w w' header (f user refl) bare s in
        (user, refl, verified, logged)
    found_lem fuel resp req_params (err e) w w' header f bare s = absurd (
        no_cookie services (get_user_error e resp) header w w'
          (find_error-Bare services e.ec e.msg resp bare) s)
    found_lem fuel resp req_params (throws e) w w' header f bare s = cc s.is
    found_lem fuel resp req_params undefined w w' header f bare s = cc s.is

    login_lem :
        (fuel : ℕ) (resp : ResponseBuilder) (req_params : LoginRequest) (why : Option Bytes)
        (w w' : World) (header : Bytes)
        → Bare services resp
        → check_login is_email req_params ≡ why
        → Sets services (login services fuel resp req_params why w) header w'
        → LoginOf req_params header w w'
    unfolding login check_login
    login_lem fuel resp req_params (some why) w w' header bare e s =
        absurd (
          no_cookie services (invalid why resp) header w w' (invalid-Bare services why resp bare) s)
    login_lem fuel resp req_params none w w' header bare e s =
        let (answer, w1) = mysql.get_user_by_email req_params.email w in
        let (user, is, verified, logged) =
          found_lem fuel resp req_params answer w1 w' header (found_fits req_params.email w) bare
            s in
        record {
          user = user;
          email_size = ground arith;
          email_format = ground arith;
          password_min = ground arith;
          password_max = ground arith;
          found = is;
          verified = verified;
          logged_in = logged;
        }

    -- Over services that keep SessionLaws and BigintIds, and a response builder without a cookie, a
    -- login sets a cookie only if its body is a login request with an email of at most 100 bytes in
    -- the right format and a password of 10 to 100 bytes, the email names a user, and the password
    -- is verified against that user's hash; and the cookie then logs that user in.
    pub handle_login_lem :
        (fuel : ℕ) (ctx : RequestContext) (w w' : World) (header : Bytes)
        → ctx.response.cookie ≡ none
        → Sets services (handle_login services fuel ctx w) header w'
        → (req_params : LoginRequest) × (parse_json_body login_from_json ctx ≡ ok req_params)
          × LoginOf req_params header w w'
    unfolding handle_login
    handle_login_lem fuel ctx w w' header bare s = parsed (parse_json_body login_from_json ctx) s
      where
        parsed :
            (res : Result ErrorCode LoginRequest)
            → Sets services (login_parsed services fuel ctx.response res w) header w'
            → (req_params : LoginRequest) × (res ≡ ok req_params) × LoginOf req_params header w w'
        parsed (ok req) t = (
          req,
          refl,
          login_lem fuel ctx.response req (check_login is_email req) w w' header bare refl t,
        )
        parsed (err e) t = absurd (
            no_cookie services (invalid _ ctx.response) header w w'
              (invalid-Bare services _ ctx.response bare) t)
        parsed (throws what) t = cc t.is
        parsed undefined t = cc t.is
