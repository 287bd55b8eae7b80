-- ===== src/Auth/Accounts.antt =====
-- Who gets a session with a new account.
use servertech_chat.Prelude.{ℕ, ◌≤◌, ◌≡◌, true, Bytes, length, Option, none, some, refl, arith}
use servertech_chat.Prelude.Decimal.{ℤ, fits_int64}
use servertech_chat.Error.{ErrorCode, ErrorWithMessage, Result, ok, err, throws, undefined}
use servertech_chat.RequestContext.{ResponseBuilder, RequestContext, parse_json_body}
use servertech_chat.SessionStore.Laws.{SessionLaws}
use servertech_chat.Scrypt.{salt_size, hash_password}
use servertech_chat.CookieAuthService.{generate_session_cookie}
use servertech_chat.Auth.Services.{CreateAccountRequest, AuthServices}
use servertech_chat.Auth.{
  with_session, with_user, with_hash, create_account, check_create_account, create_account_parsed,
  handle_create_account, create_user_error, invalid,
}
use servertech_chat.Auth.Cookies.{
  no_cookie, user_error-Bare, invalid-Bare, with_session_lem, session_set, Sets, Bare, LoggedIn,
  BigintIds,
}

module _ (services : AuthServices) where
  open services use {
    World, random, mysql, ssl, rand_priv_bytes, is_email, create_account_from_json, login_from_json,
  }

  module _ (laws : SessionLaws random) (ids : BigintIds services) where
    open ids use {created_fits, found_fits}

    -- What a successful registration rests on.
    pub record AccountOf (fuel : ℕ) (req_params : CreateAccountRequest) (header : Bytes)
        (w w' : World) : Type 0 where
      pub username_min : 4 ≤ length req_params.username
      pub username_max : length req_params.username ≤ 100
      pub email_size : length req_params.email ≤ 100
      pub email_format : is_email req_params.email ≡ true
      pub password_min : 10 ≤ length req_params.password
      pub password_max : length req_params.password ≤ 100
      pub hashed_passwd : Bytes
      pub hashed :
          hash_password ssl (rand_priv_bytes salt_size w).0 req_params.password ≡ ok hashed_passwd
      pub user_id : ℤ
      pub created :
          (mysql.create_user req_params.username req_params.email hashed_passwd
            (rand_priv_bytes salt_size w).1).0
          ≡ ok user_id
      pub made :
          generate_session_cookie random fuel user_id
            (mysql.create_user req_params.username req_params.email hashed_passwd
              (rand_priv_bytes salt_size w).1).1
          ≡ some (ok header, w')
      pub logged_in : LoggedIn services w' header user_id

    user_lem :
        (fuel : ℕ) (resp : ResponseBuilder) (answer : Result ErrorWithMessage ℤ) (w w' : World)
        (header : Bytes)
        → ((id : ℤ) → answer ≡ ok id → fits_int64 id ≡ true)
        → Bare services resp
        → Sets services (with_user services fuel resp answer w) header w'
        → (user_id : ℤ) × (answer ≡ ok user_id)
          × (generate_session_cookie random fuel user_id w ≡ some (ok header, w'))
          × LoggedIn services w' header user_id
    unfolding with_user with_session
    user_lem fuel resp (ok user_id) w w' header f bare s = (
      user_id,
      refl,
      session_set services resp (generate_session_cookie random fuel user_id w) header w' bare s,
      with_session_lem services laws ids fuel resp user_id w w' header (f user_id refl) bare s,
    )
    user_lem fuel resp (err e) w w' header f bare s = absurd (
        no_cookie services (create_user_error e resp) header w w'
          (user_error-Bare services e.ec e.msg resp bare) s)
    user_lem fuel resp (throws e) w w' header f bare s = cc s.is
    user_lem fuel resp undefined w w' header f bare s = cc s.is

    hash_lem :
        (fuel : ℕ) (resp : ResponseBuilder) (req_params : CreateAccountRequest)
        (hash : Result ErrorCode Bytes) (w w' : World) (header : Bytes)
        → Bare services resp
        → Sets services (with_hash services fuel resp req_params hash w) header w'
        → (hashed_passwd : Bytes) × (hash ≡ ok hashed_passwd)
          × (user_id : ℤ) × ((mysql.create_user req_params.username req_params.email hashed_passwd
                w).0
              ≡ ok user_id)
          × (generate_session_cookie random fuel user_id
                (mysql.create_user req_params.username req_params.email hashed_passwd w).1
              ≡ some (ok header, w'))
          × LoggedIn services w' header user_id
    unfolding with_hash
    hash_lem fuel resp req_params (ok hashed_passwd) w w' header bare s =
        let (answer, w1) = mysql.create_user req_params.username req_params.email hashed_passwd w in
        let (user_id, is, made, logged) =
          user_lem fuel resp answer w1 w' header
            (created_fits req_params.username req_params.email hashed_passwd w) bare s in
        (hashed_passwd, refl, user_id, is, made, logged)
    hash_lem fuel resp req_params (err e) w w' header bare s = cc s.is
    hash_lem fuel resp req_params (throws e) w w' header bare s = cc s.is
    hash_lem fuel resp req_params undefined w w' header bare s = cc s.is

    account_lem :
        (fuel : ℕ) (resp : ResponseBuilder) (req_params : CreateAccountRequest) (why : Option Bytes)
        (w w' : World) (header : Bytes)
        → Bare services resp
        → check_create_account is_email req_params ≡ why
        → Sets services (create_account services fuel resp req_params why w) header w'
        → AccountOf fuel req_params header w w'
    unfolding create_account check_create_account
    account_lem fuel resp req_params (some why) w w' header bare e s =
        absurd (
          no_cookie services (invalid why resp) header w w' (invalid-Bare services why resp bare) s)
    account_lem fuel resp req_params none w w' header bare e s =
        let (salt, w1) = rand_priv_bytes salt_size w in
        let (hashed_passwd, hashed, user_id, is, made, logged) =
          hash_lem fuel resp req_params (hash_password ssl salt req_params.password) w1 w' header
            bare s in
        record {
          username_min = ground arith;
          username_max = ground arith;
          email_size = ground arith;
          email_format = ground arith;
          password_min = ground arith;
          password_max = ground arith;
          hashed_passwd = hashed_passwd;
          hashed = hashed;
          user_id = user_id;
          created = is;
          made = made;
          logged_in = logged;
        }

    -- Over services that keep SessionLaws and BigintIds, and a response builder without a cookie,
    -- creating an account sets a cookie only if the body is a request with a username of 4 to 100
    -- bytes, an email of at most 100 bytes in the right format and a password of 10 to 100 bytes,
    -- and create_user has returned a number for the hash of that password under a fresh salt; and
    -- the cookie is the one that generate_session_cookie then made for that number, and logs it in.
    pub handle_create_account_lem :
        (fuel : ℕ) (ctx : RequestContext) (w w' : World) (header : Bytes)
        → ctx.response.cookie ≡ none
        → Sets services (handle_create_account services fuel ctx w) header w'
        → (req_params : CreateAccountRequest) × (parse_json_body create_account_from_json ctx
            ≡ ok req_params)
          × AccountOf fuel req_params header w w'
    unfolding handle_create_account
    handle_create_account_lem fuel ctx w w' header bare s =
        parsed (parse_json_body create_account_from_json ctx) s
      where
        parsed :
            (res : Result ErrorCode CreateAccountRequest)
            → Sets services (create_account_parsed services fuel ctx.response res w) header w'
            → (req_params : CreateAccountRequest) × (res ≡ ok req_params)
              × AccountOf fuel req_params header w w'
        parsed (ok req) t = (
          req,
          refl,
          account_lem fuel ctx.response req (check_create_account is_email req) w w' header bare
              refl t,
        )
        parsed (err e) t = absurd (
            no_cookie services (invalid _ ctx.response) header w w'
              (invalid-Bare services _ ctx.response bare) t)
        parsed (throws what) t = cc t.is
        parsed undefined t = cc t.is
