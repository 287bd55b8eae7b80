-- ===== src/Auth/Cookies.antt =====
-- The cookies that the handlers set.
use servertech_chat.Prelude.{ℕ, ◌≡◌, true, Bytes, Option, none, some, arith, ap, ◌∙◌}
use servertech_chat.Prelude.Decimal.{ℤ, fits_int64}
use servertech_chat.Error.{ErrorCode, ErrorWithMessage, Result, ok, err, throws, undefined}
use servertech_chat.BusinessTypes.{AuthUser}
use servertech_chat.Cookie.Build.{name_value_pair}
use servertech_chat.RequestContext.{
  Response, ResponseBuilder, set_cookie, empty_response, plaintext_response, json_error,
  build_response,
}
use servertech_chat.SessionStore.Laws.{SessionLaws}
use servertech_chat.CookieAuthService.{generate_session_cookie, user_id_from_cookie}
use servertech_chat.CookieAuthService.Login.{user_id_from_cookie-generate_session_cookie}
use servertech_chat.Auth.Services.{AuthServices}
use servertech_chat.Auth.{
  Handled, session_response, with_session, create_user_error, get_user_error, login_failed, invalid,
}

module _ (services : AuthServices) where
  open services use {
    World, random, mysql, ssl, rand_priv_bytes, is_email, create_account_from_json, login_from_json,
  }

  -- The outcome of a handler has set the cookie `header`.
  pub record Sets {ℓ} {W : Type ℓ} (out : Handled W) (header : Bytes) (w' : W) : Type ℓ where
    pub response : Response
    pub is : out ≡ some (ok response, w')
    pub cookie : response.cookie ≡ some header

  abbrev pub Bare : ResponseBuilder → Type 0
  Bare resp = resp.cookie ≡ none

  pub no_cookie :
      (r : Response) (header : Bytes) (w w' : World)
      → r.cookie ≡ none
      → ¬ Sets (some (ok r, w)) header w'
  no_cookie r header w w' bare s =
      let same : r ≡ s.response = cc s.is in cc (ap (λ x. x.cookie) same, bare, s.cookie)

  pub session_set :
      (resp : ResponseBuilder) (out : Option (Result ErrorWithMessage Bytes × World))
      (header : Bytes) (w' : World)
      → Bare resp
      → Sets (session_response resp out) header w'
      → out ≡ some (ok header, w')
  unfolding empty_response plaintext_response build_response
  session_set resp none header w' bare s = cc s.is
  session_set resp (some (ok c, w)) header w' bare s =
      let same : empty_response (set_cookie c resp) ≡ s.response = cc s.is in
      let world : w ≡ w' = cc s.is in
      let cookie : some c ≡ some header = ap (λ x. x.cookie) same ∙ s.cookie in cc (cookie, world)
  session_set resp (some (err e, w)) header w' bare s = absurd (no_cookie _ header w w' bare s)
  session_set resp (some (throws e, w)) header w' bare s = cc s.is
  session_set resp (some (undefined, w)) header w' bare s = cc s.is

  pub user_error-Bare :
      (e : ErrorCode) (msg : Bytes) (resp : ResponseBuilder)
      → Bare resp
      → (create_user_error (record { ec = e; msg = msg }) resp).cookie ≡ none
  unfolding create_user_error json_error plaintext_response build_response
  user_error-Bare e msg resp bare = ground (arith, bare)

  pub find_error-Bare :
      (e : ErrorCode) (msg : Bytes) (resp : ResponseBuilder)
      → Bare resp
      → (get_user_error (record { ec = e; msg = msg }) resp).cookie ≡ none
  unfolding get_user_error json_error plaintext_response build_response
  find_error-Bare e msg resp bare = ground (arith, bare)

  pub invalid-Bare :
      (why : Bytes) (resp : ResponseBuilder) → Bare resp → (invalid why resp).cookie ≡ none
  unfolding json_error build_response
  invalid-Bare why resp bare = bare

  pub failed-Bare : (resp : ResponseBuilder) → Bare resp → (login_failed resp).cookie ≡ none
  unfolding json_error build_response
  failed-Bare resp bare = bare

  -- The Cookie header that a user agent makes of `header` gives the user.
  abbrev pub LoggedIn : World → Bytes → ℤ → Type 0
  LoggedIn w header user_id =
      (user_id_from_cookie random (some (name_value_pair header)) w).0 ≡ ok user_id

  -- The id column of the users is a BIGINT.
  pub record BigintIds : Type 0 where
    pub created_fits :
        (username email hash : Bytes) (w : World) (id : ℤ)
        → (mysql.create_user username email hash w).0 ≡ ok id
        → fits_int64 id ≡ true
    pub found_fits :
        (email : Bytes) (w : World) (user : AuthUser)
        → (mysql.get_user_by_email email w).0 ≡ ok user
        → fits_int64 user.id ≡ true

  module _ (laws : SessionLaws random) (ids : BigintIds) where
    open ids use {created_fits, found_fits}

    pub with_session_lem :
        (fuel : ℕ) (resp : ResponseBuilder) (user_id : ℤ) (w w' : World) (header : Bytes)
        → fits_int64 user_id ≡ true
        → Bare resp
        → Sets (with_session services fuel resp user_id w) header w'
        → LoggedIn w' header user_id
    unfolding with_session
    with_session_lem fuel resp user_id w w' header f bare s =
        user_id_from_cookie-generate_session_cookie random laws fuel user_id w w' header f
          (session_set resp (generate_session_cookie random fuel user_id w) header w' bare s)
