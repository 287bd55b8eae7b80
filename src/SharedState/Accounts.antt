-- ===== src/SharedState/Accounts.antt =====
-- Creating an account and logging in to it, over the services that share one state.
use servertech_chat.Prelude.{
  ℕ, ◌≡◌, refl, ap, ◌∙◌, subst, true, Bytes, ◌∷◌, Option, none, some, arith,
}
use servertech_chat.Prelude.Decimal.{ℤ, fits_int64}
use servertech_chat.Error.{ErrorCode, ErrorWithMessage, chat, Result, ok}
use servertech_chat.BusinessTypes.{AuthUser}
use servertech_chat.RequestContext.{
  ResponseBuilder, RequestContext, parse_json_body, internal_server_error,
}
use servertech_chat.Scrypt.{salt_size, hash_password, verify_password}
use servertech_chat.Scrypt.OpenSsl.{Ssl}
use servertech_chat.Scrypt.Verify.{verify_password-hash_password}
use servertech_chat.Email.{is_email}
use servertech_chat.MysqlClient.Client.{create_user, get_user_by_email}
use servertech_chat.MysqlClient.Table.{
  Row, auth_user, matching, first, IsForeign, SqlLaws, Finds, found,
}
use servertech_chat.MysqlClient.Table
use servertech_chat.MysqlClient.Refines.{
  Creates-row, create_user-Creates, get_user_by_email-Finds, first-matching,
}
use servertech_chat.Auth.Services.{CreateAccountRequest, LoginRequest, AuthServices}
use servertech_chat.Auth.{
  handle_create_account, handle_login, login, with_found, with_verdict, with_session, check_login,
  get_user_error,
}
use servertech_chat.Auth.Cookies.{Sets, LoggedIn, with_session_lem}
use servertech_chat.Auth.Accounts.{AccountOf, handle_create_account_lem}
use servertech_chat.SharedState.{Libraries, shared_state, auth_services}
use servertech_chat.SharedState.Laws.{
  LibraryLaws, generate_session_cookie-table, auth_services-BigintIds,
}

-- An error that is not of this program is not told from any other.
foreign_error :
    (ec : ErrorCode) (msg : Bytes) (resp : ResponseBuilder)
    → IsForeign ec
    → get_user_error (record { ec = ec; msg = msg }) resp
      ≡ internal_server_error (record { ec = ec; msg = msg }) resp
unfolding get_user_error
foreign_error (chat code) msg resp foreign = absurd (foreign code refl)
foreign_error ErrorCode.invalid_argument msg resp foreign = refl
foreign_error ErrorCode.result_out_of_range msg resp foreign = refl
foreign_error ErrorCode.operation_aborted msg resp foreign = refl
foreign_error (ErrorCode.foreign n) msg resp foreign = refl

-- The salt of a hash was drawn.
drawn_salt :
    (ssl : Ssl) (salt : Option Bytes) (password hashed : Bytes)
    → hash_password ssl salt password ≡ ok hashed
    → (bs : Bytes) × (salt ≡ some bs) × (hash_password ssl (some bs) password ≡ ok hashed)
unfolding hash_password
drawn_salt ssl none password hashed e = cc e
drawn_salt ssl (some bs) password hashed e = (bs, refl, e)

module _ (libs : Libraries) (laws : LibraryLaws libs) (doc_root : Bytes) where
  open libs use {
    World, random, pool, ssl, rand_priv_bytes, is_space, create_account_from_json, login_from_json,
  }
  open laws use {sql, rand_priv_bytes-IsByte}
  open sql use {table, same}

  abbrev pub services : AuthServices
  services = auth_services libs (shared_state libs doc_root)

  -- How a login to an account answers in the state `w`.
  pub data LogsIn (fuel : ℕ) (ctx : RequestContext) (user_id : ℤ) (w : World) : Type 0 where
    database_fails :
        (e : ErrorWithMessage) (w' : World)
        → IsForeign e.ec
        → handle_login services fuel ctx w ≡ some (ok (internal_server_error e ctx.response), w')
        → LogsIn fuel ctx user_id w
    session_drawn :
        (w' : World)
        → handle_login services fuel ctx w ≡ with_session services fuel ctx.response user_id w'
        → ((header : Bytes) (w'' : World)
            → Sets services (handle_login services fuel ctx w) header w''
            → LoggedIn services w'' header user_id)
        → LogsIn fuel ctx user_id w

  -- The user that the row of an account is.
  look_up :
      (fuel : ℕ) (ctx : RequestContext) (req_params : LoginRequest) (row : Row) (w : World)
      (answer : Result ErrorWithMessage AuthUser)
      → ctx.response.cookie ≡ none
      → parse_json_body login_from_json ctx ≡ ok req_params
      → check_login (is_email is_space) req_params ≡ none
      → fits_int64 row.id ≡ true
      → verify_password ssl req_params.password row.password ≡ ok true
      → (get_user_by_email pool req_params.email w).0 ≡ answer
      → Finds auth_user (some row) answer
      → LogsIn fuel ctx row.id w
  unfolding handle_login login with_found with_verdict
  look_up fuel ctx req_params row w _ bare parsed checked fits verified asked (found _) =
      let w' = (get_user_by_email pool req_params.email w).1 in
      session_drawn w' drawn (λ header w'' s.
        with_session_lem services laws.sessions (auth_services-BigintIds libs laws doc_root) fuel
          ctx.response row.id w' w'' header fits bare
          (subst (λ out. Sets services out header w'') drawn s))
    where
      drawn :
          handle_login services fuel ctx w
          ≡ with_session services fuel ctx.response row.id
              (get_user_by_email pool req_params.email w).1
      drawn = rw (parsed, checked, asked, verified) refl
  look_up fuel ctx req_params row w _ bare parsed checked fits verified asked
        (Table.Finds.fails _ e foreign) =
      database_fails e (get_user_by_email pool req_params.email w).1 foreign (
        rw (parsed, checked, asked)
          (ap (λ r. some (ok r, (get_user_by_email pool req_params.email w).1))
            (foreign_error e.ec e.msg ctx.response foreign)))

  abbrev pub Account : ℕ → CreateAccountRequest → Bytes → World → World → Type 0
  Account = AccountOf services laws.sessions (auth_services-BigintIds libs laws doc_root)

  abbrev pub row_of : CreateAccountRequest → ℤ → Bytes → Row
  row_of req_params user_id hashed_passwd = record {
    id = user_id;
    username = req_params.username;
    email = req_params.email;
    password = hashed_passwd;
  }

  -- The row of an account is there when its cookie is set.
  pub Account-row :
      (fuel : ℕ) (req_params : CreateAccountRequest) (header : Bytes) (w w' : World)
      (account : Account fuel req_params header w w')
      → table w'
        ≡ row_of req_params account.user_id account.hashed_passwd
          ∷ table (rand_priv_bytes salt_size w).1
  Account-row fuel req_params header w w' account =
      let w1 = (rand_priv_bytes salt_size w).1 in
      let w2 = (create_user pool req_params.username req_params.email account.hashed_passwd w1).1 in
      generate_session_cookie-table libs laws fuel account.user_id w2 w' header account.made
      ∙ Creates-row pool sql req_params.username req_params.email account.hashed_passwd (table w1)
          (table w2) _ account.user_id
          (create_user-Creates pool sql req_params.username req_params.email account.hashed_passwd
            w1)
          account.created

  -- Its password is verified against the hash in it.
  Account-verified :
      (fuel : ℕ) (req_params : CreateAccountRequest) (header : Bytes) (w w' : World)
      (account : Account fuel req_params header w w')
      → verify_password ssl req_params.password account.hashed_passwd ≡ ok true
  Account-verified fuel req_params header w w' account =
      let (bs, drawn, hashed) =
        drawn_salt ssl _ req_params.password account.hashed_passwd account.hashed in
      verify_password-hash_password ssl laws.writes bs req_params.password account.hashed_passwd
        (rand_priv_bytes-IsByte salt_size w bs drawn) hashed

  -- What is valid for an account is valid for a login.
  Account-checked :
      (fuel : ℕ) (req_params : CreateAccountRequest) (header : Bytes) (w w' : World)
      (account : Account fuel req_params header w w')
      → check_login
          (is_email is_space)
          (record { email = req_params.email; password = req_params.password })
        ≡ none
  unfolding check_login
  Account-checked fuel req_params header w w' account =
      ground (
        arith, account.email_size, account.email_format, account.password_min, account.password_max,
      )

  Account-found :
      (fuel : ℕ) (req_params : CreateAccountRequest) (header : Bytes) (w w' later : World)
      (account : Account fuel req_params header w w')
      → table later ≡ table w'
      → Finds auth_user
          (some (row_of req_params account.user_id account.hashed_passwd))
          (get_user_by_email pool req_params.email later).0
  Account-found fuel req_params header w w' later account kept =
      subst (λ o. Finds auth_user o (get_user_by_email pool req_params.email later).0)
        (first-matching (λ row. same row.email req_params.email) (table later) _ _
          (kept ∙ Account-row fuel req_params header w w' account) (sql.same_refl req_params.email))
        (get_user_by_email-Finds pool sql req_params.email later).0

  -- Over libraries that keep LibraryLaws, and response builders without a cookie: when creating an
  -- account has set a cookie, the account has a number that this cookie logs in, and a later login
  -- with the account's email and password, which finds the table of users as it was left, never
  -- fails for the credentials: it is answered with the error of a database that fails, or draws a
  -- session, and any cookie that it sets logs the same number in.
  pub handle_login-handle_create_account :
      (fuel fuel' : ℕ) (ctx ctx' : RequestContext) (req_params : CreateAccountRequest)
      (w w1 w2 : World) (header : Bytes)
      → ctx.response.cookie ≡ none
      → ctx'.response.cookie ≡ none
      → parse_json_body create_account_from_json ctx ≡ ok req_params
      → parse_json_body login_from_json ctx'
        ≡ ok (record { email = req_params.email; password = req_params.password })
      → Sets services (handle_create_account services fuel ctx w) header w1
      → table w2 ≡ table w1
      → (user_id : ℤ) × LoggedIn services w1 header user_id × LogsIn fuel' ctx' user_id w2
  handle_login-handle_create_account fuel fuel' ctx ctx' req_params w w1 w2 header bare bare' parsed
        parsed' sets kept =
      let ids = auth_services-BigintIds libs laws doc_root in
      let (req, parsed_req, made) =
        handle_create_account_lem services laws.sessions ids fuel ctx w w1 header bare sets in
      let same_req : req ≡ req_params = cc (parsed_req, parsed) in
      let account = subst (λ x. Account fuel x header w w1) same_req made in
      (
        account.user_id,
        account.logged_in,
        look_up fuel' ctx' (record { email = req_params.email; password = req_params.password })
            (row_of req_params account.user_id account.hashed_passwd) w2 _ bare' parsed'
            (Account-checked fuel req_params header w w1 account)
            (ids.created_fits req_params.username req_params.email account.hashed_passwd _ _
              account.created)
            (Account-verified fuel req_params header w w1 account) refl
            (Account-found fuel req_params header w w1 w2 account kept),
      )
