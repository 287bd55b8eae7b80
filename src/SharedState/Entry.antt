-- ===== src/SharedState/Entry.antt =====
-- Who the cookie of a new account is, for a chat session.
use servertech_chat.Prelude.{
  ℕ, ◌≡◌, ◌⊎◌, inl, inr, refl, ap, ◌∙◌, subst, Bytes, Option, none, some, arith,
}
use servertech_chat.Prelude.Decimal.{ℤ}
use servertech_chat.Error.{ErrorWithMessage, Result, ok, err}
use servertech_chat.BusinessTypes.{User}
use servertech_chat.Cookie.{CookiePair}
use servertech_chat.Cookie.Build.{name_value_pair}
use servertech_chat.RedisClient.{get_command, get_int_key}
use servertech_chat.SessionStore.{get_redis_key, get_user_by_session}
use servertech_chat.CookieAuthService.{
  look_up, session_cookie_in, user_id_from_cookie, user_from_cookie,
}
use servertech_chat.MysqlClient.Client.{get_user_by_id}
use servertech_chat.MysqlClient.Table.{Row, user, IsForeign, SqlLaws, Finds, found}
use servertech_chat.MysqlClient.Table
use servertech_chat.MysqlClient.Refines.{get_user_by_id-Finds, first-matching, same_id_refl}
use servertech_chat.RequestContext.{RequestContext, parse_json_body}
use servertech_chat.RoomHistoryService.{same_id}
use servertech_chat.Auth.Services.{CreateAccountRequest}
use servertech_chat.Auth.{handle_create_account}
use servertech_chat.Auth.Cookies.{Sets}
use servertech_chat.Auth.Accounts.{handle_create_account_lem}
use servertech_chat.SharedState.{Libraries}
use servertech_chat.SharedState.Laws.{LibraryLaws, auth_services-BigintIds}
use servertech_chat.SharedState.Accounts.{services, row_of, Account, Account-row}

module _ (libs : Libraries) (laws : LibraryLaws libs) (doc_root : Bytes) where
  open libs use {World, random, pool, redis, async_exec_int, create_account_from_json}
  open laws use {sql, redis_int-table}
  open sql use {table}

  look_up-table : (o : Option CookiePair) (w : World) → table (look_up random o w).1 ≡ table w
  unfolding get_user_by_session get_int_key
  look_up-table none w = refl
  look_up-table (some p) w =
      ap table unmoved ∙ redis_int-table (get_command (get_redis_key p.value)) w
    where
      unmoved :
          (look_up random (some p) w).1 ≡ (async_exec_int (get_command (get_redis_key p.value)) w).1
      unmoved = ground arith

  -- A look-up of the user that is found, or an error of the database.
  abbrev pub Enters : Option Bytes → ℤ → Bytes → World → Type 0
  Enters header user_id username w =
      ((user_from_cookie random (services libs laws doc_root).mysql header w).0
        ≡ ok (record { id = user_id; username = username }))
      ⊎ ((e : ErrorWithMessage) × IsForeign e.ec
          × ((user_from_cookie random (services libs laws doc_root).mysql header w).0 ≡ err e))

  entered :
      (header : Option Bytes) (row : Row) (w : World)
      → (user_id_from_cookie random header w).0 ≡ ok row.id
      → (answer : Result ErrorWithMessage User)
      → (get_user_by_id pool row.id (user_id_from_cookie random header w).1).0 ≡ answer
      → Finds user (some row) answer
      → Enters header row.id row.username w
  unfolding user_from_cookie
  entered header row w known _ asked (found _) = inl (rw known asked)
  entered header row w known _ asked (Table.Finds.fails _ e foreign) =
      inr (e, foreign, rw known asked)

  -- Over libraries that keep LibraryLaws, and a response builder without a cookie: when creating an
  -- account has set a cookie, then in the state that it leaves, the Cookie header that a user agent
  -- makes of it is, for user_from_cookie, a user with the username of the account, or the look-up
  -- ends in an error that is not of this program.
  pub user_from_cookie-handle_create_account :
      (fuel : ℕ) (ctx : RequestContext) (req_params : CreateAccountRequest) (w w1 : World)
      (header : Bytes)
      → ctx.response.cookie ≡ none
      → parse_json_body create_account_from_json ctx ≡ ok req_params
      → Sets
          (services libs laws doc_root)
          (handle_create_account (services libs laws doc_root) fuel ctx w)
          header
          w1
      → (user_id : ℤ) × Enters (some (name_value_pair header)) user_id req_params.username w1
  unfolding user_id_from_cookie
  user_from_cookie-handle_create_account fuel ctx req_params w w1 header bare parsed sets =
      let ids = auth_services-BigintIds libs laws doc_root in
      let (req, parsed_req, made) =
        handle_create_account_lem (services libs laws doc_root) laws.sessions ids fuel ctx w w1
          header bare sets in
      let same_req : req ≡ req_params = cc (parsed_req, parsed) in
      let account = subst (λ x. Account libs laws doc_root fuel x header w w1) same_req made in
      let row = row_of libs laws doc_root req_params account.user_id account.hashed_passwd in
      let cookie = some (name_value_pair header) in
      let behind = (user_id_from_cookie random cookie w1).1 in
      (
        account.user_id,
        entered cookie row w1 account.logged_in _ refl (
            subst (λ o. Finds user o (get_user_by_id pool account.user_id behind).0)
              (first-matching (λ row. same_id row.id account.user_id) (table behind) _ _
                (look_up-table (session_cookie_in (name_value_pair header)) w1
                  ∙ Account-row libs laws doc_root fuel req_params header w w1 account)
                (same_id_refl pool sql account.user_id))
              (get_user_by_id-Finds pool sql account.user_id behind).0),
      )
