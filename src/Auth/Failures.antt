-- ===== src/Auth/Failures.antt =====
-- What a failed login tells.
use servertech_chat.Prelude.{ℕ, ◌≡◌, false, none, some, refl, ◌⊎◌, inl, inr}
use servertech_chat.Error.{ErrorWithMessage, chat, not_found, no_message, Result, ok, err}
use servertech_chat.BusinessTypes.{AuthUser}
use servertech_chat.RequestContext.{RequestContext, parse_json_body}
use servertech_chat.Scrypt.{verify_password}
use servertech_chat.Auth.Services.{LoginRequest, AuthServices}
use servertech_chat.Auth.{
  handle_login, login, with_found, with_verdict, check_login, get_user_error, login_failed,
}

module _ (services : AuthServices) where
  open services use {World, mysql, ssl, is_email, create_account_from_json, login_from_json}

  -- A login that passes validation gets one and the same response when its email names no user and
  -- when its password is not the user's, so that the response tells no emails.
  handle_login_failed :
      (fuel : ℕ) (ctx : RequestContext) (req_params : LoginRequest) (w w' : World)
      (answer : Result ErrorWithMessage AuthUser)
      → parse_json_body login_from_json ctx ≡ ok req_params
      → check_login is_email req_params ≡ none
      → mysql.get_user_by_email req_params.email w ≡ (answer, w')
      → (answer ≡ err (no_message (chat not_found)))
        ⊎ ((user : AuthUser) × (answer ≡ ok user)
            × (verify_password ssl req_params.password user.hashed_password ≡ ok false))
      → handle_login services fuel ctx w ≡ some (ok (login_failed ctx.response), w')
  unfolding handle_login login with_found with_verdict get_user_error
  handle_login_failed fuel ctx req_params w w' answer parsed checked asked (inl absent) =
      rw (parsed, checked, asked, absent) refl
  handle_login_failed fuel ctx req_params w w' answer parsed checked asked (inr (user, is, wrong)) =
      rw (parsed, checked, asked, is, wrong) refl
