-- ===== src/Auth/Services.antt =====
-- What the handlers use of the shared state and of the libraries.
use servertech_chat.Prelude.{ℕ, Bool, Bytes, Option}
use servertech_chat.Error.{ErrorCode, Result}
use servertech_chat.MysqlClient.{MysqlClient}
use servertech_chat.Scrypt.OpenSsl.{Ssl}
use servertech_chat.SessionStore.Backend.{Random}

-- struct create_account_request
pub record CreateAccountRequest : Type 0 where
  pub username : Bytes
  pub email : Bytes
  pub password : Bytes

-- struct login_request
pub record LoginRequest : Type 0 where
  pub email : Bytes
  pub password : Bytes

pub record AuthServices : Type 1 where
  pub random : Random
  pub open random use *
  pub mysql : MysqlClient World
  pub ssl : Ssl
  -- RAND_priv_bytes: `none` is a result that is not positive.
  pub rand_priv_bytes : ℕ → World → Option Bytes × World
  -- The regular expression of email.cpp.
  pub is_email : Bytes → Bool
  -- Boost.JSON: the text parsed, and read as the members of the struct.
  pub create_account_from_json : Bytes → Result ErrorCode CreateAccountRequest
  pub login_from_json : Bytes → Result ErrorCode LoginRequest
