-- ===== src/SharedState.antt =====
-- server/include/shared_state.hpp and server/src/shared_state.cpp: the services that all the
-- sessions share, made over one outside, and what the endpoints get of them.
pub mod Laws
pub mod Accounts
pub mod Entry
use servertech_chat.Prelude.{ℕ, Bool, Bytes, Option}
use servertech_chat.Error.{ErrorCode, Result}
use servertech_chat.Scrypt.OpenSsl.{Ssl}
use servertech_chat.SessionStore.Backend.{Random}
use servertech_chat.Email.{is_email}
use servertech_chat.MysqlClient.{MysqlClient}
use servertech_chat.MysqlClient.Pool.{MysqlPool}
use servertech_chat.MysqlClient.Client.{client}
use servertech_chat.Auth.Services.{CreateAccountRequest, LoginRequest, AuthServices}

-- The libraries behind the services: Boost.Redis, Boost.MySQL, OpenSSL, ICU and Boost.JSON.
pub record Libraries : Type 1 where
  pub random : Random
  pub open random use *
  pub pool : MysqlPool World
  pub ssl : Ssl
  -- RAND_priv_bytes: `none` is a result that is not positive.
  pub rand_priv_bytes : ℕ → World → Option Bytes × World
  -- What `\s` is in a regular expression, by ICU.
  pub is_space : ℕ → Bool
  pub create_account_from_json : Bytes → Result ErrorCode CreateAccountRequest
  pub login_from_json : Bytes → Result ErrorCode LoginRequest

-- The members of shared_state that hold no state of this program: the sessions, Redis and MySQL are
-- of the outside.
pub record SharedState (libs : Libraries) : Type 0 where
  pub doc_root : Bytes
  pub mysql : MysqlClient libs.World

-- The constructor, of which create_mysql_client is the part that is chosen here.
abbrev pub shared_state : (libs : Libraries) → Bytes → SharedState libs
shared_state libs doc_root = record { doc_root = doc_root; mysql = client libs.pool }

-- What the endpoints see of the state.
abbrev pub auth_services : (libs : Libraries) → SharedState libs → AuthServices
auth_services libs st = record {
  random = libs.random;
  mysql = st.mysql;
  ssl = libs.ssl;
  rand_priv_bytes = libs.rand_priv_bytes;
  is_email = is_email libs.is_space;
  create_account_from_json = libs.create_account_from_json;
  login_from_json = libs.login_from_json;
}
