-- ===== src/MysqlClient/Pool.antt =====
-- What the client uses of Boost.MySQL: the connections, and the statements that they execute.
use servertech_chat.Prelude.{ℕ, Bool, Bytes, List, Option}
use servertech_chat.Prelude.Decimal.{ℤ}
use servertech_chat.Error.{ErrorCode}
use servertech_chat.Exec.{Exec}
use servertech_chat.BusinessTypes.{User, AuthUser}

-- An argument of with_params.
pub data Param : Type 0 where
  text : Bytes → Param
  number : ℤ → Param
  numbers : List ℤ → Param

-- struct pool_params and connect_params, as far as they are set.
pub record ConnectParams : Type 0 where
  pub host : Bytes
  pub username : Bytes
  pub password : Bytes
  pub database : Bytes
  pub multi_queries : Bool

-- An error is the error code with the message of the diagnostics.
pub record MysqlPool (World : Type 0) : Type 0 where
  -- ec == mysql::common_server_errc::er_dup_entry
  pub is_dup_entry : ErrorCode → Bool
  pub async_get_connection : Exec World (Unit {0})
  -- async_execute into results, of which the source reads last_insert_id, an uint64_t,
  pub async_execute : Bytes → List Param → Exec World ℕ
  -- and into the rows of static_results.
  pub async_execute_auth_users : Bytes → List Param → Exec World (List AuthUser)
  pub async_execute_users : Bytes → List Param → Exec World (List User)
  pub async_execute_pairs : Bytes → List Param → Exec World (List (ℤ × Bytes))
  pub return_without_reset : World → World
  -- async_connect and async_close of a connection of its own, and a wait of two seconds.
  pub async_connect : ConnectParams → Exec World (Unit {0})
  pub async_close : World → World
  pub async_wait : World → Option ErrorCode × World
