-- ===== src/MysqlClient.antt =====
-- server/include/services/mysql_client.hpp: the abstract class mysql_client, which the client of
-- server/src/services/mysql_client.cpp, in MysqlClient/Client, derives from. Its users get the
-- state that the database shares with the rest of the outside.
pub mod Suffix
pub mod Pool
pub mod Client
pub mod Table
pub mod Refines
pub mod Usernames
pub mod Retries
use servertech_chat.Prelude.{Bytes, List}
use servertech_chat.Prelude.Decimal.{ℤ}
use servertech_chat.Exec.{Exec}
use servertech_chat.BusinessTypes.{User, AuthUser, UsernameMap}

pub record MysqlClient (World : Type 0) : Type 0 where
  pub create_user : Bytes → Bytes → Bytes → Exec World ℤ
  pub get_user_by_email : Bytes → Exec World AuthUser
  pub get_user_by_id : ℤ → Exec World User
  pub get_usernames : List ℤ → Exec World UsernameMap
