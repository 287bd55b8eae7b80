-- ===== src/BusinessTypes.antt =====
-- server/include/business_types.hpp: the values that the components exchange.
use servertech_chat.Prelude.{Bool, Bytes, List}
use servertech_chat.Prelude.Decimal.{ℤ}

pub record User : Type 0 where
  pub id : ℤ
  pub username : Bytes

pub record AuthUser : Type 0 where
  pub id : ℤ
  pub hashed_password : Bytes

pub record Message : Type 0 where
  pub id : Bytes
  pub content : Bytes
  pub timestamp : ℤ
  pub user_id : ℤ

pub record MessageBatch : Type 0 where
  pub messages : List Message
  pub has_more : Bool

pub record Room : Type 0 where
  pub id : Bytes
  pub name : Bytes
  pub history : MessageBatch

-- std::unordered_map<std::int64_t, std::string>, with its entries in any order.
abbrev pub UsernameMap : Type 0
UsernameMap = List (ℤ × Bytes)
