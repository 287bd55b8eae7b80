-- ===== src/RedisClient/Connection.antt =====
-- The connection of Boost.Redis, and the JSON library that the payloads go through.
use servertech_chat.Prelude.{Bytes, List, Option}
use servertech_chat.Prelude.Decimal.{ℤ}
use servertech_chat.Error.{ErrorCode, Result}
use servertech_chat.RedisSerialization.{Node, RedisWireMessage}

-- A response that was received: its value, or the error that Redis or its adapter gave, with its
-- diagnostic.
pub data Adapted {ℓ} (A : Type ℓ) : Type ℓ where
  value : A → Adapted A
  redis_error : Bytes → Adapted A

pub record RedisConnection : Type 1 where
  pub World : Type 0
  -- async_exec of a pipeline into a generic_response.
  pub async_exec : List (List Bytes) → World → Result ErrorCode (Adapted (List Node)) × World
  -- async_exec of one command into a response<optional<string>>, and a response<optional<int64>>.
  pub async_exec_string : List Bytes → World → Result ErrorCode (Adapted (Option Bytes)) × World
  pub async_exec_int : List Bytes → World → Result ErrorCode (Adapted (Option ℤ)) × World
  -- boost::json::parse then try_value_to<redis_wire_message>; serialize(value_from(...)).
  pub parse_payload : Bytes → Result ErrorCode RedisWireMessage
  pub json_of : RedisWireMessage → Bytes
