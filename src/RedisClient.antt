-- ===== src/RedisClient.antt =====
-- server/include/services/redis_client.hpp and server/src/services/redis_client.cpp: the commands
-- that redis_client_impl composes, and what it makes of the responses. The connection itself is
-- Boost.Redis, a parameter.
pub mod Connection
pub mod Running
pub mod History
use servertech_chat.Prelude.{
  ℕ, Bool, true, false, Bytes, codes, List, [], ◌∷◌, ◌++◌, Option, none, some, map, length, leb,
  if◌then◌else◌,
}
use servertech_chat.Prelude.Decimal.{ℤ, print_uint, print_int, pos}
use servertech_chat.Error.{
  ErrorCode, ErrorWithMessage, chat, redis_command_failed, redis_parse_error, already_exists,
  not_found, no_message, Result, ok, err, undefined, throws,
}
use servertech_chat.Exec.{Exec, ◌>>=◌, pure, lift}
use servertech_chat.BusinessTypes.{Message, MessageBatch}
use servertech_chat.RedisSerialization.{
  Node, RedisWireMessage, parse_room_history_batch, parse_batch_xadd_response,
  serialize_redis_message,
}
use Connection.{Adapted, value, redis_error, RedisConnection}

-- static constexpr std::size_t message_batch_size
abbrev pub message_batch_size : ℕ
message_batch_size = 100

-- struct room_histoy_request
pub record RoomHistoryRequest : Type 0 where
  pub room_id : Bytes
  pub last_message_id : Option Bytes

-- The XREVRANGE command for one room.
abbrev pub stream_ref : Option Bytes → Bytes
stream_ref none = codes "+"
stream_ref (some id) = codes "(" ++ id

unfoldable pub xrevrange : RoomHistoryRequest → List Bytes
xrevrange r =
    codes "XREVRANGE"
    ∷ r.room_id
    ∷ stream_ref r.last_message_id
    ∷ codes "-"
    ∷ codes "COUNT"
    ∷ print_uint message_batch_size
    ∷ []

unfoldable pub xadd : (RedisWireMessage → Bytes) → Bytes → Message → List Bytes
xadd json_of room_id msg =
    codes "XADD" ∷ room_id ∷ codes "*" ∷ codes "payload" ∷ serialize_redis_message json_of msg ∷ []

unfoldable pub set_command : Bytes → Bytes → ℕ → List Bytes
set_command key val ttl = codes "SET" ∷ key ∷ val ∷ codes "NX" ∷ codes "EX" ∷ print_uint ttl ∷ []

unfoldable pub get_command : Bytes → List Bytes
get_command key = codes "GET" ∷ key ∷ []

-- batch.has_more = batch.messages.size() >= message_batch_size
unfoldable pub set_has_more : MessageBatch → MessageBatch
set_has_more b = record b { has_more = leb message_batch_size (length b.messages) }

-- `if (ec) return error_with_message{ec};`
abbrev pub bare {ℓ} : {A : Type ℓ} → Result ErrorCode A → Result ErrorWithMessage A
bare (ok a) = ok a
bare (err e) = err (no_message e)
bare (throws w) = throws w
bare undefined = undefined

-- What a response holds, if it is not an error of Redis's.
abbrev pub adapted {ℓ} : {A : Type ℓ} → ErrorCode → Adapted A → Result ErrorWithMessage A
adapted e (value a) = ok a
adapted e (redis_error diagnostic) = err (record { ec = e; msg = diagnostic })

module _ (c : RedisConnection) where
  open c use {World, async_exec, async_exec_string, async_exec_int, parse_payload, json_of}

  unfoldable pub get_room_history : List RoomHistoryRequest → Exec World (List MessageBatch)
  get_room_history [] = lift undefined
  get_room_history (r ∷ rs) = do
    res ← λ w. let (got, w') = async_exec (map xrevrange (r ∷ rs)) w in (bare got, w')
    nodes ← lift (adapted (chat redis_command_failed) res)
    batches ← lift (bare (parse_room_history_batch parse_payload nodes))
    pure (map set_has_more batches)

  unfoldable pub store_messages : Bytes → List Message → Exec World (List Bytes)
  store_messages room_id messages = do
    res ← λ w. let (got, w') = async_exec (map (xadd json_of room_id) messages) w in (bare got, w')
    nodes ← lift (adapted (chat redis_command_failed) res)
    lift (bare (parse_batch_xadd_response nodes))

  abbrev pub was_set : Option Bytes → Result ErrorWithMessage (Unit {0})
  was_set none = err (no_message (chat already_exists))
  was_set (some reply) = ok tt

  unfoldable pub set_nonexisting_key : Bytes → Bytes → ℕ → Exec World (Unit {0})
  set_nonexisting_key key val ttl = do
    res ← λ w. let (got, w') = async_exec_string (set_command key val ttl) w in (bare got, w')
    reply ← lift (adapted (chat redis_parse_error) res)
    lift (was_set reply)

  abbrev pub was_found : Option ℤ → Result ErrorWithMessage ℤ
  was_found none = err (no_message (chat not_found))
  was_found (some n) = ok n

  unfoldable pub get_int_key : Bytes → Exec World ℤ
  get_int_key key = do
    res ← λ w. let (got, w') = async_exec_int (get_command key) w in (bare got, w')
    found ← lift (adapted (chat redis_parse_error) res)
    lift (was_found found)
