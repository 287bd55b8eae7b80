-- ===== src/RoomHistoryService.antt =====
-- server/include/services/room_history_service.hpp and
-- server/src/services/room_history_service.cpp.
pub mod UserIds
use servertech_chat.Prelude.{
  Bool, true, false, ◌==◌, Bytes, List, [], ◌∷◌, map, none, if◌then◌else◌,
}
use servertech_chat.Prelude.Decimal.{ℤ, pos, negsuc}
use servertech_chat.Error.{ErrorWithMessage, Result, ok, undefined}
use servertech_chat.Exec.{Exec, continue, ◌>>=◌, pure, lift}
use servertech_chat.BusinessTypes.{Message, MessageBatch, UsernameMap}
use servertech_chat.RedisClient.{RoomHistoryRequest, get_room_history}
use servertech_chat.RedisClient.Connection.{RedisConnection}
use servertech_chat.MysqlClient.{MysqlClient}

abbrev pub same_id : ℤ → ℤ → Bool
same_id (pos a) (pos b) = a == b
same_id (pos a) (negsuc b) = false
same_id (negsuc a) (pos b) = false
same_id (negsuc a) (negsuc b) = a == b

-- std::unordered_set: `contains`, and `insert`; its elements are listed in the order in which they
-- came, which the source leaves open.
unfoldable pub contains : ℤ → List ℤ → Bool
contains id [] = false
contains id (x ∷ set) = let later = contains id set in if same_id id x then true else later

unfoldable pub insert : ℤ → List ℤ → List ℤ
unfolding contains
insert id set = if contains id set then set else id ∷ set

unfoldable pub insert_users : List Message → List ℤ → List ℤ
unfolding insert
insert_users [] set = set
insert_users (msg ∷ messages) set = insert_users messages (insert msg.user_id set)

unfoldable pub insert_batches : List MessageBatch → List ℤ → List ℤ
unfolding insert_users
insert_batches [] set = set
insert_batches (batch ∷ batches) set = insert_batches batches (insert_users batch.messages set)

unfoldable pub unique_user_ids : List MessageBatch → List ℤ
unfolding insert_batches
unique_user_ids input = insert_batches input []

abbrev pub request_for : Bytes → RoomHistoryRequest
request_for id = record { room_id = id; last_message_id = none }

-- `res->first.front()`
abbrev pub front : List MessageBatch → Result ErrorWithMessage MessageBatch
front [] = undefined
front (batch ∷ batches) = ok batch

module _ (c : RedisConnection) (mysql : MysqlClient c.World) where
  open c use {World}

  -- get_room_history for a span of rooms, and for one room.
  unfoldable pub batch_room_history : List Bytes → Exec World (List MessageBatch × UsernameMap)
  unfolding get_room_history unique_user_ids
  batch_room_history room_ids = do
    batches ← get_room_history c (map request_for room_ids)
    usernames ← mysql.get_usernames (unique_user_ids batches)
    pure (batches, usernames)

  unfoldable pub room_history : Bytes → Exec World (MessageBatch × UsernameMap)
  unfolding batch_room_history
  room_history room_id = do
    (batches, usernames) ← batch_room_history (room_id ∷ [])
    batch ← lift (front batches)
    pure (batch, usernames)
