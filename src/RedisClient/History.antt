-- ===== src/RedisClient/History.antt =====
-- Room history over a connection that answers with well-formed responses.
use servertech_chat.Prelude.{◌≡◌, Bytes, List, ◌∷◌, map, refl}
use servertech_chat.Error.{ok}
use servertech_chat.BusinessTypes.{Message, MessageBatch}
use servertech_chat.RedisSerialization.Grammar.{Response, node, nodes_of, Batches}
use servertech_chat.RedisSerialization.{blob_string}
use servertech_chat.RedisSerialization.Accepts.{
  parse_room_history_batch-nodes_of, parse_batch_xadd_response_lem,
}
use servertech_chat.RedisClient.Connection.{value, RedisConnection}
use servertech_chat.RedisClient.{
  RoomHistoryRequest, xrevrange, xadd, set_has_more, get_room_history, store_messages,
}

module _ (c : RedisConnection) where
  open c use {World, async_exec, parse_payload, json_of}

  -- When the server answers the pipeline of XREVRANGE commands with well-formed streams of entries,
  -- get_room_history returns the batches that the streams stand for, and a batch has more exactly
  -- if it is full.
  get_room_history-nodes_of :
      (req : RoomHistoryRequest) (reqs : List RoomHistoryRequest) (rs : List Response)
      (bs : List MessageBatch) (w w' : World)
      → async_exec (map xrevrange (req ∷ reqs)) w ≡ (ok (value (nodes_of rs)), w')
      → Batches parse_payload rs bs
      → get_room_history c (req ∷ reqs) w ≡ (ok (map set_has_more bs), w')
  unfolding get_room_history
  get_room_history-nodes_of req reqs rs bs w w' answered streams =
      rw (answered, parse_room_history_batch-nodes_of parse_payload rs bs streams) refl

  -- When the server answers the pipeline of XADD commands with an identifier for each,
  -- store_messages returns the identifiers in their order.
  pub store_messages_lem :
      (room_id : Bytes) (messages : List Message) (ids : List Bytes) (w w' : World)
      → async_exec (map (xadd json_of room_id) messages) w
        ≡ (ok (value (map (λ id. node blob_string 1 0 id) ids)), w')
      → store_messages c room_id messages w ≡ (ok ids, w')
  unfolding store_messages
  store_messages_lem room_id messages ids w w' answered =
      rw (answered, parse_batch_xadd_response_lem ids) refl
