-- ===== src/RedisSerialization.antt =====
-- server/src/services/redis_serialization.cpp: the parsers of Redis responses, over the nodes of
-- boost::redis::resp3. The JSON library is a parameter: `parse_payload` stands for
-- boost::json::parse followed by try_value_to<redis_wire_message>, and `json_of` for
-- serialize(value_from(...)).
pub mod Grammar
pub mod Accepts
pub mod States
pub mod Sound
use servertech_chat.Prelude.{
  ℕ, zero, suc, ◌+◌, Bool, true, false, not, ◌||◌, ◌&&◌, Bytes, codes, List, [], ◌∷◌, ◌++◌, Option,
  none, some, ◌==◌, str_eq, if◌then◌else◌, ◌≡◌, refl,
}
use servertech_chat.Prelude.Decimal.{ℤ}
use servertech_chat.Error.{
  ErrorCode, chat, redis_parse_error, Result, ok, err, undefined, ◌>>=◌, ◌>>◌, guard,
}
use servertech_chat.Timestamp.{parse_timestamp, serialize_timestamp}
use servertech_chat.BusinessTypes.{Message, MessageBatch}

-- boost::redis::resp3::type, of which the source tests two.
pub data RespType : Type 0 where
  array blob_string : RespType
  other : ℕ → RespType

abbrev pub is_array : RespType → Bool
is_array array = true
is_array blob_string = false
is_array (other n) = false

abbrev pub is_blob_string : RespType → Bool
is_blob_string array = false
is_blob_string blob_string = true
is_blob_string (other n) = false

-- boost::redis::resp3::node
pub record Node : Type 0 where
  pub data_type : RespType
  pub aggregate_size : ℕ
  pub depth : ℕ
  pub value : Bytes

pub record RedisWireMessage : Type 0 where
  pub content : Bytes
  pub timestamp : ℤ
  pub user_id : ℤ

unfoldable pub to_message : RedisWireMessage → Bytes → Result ErrorCode Message
to_message from id = do
  timestamp ← parse_timestamp from.timestamp
  ok (record { id = id; content = from.content; timestamp = timestamp; user_id = from.user_id })

-- enum state_t
pub data State : Type 0 where
  wants_level0_list wants_level0_or_entry_list wants_id wants_attr_list wants_key : State
  wants_value : State

-- parser_data_t, with the result so far. `id` is the pointer to the entry's ID.
pub record Parser : Type 0 where
  pub state : State
  pub id : Option Bytes
  pub res : List MessageBatch

abbrev pub init : Parser
init = record { state = wants_level0_list; id = none; res = [] }

abbrev pub no_messages : MessageBatch
no_messages = record { messages = []; has_more = false }

-- res.emplace_back()
abbrev pub new_response : Parser → Parser
new_response p = record p { state = wants_level0_or_entry_list; res = p.res ++ no_messages ∷ [] }

-- res.back().messages.push_back(message); the back of an empty vector is undefined.
unfoldable pub push_message : List MessageBatch → Message → Result ErrorCode (List MessageBatch)
push_message [] m = undefined
push_message (b ∷ []) m = ok (record b { messages = b.messages ++ m ∷ [] } ∷ [])
push_message (b ∷ c ∷ rest) m = let more = push_message (c ∷ rest) m in do bs ← more; ok (b ∷ bs)

-- *data.id
abbrev pub deref : Option Bytes → Result ErrorCode Bytes
deref none = undefined
deref (some id) = ok id

-- `if (!b) CHAT_RETURN_ERROR(errc::redis_parse_error)`
abbrev pub want : Bool → Result ErrorCode (Unit {0})
want b = guard b (chat redis_parse_error)

module _ (parse_payload : Bytes → Result ErrorCode RedisWireMessage) where
  -- The last state: an entry's JSON, and the reset of the parser.
  unfoldable pub take_value : Parser → Bytes → Result ErrorCode Parser
  unfolding to_message push_message
  take_value p value = do
    wire ← parse_payload value
    id ← deref p.id
    msg ← to_message wire id
    res ← push_message p.res msg
    ok (record { state = wants_level0_or_entry_list; id = none; res = res })

  -- One round of the loop over the nodes.
  unfoldable pub step : State → Parser → Node → Result ErrorCode Parser
  unfolding take_value
  step wants_level0_list p node = do
    want (is_array node.data_type)
    want (node.depth == 0)
    ok (new_response p)
  step wants_level0_or_entry_list p node = do
    want (is_array node.data_type)
    if node.depth == 0
        then ok (new_response p)
        else if node.depth == 1
        then (do want (node.aggregate_size == 2); ok (record p { state = wants_id }))
        else err (chat redis_parse_error)
  step wants_id p node = do
    want (is_blob_string node.data_type)
    want (node.depth == 2)
    ok (record p { state = wants_attr_list; id = some node.value })
  step wants_attr_list p node = do
    want (is_array node.data_type)
    want (node.depth == 2)
    want (node.aggregate_size == 2)
    ok (record p { state = wants_key })
  step wants_key p node = do
    want (is_blob_string node.data_type)
    want (node.depth == 3)
    want (str_eq node.value (codes "payload"))
    ok (record p { state = wants_value })
  step wants_value p node = do
    want (is_blob_string node.data_type)
    want (node.depth == 3)
    take_value p node.value

  unfoldable pub steps : Parser → List Node → Result ErrorCode Parser
  unfolding step
  steps p [] = ok p
  steps p (node ∷ nodes) = do q ← step p.state p node; steps q nodes

-- `data.state != wants_level0_or_entry_list && data.state != wants_level0_list` is an error.
abbrev pub is_final : State → Bool
is_final wants_level0_list = true
is_final wants_level0_or_entry_list = true
is_final wants_id = false
is_final wants_attr_list = false
is_final wants_key = false
is_final wants_value = false

unfoldable pub finish : Parser → Result ErrorCode (List MessageBatch)
finish p = do want (is_final p.state); ok p.res

unfoldable pub parse_room_history_batch :
    (Bytes → Result ErrorCode RedisWireMessage) → List Node → Result ErrorCode (List MessageBatch)
unfolding steps finish
parse_room_history_batch parse_payload nodes = do p ← steps parse_payload init nodes; finish p

unfoldable pub parse_batch_xadd_response : List Node → Result ErrorCode (List Bytes)
parse_batch_xadd_response [] = ok []
parse_batch_xadd_response (node ∷ nodes) =
    let more = parse_batch_xadd_response nodes in
    do
      want (node.depth == 0)
      want (is_blob_string node.data_type)
      ids ← more
      ok (node.value ∷ ids)

unfoldable pub serialize_redis_message : (RedisWireMessage → Bytes) → Message → Bytes
serialize_redis_message json_of msg = json_of (record {
  content = msg.content;
  timestamp = serialize_timestamp msg.timestamp;
  user_id = msg.user_id;
})
