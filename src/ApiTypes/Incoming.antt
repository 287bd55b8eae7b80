-- ===== src/ApiTypes/Incoming.antt =====
-- The requests and events that clients send. Boost.JSON parses the texts, and reads a value as a
-- struct: parameters.
use servertech_chat.Prelude.{Bytes, codes, List, Option, none, some, if◌then◌else◌}
use servertech_chat.Error.{ErrorCode, Result, ok, err, chat, websocket_parse_error, ◌>>=◌}
use servertech_chat.ApiTypes.Json.{Value, Members, find, if_object, equals_text}

pub record ClientMessage : Type 0 where
  pub content : Bytes

pub record ClientMessagesEvent : Type 0 where
  pub room_id : Bytes
  pub messages : List ClientMessage

pub record RequestRoomHistoryEvent : Type 0 where
  pub room_id : Bytes
  pub first_message_id : Bytes

-- any_client_event, but for its error_code, which is the error of the result.
pub data ClientEvent : Type 0 where
  client_messages : ClientMessagesEvent → ClientEvent
  request_room_history : RequestRoomHistoryEvent → ClientEvent

-- boost::json::parse and serialize, and try_value_to for the structs that are described.
pub record JsonLibrary : Type 0 where
  pub parse : Bytes → Result ErrorCode Value
  pub serialize : Value → Bytes
  pub to_client_messages : Value → Result ErrorCode ClientMessagesEvent
  pub to_request_room_history : Value → Result ErrorCode RequestRoomHistoryEvent

-- What a pointer that may be null points to: without it the message is malformed.
abbrev pub wanted {ℓ} : {A : Type ℓ} → Option A → Result ErrorCode A
wanted none = err (chat websocket_parse_error)
wanted (some a) = ok a

module _ (json : JsonLibrary) where
  open json use {parse, to_client_messages, to_request_room_history}

  -- parse_generic_request
  unfoldable pub parse_generic_request {ℓ} :
      {R : Type ℓ} → (Value → Result ErrorCode R) → Bytes → Result ErrorCode R
  parse_generic_request try_value_to from = do msg ← parse from; try_value_to msg

  -- The message, depending on its type,
  unfoldable pub parse_payload : Value → Value → Result ErrorCode ClientEvent
  unfolding equals_text
  parse_payload type payload =
      if equals_text type (codes "clientMessages")
      then (do parsed_payload ← to_client_messages payload; ok (client_messages parsed_payload))
      else if equals_text type (codes "requestRoomHistory")
      then (do
        parsed_payload ← to_request_room_history payload
        ok (request_room_history parsed_payload))
      else err (chat websocket_parse_error)

  -- from the object on,
  unfoldable pub parse_object : Members → Result ErrorCode ClientEvent
  unfolding parse_payload find
  parse_object obj = do
    type ← wanted (find (codes "type") obj)
    payload ← wanted (find (codes "payload") obj)
    parse_payload type payload

  -- and from the text on.
  unfoldable pub parse_client_event : Bytes → Result ErrorCode ClientEvent
  unfolding parse_object
  parse_client_event from = do msg ← parse from; obj ← wanted (if_object msg); parse_object obj
