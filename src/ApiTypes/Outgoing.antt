-- ===== src/ApiTypes/Outgoing.antt =====
-- The responses and events that the server sends, up to the text that Boost.JSON makes of them.
use servertech_chat.Prelude.{Bytes, codes, List, [], ◌∷◌, map, if◌then◌else◌}
use servertech_chat.Prelude.Decimal.{ℤ}
use servertech_chat.BusinessTypes.{User, Message, MessageBatch, Room, UsernameMap}
use servertech_chat.RequestContext.{ApiErrorId}
use servertech_chat.RoomHistoryService.{same_id}
use servertech_chat.Timestamp.{serialize_timestamp}
use servertech_chat.ApiTypes.Json.{Value, bool, int64, string, array, object, elements, members}

pub record HelloEvent : Type 0 where
  pub me : User
  pub rooms : List Room
  pub usernames : UsernameMap

pub record ServerMessagesEvent : Type 0 where
  pub room_id : Bytes
  pub sending_user : User
  pub messages : List Message

pub record RoomHistoryEvent : Type 0 where
  pub room_id : Bytes
  pub history : MessageBatch
  pub usernames : UsernameMap

unfoldable pub to_string : ApiErrorId → Bytes
to_string ApiErrorId.login_failed = codes "LOGIN_FAILED"
to_string ApiErrorId.username_exists = codes "USERNAME_EXISTS"
to_string ApiErrorId.email_exists = codes "EMAIL_EXISTS"
to_string ApiErrorId.bad_request = codes "BAD_REQUEST"

-- api_error::to_json
unfoldable pub api_error_json : ApiErrorId → Bytes → Value
unfolding to_string
api_error_json error_id error_message = object (
    members
      ((codes "id", string (to_string error_id)) ∷ (codes "message", string error_message) ∷ []))

-- value_from(wire_user{...})
unfoldable pub wire_user : ℤ → Bytes → Value
wire_user id username =
    object (members ((codes "id", int64 id) ∷ (codes "username", string username) ∷ []))

unfoldable pub serialize_message : Message → Bytes → Value
unfolding wire_user serialize_timestamp
serialize_message input username = object (
    members (
      (codes "id", string input.id)
      ∷ (codes "content", string input.content)
      ∷ (codes "user", wire_user input.user_id username)
      ∷ (codes "timestamp", int64 (serialize_timestamp input.timestamp))
      ∷ []))

-- The username of a user in the map, or the empty text.
unfoldable pub username_of : UsernameMap → ℤ → Bytes
username_of [] id = []
username_of ((key, username) ∷ usernames) id =
    let later = username_of usernames id in if same_id key id then username else later

-- serialize_messages with a map of usernames, and with the user that has sent all messages.
unfoldable pub serialize_messages : List Message → UsernameMap → Value
unfolding serialize_message username_of
serialize_messages messages usernames =
    array
      (elements (map (λ msg. serialize_message msg (username_of usernames msg.user_id)) messages))

unfoldable pub serialize_messages_by : List Message → User → Value
unfolding serialize_message
serialize_messages_by messages sending_user =
    array (elements (map (λ msg. serialize_message msg sending_user.username) messages))

unfoldable pub serialize_room : UsernameMap → Room → Value
unfolding serialize_messages
serialize_room usernames input = object (
    members (
      (codes "id", string input.id)
      ∷ (codes "name", string input.name)
      ∷ (codes "hasMoreMessages", bool input.history.has_more)
      ∷ (codes "messages", serialize_messages input.history.messages usernames)
      ∷ []))

-- serialize_event, up to the text.
unfoldable pub event_json : Bytes → List (Bytes × Value) → Value
event_json type payload =
    object
      (members ((codes "type", string type) ∷ (codes "payload", object (members payload)) ∷ []))

-- hello_event::to_json, server_messages_event::to_json and room_history_event::to_json.
unfoldable pub hello_json : HelloEvent → Value
unfolding event_json wire_user serialize_room
hello_json e = event_json (codes "hello") (
    (codes "me", wire_user e.me.id e.me.username)
    ∷ (codes "rooms", array (elements (map (serialize_room e.usernames) e.rooms)))
    ∷ [])

unfoldable pub server_messages_json : ServerMessagesEvent → Value
unfolding event_json serialize_messages_by
server_messages_json e = event_json (codes "serverMessages") (
    (codes "roomId", string e.room_id)
    ∷ (codes "messages", serialize_messages_by e.messages e.sending_user)
    ∷ [])

unfoldable pub room_history_json : RoomHistoryEvent → Value
unfolding event_json serialize_messages
room_history_json e = event_json (codes "roomHistory") (
    (codes "roomId", string e.room_id)
    ∷ (codes "messages", serialize_messages e.history.messages e.usernames)
    ∷ (codes "hasMoreMessages", bool e.history.has_more)
    ∷ [])
