-- ===== src/ApiTypes/Client.antt =====
-- What a client reads in the events that the server sends.
use servertech_chat.Prelude.{
  Bool, Bytes, codes, str_eq, List, [], ◌∷◌, map, Option, none, some, ◌≡◌, refl, if◌then◌else◌,
}
use servertech_chat.Prelude.Options.{◌>>=◌}
use servertech_chat.Prelude.Decimal.{ℤ}
use servertech_chat.BusinessTypes.{User, Message, Room, UsernameMap}
use servertech_chat.Timestamp.{serialize_timestamp}
use servertech_chat.ApiTypes.Json.{
  Value, bool, int64, string, array, object, Elements, nil, cons, elements, find,
}
use servertech_chat.ApiTypes.Outgoing.{
  HelloEvent, ServerMessagesEvent, RoomHistoryEvent, wire_user, serialize_message, username_of,
  serialize_messages, serialize_messages_by, serialize_room, event_json, hello_json,
  server_messages_json, room_history_json,
}

-- A message, with the name of the user that has sent it, and milliseconds.
pub record Received : Type 0 where
  pub id : Bytes
  pub content : Bytes
  pub user : User
  pub milliseconds : ℤ

pub record ReceivedRoom : Type 0 where
  pub id : Bytes
  pub name : Bytes
  pub has_more : Bool
  pub messages : List Received

-- The events of the server.
pub data ServerEvent : Type 0 where
  hello : User → List ReceivedRoom → ServerEvent
  server_messages : Bytes → List Received → ServerEvent
  room_history : Bytes → List Received → Bool → ServerEvent

abbrev as_string : Value → Option Bytes
as_string (string s) = some s
as_string _ = none

abbrev as_int64 : Value → Option ℤ
as_int64 (int64 n) = some n
as_int64 _ = none

abbrev as_bool : Value → Option Bool
as_bool (bool b) = some b
as_bool _ = none

abbrev as_array : Value → Option Elements
as_array (array vs) = some vs
as_array _ = none

abbrev at : Bytes → Value → Option Value
at key (object ms) = find key ms
at key _ = none

-- The readers of the parts, of every element of an array, and of an event.
abbrev read_user : Value → Option User
read_user v = do
  id ← at (codes "id") v >>= as_int64
  username ← at (codes "username") v >>= as_string
  some (record { id = id; username = username })

abbrev read_message : Value → Option Received
read_message v = do
  id ← at (codes "id") v >>= as_string
  content ← at (codes "content") v >>= as_string
  user ← at (codes "user") v >>= read_user
  milliseconds ← at (codes "timestamp") v >>= as_int64
  some (record { id = id; content = content; user = user; milliseconds = milliseconds })

abbrev each {ℓ} : {A : Type ℓ} → (Value → Option A) → Elements → Option (List A)
each read nil = some []
each read (cons v vs) = let more = each read vs in do x ← read v; xs ← more; some (x ∷ xs)

abbrev read_messages : Value → Option (List Received)
read_messages v = as_array v >>= each read_message

abbrev read_room : Value → Option ReceivedRoom
read_room v = do
  id ← at (codes "id") v >>= as_string
  name ← at (codes "name") v >>= as_string
  has_more ← at (codes "hasMoreMessages") v >>= as_bool
  messages ← at (codes "messages") v >>= read_messages
  some (record { id = id; name = name; has_more = has_more; messages = messages })

abbrev read_hello : Value → Option ServerEvent
read_hello v = do
  me ← at (codes "me") v >>= read_user
  rooms ← at (codes "rooms") v >>= as_array
  rooms ← each read_room rooms
  some (hello me rooms)

abbrev read_server_messages : Value → Option ServerEvent
read_server_messages v = do
  room_id ← at (codes "roomId") v >>= as_string
  messages ← at (codes "messages") v >>= read_messages
  some (server_messages room_id messages)

abbrev read_room_history : Value → Option ServerEvent
read_room_history v = do
  room_id ← at (codes "roomId") v >>= as_string
  messages ← at (codes "messages") v >>= read_messages
  has_more ← at (codes "hasMoreMessages") v >>= as_bool
  some (room_history room_id messages has_more)

abbrev read_payload : Bytes → Value → Option ServerEvent
read_payload type payload =
    if str_eq type (codes "hello")
    then read_hello payload
    else if str_eq type (codes "serverMessages")
    then read_server_messages payload
    else if str_eq type (codes "roomHistory")
    then read_room_history payload
    else none

unfoldable pub read_event : Value → Option ServerEvent
unfolding str_eq find
read_event v = do
  type ← at (codes "type") v >>= as_string
  payload ← at (codes "payload") v
  read_payload type payload

-- What they read of the parts that the server writes.
abbrev pub received_as : Bytes → Message → Received
received_as username m = record {
  id = m.id;
  content = m.content;
  user = record { id = m.user_id; username = username };
  milliseconds = serialize_timestamp m.timestamp;
}

abbrev pub received : UsernameMap → Message → Received
received usernames m = received_as (username_of usernames m.user_id) m

abbrev pub received_room : UsernameMap → Room → ReceivedRoom
received_room usernames r = record {
  id = r.id;
  name = r.name;
  has_more = r.history.has_more;
  messages = map (received usernames) r.history.messages;
}

each-elements {ℓ κ} :
    {A : Type ℓ} {B : Type κ} (read : Value → Option B) (write : A → Value) (f : A → B)
    → ((a : A) → read (write a) ≡ some (f a))
    → (xs : List A) → each read (elements (map write xs)) ≡ some (map f xs)
each-elements read write f h [] = refl
each-elements read write f h (x ∷ xs) = rw (h x, each-elements read write f h xs) refl

read_message-serialize_message :
    (m : Message) (username : Bytes)
    → read_message (serialize_message m username) ≡ some (received_as username m)
unfolding serialize_message wire_user find str_eq
read_message-serialize_message m username = refl

read_messages-serialize_messages :
    (usernames : UsernameMap) (ms : List Message)
    → read_messages (serialize_messages ms usernames) ≡ some (map (received usernames) ms)
unfolding serialize_messages
read_messages-serialize_messages usernames ms =
    each-elements read_message (λ m. serialize_message m (username_of usernames m.user_id))
      (received usernames) (λ m. read_message-serialize_message m (username_of usernames m.user_id))
      ms

read_messages-serialize_messages_by :
    (u : User) (ms : List Message)
    → read_messages (serialize_messages_by ms u) ≡ some (map (received_as u.username) ms)
unfolding serialize_messages_by
read_messages-serialize_messages_by u ms =
    each-elements read_message (λ m. serialize_message m u.username) (received_as u.username)
      (λ m. read_message-serialize_message m u.username) ms

read_room-serialize_room :
    (usernames : UsernameMap) (r : Room)
    → read_room (serialize_room usernames r) ≡ some (received_room usernames r)
unfolding serialize_room find str_eq
read_room-serialize_room usernames r =
    rw (read_messages-serialize_messages usernames r.history.messages) refl

-- A hello reads as the user, and the rooms with their messages.
pub read_event-hello_json :
    (e : HelloEvent)
    → read_event (hello_json e) ≡ some (hello e.me (map (received_room e.usernames) e.rooms))
unfolding read_event hello_json event_json wire_user find str_eq
read_event-hello_json e =
    rw
      (each-elements read_room (serialize_room e.usernames) (received_room e.usernames)
        (read_room-serialize_room e.usernames) e.rooms)
      refl

-- Messages of the server read in order, all with their sender.
pub read_event-server_messages_json :
    (e : ServerMessagesEvent)
    → read_event (server_messages_json e)
      ≡ some (server_messages e.room_id (map (received_as e.sending_user.username) e.messages))
unfolding read_event server_messages_json event_json find str_eq
read_event-server_messages_json e =
    rw (read_messages-serialize_messages_by e.sending_user e.messages) refl

-- A room's history reads as its messages, with the usernames of the map.
pub read_event-room_history_json :
    (e : RoomHistoryEvent)
    → read_event (room_history_json e)
      ≡ some (
          room_history e.room_id (map (received e.usernames) e.history.messages) e.history.has_more)
unfolding read_event room_history_json event_json find str_eq
read_event-room_history_json e =
    rw (read_messages-serialize_messages e.usernames e.history.messages) refl
