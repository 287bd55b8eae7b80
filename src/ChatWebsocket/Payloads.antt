-- ===== src/ChatWebsocket/Payloads.antt =====
-- What clients read in the texts that the handlers compose.
use servertech_chat.Prelude.{
  ℕ, Bool, some, Bytes, codes, List, [], ◌∷◌, map, length, ◌≡◌, refl, arith,
}
use servertech_chat.Prelude.Decimal.{ℤ}
use servertech_chat.Error.{ok}
use servertech_chat.Timestamp.{serialize_timestamp}
use servertech_chat.BusinessTypes.{User, Message, MessageBatch, UsernameMap}
use servertech_chat.RedisSerialization.{blob_string}
use servertech_chat.RedisSerialization.Grammar.{node}
use servertech_chat.RedisClient.{xadd}
use servertech_chat.RedisClient.Connection.{value}
use servertech_chat.RedisClient.History.{store_messages_lem}
use servertech_chat.RoomHistoryService.{batch_room_history}
use servertech_chat.PubsubService.{publish}
use servertech_chat.PubsubService.Delivery
use servertech_chat.PubsubService.Delivery.{received-publish}
use servertech_chat.ApiTypes.Json.{Value}
use servertech_chat.ApiTypes.Incoming.{ClientMessage, ClientMessagesEvent}
use servertech_chat.ApiTypes.Outgoing.{
  HelloEvent, ServerMessagesEvent, hello_json, server_messages_json,
}
use servertech_chat.ApiTypes.Client.{
  Received, ReceivedRoom, received, received_as, hello, server_messages, read_event,
  read_event-hello_json, read_event-server_messages_json,
}
use servertech_chat.ApiTypes.Usernames.{Shows, received-Shows}
use servertech_chat.ChatWebsocket.Messages.{
  room_ids, room_names, HelloData, room, compose_rooms, blank, set_ids,
}
use servertech_chat.ChatWebsocket.Handlers.{
  ChatServices, broadcast, get_hello_data, hello_payload, server_payload, handle_client_messages,
}

-- The messages that a client has sent, with the identifiers that they got.
abbrev pub identified : User → ℤ → List ClientMessage → List Bytes → List Message
identified u t [] ids = []
identified u t (m ∷ ms) [] = []
identified u t (m ∷ ms) (id ∷ ids) = record (blank t u m) { id = id } ∷ identified u t ms ids

-- and as other clients read them.
abbrev pub sent : User → ℤ → List ClientMessage → List Bytes → List Received
sent u t [] ids = []
sent u t (m ∷ ms) [] = []
sent u t (m ∷ ms) (id ∷ ids) =
    record { id = id; content = m.content; user = u; milliseconds = serialize_timestamp t }
    ∷ sent u t ms ids

-- A room as a client reads it.
abbrev pub shown_room : Bytes → Bytes → Bool → List Received → ReceivedRoom
shown_room id name has_more messages = record {
  id = id;
  name = name;
  has_more = has_more;
  messages = messages;
}

set_ids-blank :
    (u : User) (t : ℤ) (ms : List ClientMessage) (ids : List Bytes)
    → length ids ≡ length ms
    → set_ids (map (blank t u) ms) ids ≡ ok (identified u t ms ids)
unfolding set_ids
set_ids-blank u t [] ids h = refl
set_ids-blank u t (m ∷ ms) [] h = absurd (omega (arith, h))
set_ids-blank u t (m ∷ ms) (id ∷ ids) h = rw (set_ids-blank u t ms ids (omega (arith, h))) refl

received-identified :
    (u : User) (t : ℤ) (ms : List ClientMessage) (ids : List Bytes)
    → map (received_as u.username) (identified u t ms ids) ≡ sent u t ms ids
received-identified u t [] ids = refl
received-identified u t (m ∷ ms) [] = refl
received-identified u t (m ∷ ms) (id ∷ ids) = rw (received-identified u t ms ids) refl

module _ (services : ChatServices) where
  open services use {World, redis, mysql, json, index, pubsub, spawn, now}
  open redis use {async_exec, json_of}

  -- When Redis answers a client's messages with as many identifiers, the handler publishes one
  -- message to the room: from it the other clients read the contents in order, each with its
  -- identifier, the user that sent it, and the time of the handler; and each subscription to the
  -- room at that moment gets one call of on_message.
  pub handle_client_messages_lem :
      (current_user : User) (evt : ClientMessagesEvent) (ids : List Bytes) (t : ℤ)
      (w w' w'' : World)
      → now w ≡ (t, w')
      → async_exec (map (xadd json_of evt.room_id) (map (blank t current_user) evt.messages)) w'
        ≡ (ok (value (map (λ id. node blob_string 1 0 id) ids)), w'')
      → length ids ≡ length evt.messages
      → (v : Value) × (handle_client_messages services current_user evt w
          ≡ (ok tt, spawn (publish index (pubsub w'') evt.room_id (json.serialize v)) w''))
        × (read_event v ≡ some (server_messages evt.room_id (sent current_user t evt.messages ids)))
        × ((p : ℕ)
            → Delivery.received p (publish index (pubsub w'') evt.room_id (json.serialize v))
              ≡ index.multiplicity evt.room_id p (pubsub w''))
  unfolding handle_client_messages server_payload broadcast publish
  handle_client_messages_lem current_user evt ids t w w' w'' clock answered size =
      let msgs = identified current_user t evt.messages ids in
      let e : ServerMessagesEvent = record {
        room_id = evt.room_id;
        sending_user = current_user;
        messages = msgs;
      } in
      (
        server_messages_json e,
        rw
            (
              clock,
              store_messages_lem redis evt.room_id (map (blank t current_user) evt.messages) ids w'
                  w'' answered,
              set_ids-blank current_user t evt.messages ids size,
            )
            refl,
        rw (read_event-server_messages_json e, received-identified current_user t evt.messages ids)
            refl,
        λ p.
            received-publish index evt.room_id (json.serialize (server_messages_json e)) p
              (pubsub w''),
      )

  -- When the room history service answers with four batches and a map of usernames, the hello is
  -- made of them: a client reads in it the current user, the four rooms with their names, and the
  -- messages of each in order, each with the username that the map has for its user, or an empty
  -- one where it has none, and whether there are more.
  pub hello_payload-get_hello_data :
      (current_user : User) (a b c d : MessageBatch) (usernames : UsernameMap) (w w' : World)
      → batch_room_history redis mysql room_ids w ≡ (ok (a ∷ b ∷ c ∷ d ∷ [], usernames), w')
      → (hello_data : HelloData) × (v : Value) × (get_hello_data services w ≡ (ok hello_data, w'))
        × (hello_payload services current_user hello_data ≡ json.serialize v)
        × (in_a : List Received) × (in_b : List Received) × (in_c : List Received) × (in_d : List
            Received)
        × Shows usernames a.messages in_a
        × Shows usernames b.messages in_b
        × Shows usernames c.messages in_c
        × Shows usernames d.messages in_d
        × (read_event v
            ≡ some (
                hello current_user (
                  shown_room (codes "beast") (codes "Boost.Beast") a.has_more in_a
                  ∷ shown_room (codes "async") (codes "Boost.Async") b.has_more in_b
                  ∷ shown_room (codes "db") (codes "Database connectors") c.has_more in_c
                  ∷ shown_room (codes "wasm") (codes "Web assembly") d.has_more in_d
                  ∷ [])))
  unfolding get_hello_data hello_payload compose_rooms room_ids room_names
  hello_payload-get_hello_data current_user a b c d usernames w w' histories =
      let rooms =
        room (codes "beast") (codes "Boost.Beast") a
        ∷ room (codes "async") (codes "Boost.Async") b
        ∷ room (codes "db") (codes "Database connectors") c
        ∷ room (codes "wasm") (codes "Web assembly") d
        ∷ [] in
      let e : HelloEvent = record { me = current_user; rooms = rooms; usernames = usernames } in
      (
        record { rooms = rooms; usernames = usernames },
        hello_json e,
        rw histories refl,
        refl,
        map (received usernames) a.messages,
        map (received usernames) b.messages,
        map (received usernames) c.messages,
        map (received usernames) d.messages,
        received-Shows usernames a.messages,
        received-Shows usernames b.messages,
        received-Shows usernames c.messages,
        received-Shows usernames d.messages,
        read_event-hello_json e,
      )
