-- ===== src/Examples/Chat.antt =====
-- A chat session and its messages, on concrete inputs.
use servertech_chat.Prelude.{
  str_eq, ℕ, false, ◌≤◌, ◌≡◌, ◌≢◌, true, length, Bytes, codes, List, [], ◌∷◌, some, none, refl,
}
use servertech_chat.Prelude.Decimal.{pos}
use servertech_chat.Error.{ok, err, invalid_argument}
use servertech_chat.BusinessTypes.{User, Message, MessageBatch}
use servertech_chat.MysqlClient.{MysqlClient}
use servertech_chat.AsyncMutex.Waiters.{line}
use servertech_chat.Timestamp.{parse_timestamp}
use servertech_chat.RedisSerialization.{
  Node, blob_string, parse_room_history_batch, steps, step, finish, to_message,
}
use servertech_chat.RedisSerialization.Grammar.{node, Response, nodes_of}
use servertech_chat.RedisClient.{get_room_history, set_has_more}
use servertech_chat.RedisClient.Connection.{value, RedisConnection}
use servertech_chat.ApiTypes.Incoming.{RequestRoomHistoryEvent}
use servertech_chat.ApiTypes.Client.{room_history}
use servertech_chat.ChatWebsocket.Handlers.{handle_request_room_history}
use servertech_chat.ChatWebsocket.History.{handle_request_room_history_lem}
use servertech_chat.RoomHistoryService
use servertech_chat.RoomHistoryService.{
  batch_room_history, unique_user_ids, insert_batches, insert_users, insert, contains,
}
use servertech_chat.PubsubService.{subscribe, publish}
use servertech_chat.PubsubService.Index.{listed}
use servertech_chat.PubsubService.Delivery.{received}
use servertech_chat.ApiTypes.Json.{Members, Value, string, object, members}
use servertech_chat.ApiTypes.Incoming.{ClientMessagesEvent, JsonLibrary}
use servertech_chat.ApiTypes.Client.{Received, hello, server_messages, read_event}
use servertech_chat.ApiTypes.Usernames.{Shows}
use servertech_chat.Websocket.{write_locked, lock_writes}
use servertech_chat.ChatWebsocket.Messages.{HelloData, room_ids}
use servertech_chat.ChatWebsocket.Handlers.{
  ChatServices, get_hello_data, hello_payload, handle_client_messages,
}
use servertech_chat.ChatWebsocket.Handlers.{run}
use servertech_chat.ChatWebsocket.Ends.{run-user_from_cookie}
use servertech_chat.CookieAuthService.{user_from_cookie, user_id_from_cookie}
use servertech_chat.Error.{ErrorWithMessage}
use servertech_chat.ChatWebsocket.Payloads.{
  sent, shown_room, handle_client_messages_lem, hello_payload-get_hello_data,
}
use servertech_chat.ChatWebsocket.Session.{
  Session, start, greeting, refused, locks, greets, Reach, here, next,
}
use servertech_chat.ChatWebsocket.Greeting.{Greets, hello_first, one_write, refused_writes}
use servertech_chat.Examples.Backend.{Store, draw}
use servertech_chat.Examples.Server.{wire, stream}
use servertech_chat.Examples.Server
use servertech_chat.Examples.Services.{mysql}

-- The session has locked the websocket and is writing the hello.
abbrev text : Bytes
text = codes "hello"

abbrev greeted : Session line
greeted = record {
  phase = greeting text;
  ws = write_locked line 0 text (lock_writes line 0 (start line).ws);
}

greets_it : Reach line (start line) greeted
greets_it = next (next here (locks refl)) (greets text refl)

hello_first_example : Greets greeted.phase greeted.ws.frames
hello_first_example = hello_first line {s = greeted} greets_it

one_write_example :
    (length greeted.ws.writing ≤ 1)
    × (greeted.ws.writing ≢ [] → greeted.ws.write_mtx.mutex.locked ≡ true)
one_write_example = one_write line {s = greeted} greets_it

refused_writes_example :
    (s : Session line) × Reach line (start line) s × (s.phase ≡ refused) × (s.ws.frames ≡ text ∷ [])
refused_writes_example = refused_writes text

-- A library that reads each text as the same event.
abbrev event : ClientMessagesEvent
event = record { room_id = codes "db"; messages = record { content = text } ∷ [] }

abbrev event_object : Members
event_object =
    members ((codes "type", string (codes "clientMessages")) ∷ (codes "payload", string text) ∷ [])

abbrev json : JsonLibrary
json = record {
  parse = λ text. ok (object event_object);
  serialize = λ v. text;
  to_client_messages = λ v. ok event;
  to_request_room_history = λ v. err invalid_argument;
}

-- A session over a Redis server that gives the answer.
abbrev redis_of : List Node → RedisConnection
redis_of answer = record Server.connection { async_exec = λ commands w. (ok (value answer), w) }

abbrev services_of : List Node → ChatServices
services_of answer = record {
  random = record { redis = redis_of answer; rand_bytes = draw };
  mysql = mysql;
  json = json;
  index = listed;
  pubsub = λ w. subscribe listed listed.empty 1 (codes "db" ∷ []);
  spawn = λ calls w. w;
  now = λ w. (pos 1000000, w);
  upgrade_request_cookie = none;
  read = λ w. (ok text, w);
  write = λ payload w. (none, w);
  write_locked = λ payload w. (none, w);
  close = λ w. (none, w);
  lock_writes = λ w. w;
  unlock_writes = λ w. w;
  subscribe_guarded = λ topic_ids w. w;
  unsubscribe = λ w. w;
}

abbrev current_user : User
current_user = record { id = pos 7; username = codes "user" }

abbrev stored : List Node
stored = node blob_string 1 0 (codes "1-0") ∷ []

handle_client_messages_lem_example :
    (v : Value) × (handle_client_messages (services_of stored) current_user event Server.start ≡ (
      ok tt,
      (services_of stored).spawn
          (publish listed
            ((services_of stored).pubsub Server.start)
            (codes "db")
            (json.serialize v))
          Server.start,
    ))
    × (read_event v
        ≡ some (
            server_messages
              (codes "db")
              (sent current_user (pos 1000000) event.messages (codes "1-0" ∷ []))))
    × ((p : ℕ)
        → received p (
            publish listed
              ((services_of stored).pubsub Server.start)
              (codes "db")
              (json.serialize v))
          ≡ listed.multiplicity (codes "db") p ((services_of stored).pubsub Server.start))
handle_client_messages_lem_example =
    handle_client_messages_lem (services_of stored) current_user event (codes "1-0" ∷ [])
      (pos 1000000) Server.start Server.start Server.start refl refl refl

-- Four rooms, of which one has a message, from a user that is found and from one that is not.
abbrev no_messages : Response
no_messages = record { entries = []; size = 0; text = [] }

abbrev four_rooms : List Node
four_rooms = nodes_of (stream ∷ no_messages ∷ no_messages ∷ no_messages ∷ [])

abbrev knows_user : MysqlClient Store
knows_user = record mysql { get_usernames = λ ids w. (ok ((pos 7, codes "user") ∷ []), w) }

abbrev a_message : Message
a_message = record {
  id = codes "1-0";
  content = codes "hello";
  timestamp = pos 1000000000;
  user_id = pos 7;
}

abbrev with_message : MessageBatch
with_message = record { messages = a_message ∷ []; has_more = false }

abbrev none_yet : MessageBatch
none_yet = record { messages = []; has_more = false }

histories : batch_room_history (redis_of four_rooms) knows_user room_ids Server.start ≡ (
  ok (with_message ∷ none_yet ∷ none_yet ∷ none_yet ∷ [], (pos 7, codes "user") ∷ []),
  Server.start,
)
unfolding batch_room_history get_room_history parse_room_history_batch steps step finish
    set_has_more unique_user_ids insert_batches insert_users insert contains room_ids to_message
    nodes_of str_eq parse_timestamp
histories = refl

abbrev in_rooms : ChatServices
in_rooms = record (services_of four_rooms) { mysql = knows_user }

hello_payload-get_hello_data_example :
    (hello_data : HelloData) × (v : Value) × (get_hello_data in_rooms Server.start
      ≡ (ok hello_data, Server.start))
    × (hello_payload in_rooms current_user hello_data ≡ json.serialize v)
    × (in_a : List Received) × (in_b : List Received) × (in_c : List Received) × (in_d : List
        Received)
    × Shows ((pos 7, codes "user") ∷ []) (a_message ∷ []) in_a
    × Shows ((pos 7, codes "user") ∷ []) [] in_b
    × Shows ((pos 7, codes "user") ∷ []) [] in_c
    × Shows ((pos 7, codes "user") ∷ []) [] in_d
    × (read_event v
        ≡ some (
            hello current_user (
              shown_room (codes "beast") (codes "Boost.Beast") false in_a
              ∷ shown_room (codes "async") (codes "Boost.Async") false in_b
              ∷ shown_room (codes "db") (codes "Database connectors") false in_c
              ∷ shown_room (codes "wasm") (codes "Web assembly") false in_d
              ∷ [])))
hello_payload-get_hello_data_example =
    hello_payload-get_hello_data in_rooms current_user with_message none_yet none_yet none_yet
      ((pos 7, codes "user") ∷ []) Server.start Server.start histories

-- A request without a cookie is refused.
run-user_from_cookie_example :
    (e : ErrorWithMessage) × (w : Store) × (user_from_cookie
        (services_of stored).random
        mysql
        none
        Server.start
      ≡ (err e, w))
    × (Server.start ≡ w)
run-user_from_cookie_example =
    run-user_from_cookie (services_of stored) 1 Server.start Server.start refused_at_once
  where
    refused_at_once : run (services_of stored) 1 Server.start ≡ some (ok tt, Server.start)
    refused_at_once = unfold run in unfold user_from_cookie in unfold user_id_from_cookie in refl

abbrev one_room : List Node
one_room = nodes_of (stream ∷ [])

abbrev asked : RequestRoomHistoryEvent
asked = record { room_id = codes "db"; first_message_id = [] }

history :
    RoomHistoryService.room_history (redis_of one_room) mysql (codes "db") Server.start
    ≡ (ok (with_message, []), Server.start)
unfolding RoomHistoryService.room_history batch_room_history get_room_history
    parse_room_history_batch steps step finish set_has_more unique_user_ids insert_batches
    insert_users insert contains to_message parse_timestamp nodes_of str_eq
history = refl

handle_request_room_history_lem_example :
    (v : Value) × (handle_request_room_history (services_of one_room) asked Server.start
      ≡ (ok tt, Server.start))
    × (shown : List Received) × Shows [] (a_message ∷ []) shown
    × (read_event v ≡ some (room_history (codes "db") shown false))
handle_request_room_history_lem_example =
    handle_request_room_history_lem (services_of one_room) asked with_message [] Server.start
      Server.start history
