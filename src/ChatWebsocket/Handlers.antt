-- ===== src/ChatWebsocket/Handlers.antt =====
-- server/src/api/chat_websocket.cpp: the data of the hello, the handlers of the events of a client,
-- and `run`, from the outside that it sees. What the other coroutines do meanwhile is part of that
-- outside; ChatWebsocket/Session has their interleavings.
use servertech_chat.Prelude.{ℕ, zero, suc, Bytes, List, map, Option, none, some}
use servertech_chat.Prelude.Decimal.{ℤ}
use servertech_chat.Error.{
  ErrorCode, ErrorWithMessage, no_message, Result, ok, err, throws, undefined,
}
use servertech_chat.Exec.{Exec, ◌>>=◌, pure, lift}
use servertech_chat.BusinessTypes.{User, Message}
use servertech_chat.RedisClient.{bare, store_messages}
use servertech_chat.SessionStore.Backend.{Random}
use servertech_chat.MysqlClient.{MysqlClient}
use servertech_chat.CookieAuthService.{user_from_cookie}
use servertech_chat.RoomHistoryService.{batch_room_history, room_history}
use servertech_chat.PubsubService.Index.{SubscriptionIndex}
use servertech_chat.PubsubService.{OnMessage, publish}
use servertech_chat.ApiTypes.Incoming.{
  ClientMessagesEvent, RequestRoomHistoryEvent, ClientEvent, client_messages, request_room_history,
  JsonLibrary, parse_client_event,
}
use servertech_chat.ApiTypes.Outgoing.{hello_json, server_messages_json, room_history_json}
use servertech_chat.ChatWebsocket.Messages.{
  room_ids, room_names, HelloData, compose_rooms, blank, set_ids,
}

pub record ChatServices : Type 1 where
  pub random : Random
  pub open random use *
  pub mysql : MysqlClient World
  pub json : JsonLibrary
  pub index : SubscriptionIndex
  -- The subscriptions of the service as they are now, and the start of calls of on_message.
  pub pubsub : World → index.Ct
  pub spawn : List OnMessage → World → World
  -- timestamp_t::clock::now()
  pub now : World → ℤ × World
  -- The operations of the websocket: an error code is what a write or a close returns.
  pub upgrade_request_cookie : Option Bytes
  pub read : World → Result ErrorCode Bytes × World
  pub write : Bytes → World → Option ErrorCode × World
  pub write_locked : Bytes → World → Option ErrorCode × World
  pub close : World → Option ErrorCode × World
  pub lock_writes : World → World
  pub unlock_writes : World → World
  -- subscribe_guarded of this session to topics, and the destruction of its guard.
  pub subscribe_guarded : List Bytes → World → World
  pub unsubscribe : World → World

-- An error code that the source returns as an error_with_message.
abbrev pub returned : Option ErrorCode → Result ErrorWithMessage (Unit {0})
returned none = ok tt
returned (some e) = err (no_message e)

module _ (services : ChatServices) where
  open services use {
    World, random, redis, mysql, json, index, pubsub, spawn, now, upgrade_request_cookie, read,
    write, write_locked, close, lock_writes, unlock_writes, subscribe_guarded, unsubscribe,
  }

  unfoldable pub get_hello_data : Exec World HelloData
  unfolding batch_room_history compose_rooms room_ids room_names
  get_hello_data = do
    (batches, usernames) ← batch_room_history redis mysql room_ids
    rooms ← lift (compose_rooms room_ids room_names batches)
    pure (record { rooms = rooms; usernames = usernames })

  -- hello_evt.to_json()
  unfoldable pub hello_payload : User → HelloData → Bytes
  unfolding hello_json
  hello_payload current_user hello_data = json.serialize (
      hello_json
        (record { me = current_user; rooms = hello_data.rooms; usernames = hello_data.usernames }))

  -- server_evt.to_json()
  unfoldable pub server_payload : Bytes → User → List Message → Bytes
  unfolding server_messages_json
  server_payload room_id current_user msgs = json.serialize (
      server_messages_json
        (record { room_id = room_id; sending_user = current_user; messages = msgs }))

  -- st.pubsub().publish(evt.room_id, ...), with the subscriptions of the moment.
  unfoldable pub broadcast : Bytes → Bytes → Exec World (Unit {0})
  unfolding publish
  broadcast room_id message w = (ok tt, spawn (publish index (pubsub w) room_id message) w)

  -- The handler of the messages event,
  unfoldable pub handle_client_messages : User → ClientMessagesEvent → Exec World (Unit {0})
  unfolding store_messages set_ids server_payload broadcast
  handle_client_messages current_user evt = do
    timestamp ← λ w. let (t, w') = now w in (ok t, w')
    let msgs = map (blank timestamp current_user) evt.messages
    ids ← store_messages redis evt.room_id msgs
    msgs ← lift (set_ids msgs ids)
    broadcast evt.room_id (server_payload evt.room_id current_user msgs)

  -- and of the request of room history. The error code of the write is dropped, and the one that is
  -- returned is never assigned.
  unfoldable pub handle_request_room_history : RequestRoomHistoryEvent → Exec World (Unit {0})
  unfolding room_history room_history_json
  handle_request_room_history evt = do
    (history, usernames) ← room_history redis mysql evt.room_id
    let payload = json.serialize (
        room_history_json
          (record { room_id = evt.room_id; history = history; usernames = usernames }))
    λ w. (ok tt, (write payload w).1)

  -- event_handler_visitor
  unfoldable pub dispatch : User → Result ErrorCode ClientEvent → Exec World (Unit {0})
  unfolding handle_client_messages handle_request_room_history
  dispatch current_user (ok (client_messages evt)) = handle_client_messages current_user evt
  dispatch current_user (ok (request_room_history evt)) = handle_request_room_history evt
  dispatch current_user (err e) = lift (err (no_message e))
  dispatch current_user (throws what) = lift (throws what)
  dispatch current_user undefined = lift undefined

  -- One round of the loop of `run`, and the loop: `none` is the end of the fuel.
  unfoldable pub handle_next : User → Exec World (Unit {0})
  unfolding dispatch parse_client_event
  handle_next current_user = do
    raw_msg ← λ w. let (got, w') = read w in (bare got, w')
    dispatch current_user (parse_client_event json raw_msg)

  -- How `run` ends: with a result, or not within the fuel.
  abbrev pub Ended : Type 0
  Ended = Option (Result ErrorWithMessage (Unit {0}) × World)

  abbrev pub again : (World → Ended) → Result ErrorWithMessage (Unit {0}) × World → Ended
  again loop (ok done, w) = loop w
  again loop (r, w) = some (r, w)

  unfoldable pub loop : ℕ → User → World → Ended
  unfolding handle_next
  loop zero current_user w = none
  loop (suc fuel) current_user w =
      let rest : World → Ended = loop fuel current_user in again rest (handle_next current_user w)

  -- The end of the loop destroys the guard of the subscriptions.
  abbrev pub over : Ended → Ended
  over none = none
  over (some (r, w)) = some (r, unsubscribe w)

  -- From the answer of write_locked on,
  abbrev pub with_greeted : ℕ → User → Option ErrorCode × World → Ended
  with_greeted fuel current_user (none, w) = over (loop fuel current_user (unlock_writes w))
  with_greeted fuel current_user (some e, w) =
      some (err (no_message e), unlock_writes (unsubscribe w))

  -- from the data of the hello on,
  abbrev pub with_hello : ℕ → User → Result ErrorWithMessage HelloData × World → Ended
  with_hello fuel current_user (ok hello_data, w) =
      with_greeted fuel current_user (write_locked (hello_payload current_user hello_data) w)
  with_hello fuel current_user (err e, w) = some (err e, unlock_writes (unsubscribe w))
  with_hello fuel current_user (throws what, w) = some (throws what, unlock_writes (unsubscribe w))
  with_hello fuel current_user (undefined, w) = some (undefined, w)

  -- and from the user on.
  abbrev pub with_current_user : ℕ → Result ErrorWithMessage User × World → Ended
  with_current_user fuel (ok current_user, w) =
      with_hello fuel current_user (get_hello_data (subscribe_guarded room_ids (lock_writes w)))
  with_current_user fuel (err e, w) = some (ok tt, (close w).1)
  with_current_user fuel (throws what, w) = some (throws what, w)
  with_current_user fuel (undefined, w) = some (undefined, w)

  -- `run`, without the logs. The guards are destroyed in the reverse order of their declaration.
  unfoldable pub run : ℕ → World → Ended
  unfolding loop hello_payload get_hello_data user_from_cookie room_ids
  run fuel w = with_current_user fuel (user_from_cookie random mysql upgrade_request_cookie w)
