-- ===== src/ChatWebsocket/History.antt =====
-- The answer to a request of room history.
use servertech_chat.Prelude.{some, List, map, ◌≡◌, refl}
use servertech_chat.Error.{ok}
use servertech_chat.BusinessTypes.{MessageBatch, UsernameMap}
use servertech_chat.RoomHistoryService
use servertech_chat.ApiTypes.Json.{Value}
use servertech_chat.ApiTypes.Incoming.{RequestRoomHistoryEvent}
use servertech_chat.ApiTypes.Outgoing.{RoomHistoryEvent, room_history_json}
use servertech_chat.ApiTypes.Client.{
  Received, room_history, received, read_event, read_event-room_history_json,
}
use servertech_chat.ApiTypes.Usernames.{Shows, received-Shows}
use servertech_chat.ChatWebsocket.Handlers.{ChatServices, handle_request_room_history}

module _ (services : ChatServices) where
  open services use {World, redis, mysql, json}

  -- When the room history service answers, the handler of a request of room history writes one
  -- message, in which the client reads the room, its messages in order, each with the username that
  -- the map has for its user, or an empty one where it has none, and whether there are more; and it
  -- succeeds whatever the write returns.
  pub handle_request_room_history_lem :
      (evt : RequestRoomHistoryEvent) (history : MessageBatch) (usernames : UsernameMap)
      (w w' : World)
      → RoomHistoryService.room_history redis mysql evt.room_id w ≡ (ok (history, usernames), w')
      → (v : Value) × (handle_request_room_history services evt w
          ≡ (ok tt, (services.write (json.serialize v) w').1))
        × (shown : List Received) × Shows usernames history.messages shown
        × (read_event v ≡ some (room_history evt.room_id shown history.has_more))
  unfolding handle_request_room_history
  handle_request_room_history_lem evt history usernames w w' answered =
      let e : RoomHistoryEvent = record {
        room_id = evt.room_id;
        history = history;
        usernames = usernames;
      } in
      (
        room_history_json e,
        rw answered refl,
        map (received usernames) history.messages,
        received-Shows usernames history.messages,
        read_event-room_history_json e,
      )
