-- ===== src/ApiTypes/Events.antt =====
-- Which texts parse_client_event takes for an event.
use servertech_chat.Prelude.{Bytes, codes, some, ◌≡◌}
use servertech_chat.Error.{ok}
use servertech_chat.ApiTypes.Json.{Value, string, object, Members, find}
use servertech_chat.ApiTypes.Incoming.{
  ClientEvent, client_messages, request_room_history, JsonLibrary,
}

module _ (json : JsonLibrary) where
  open json use {parse, to_client_messages, to_request_room_history}

  -- The type and the payload of a message carry the event.
  abbrev pub Carries : Value → Value → ClientEvent → Type 0
  Carries type payload (client_messages e) =
      (type ≡ string (codes "clientMessages")) × (to_client_messages payload ≡ ok e)
  Carries type payload (request_room_history e) =
      (type ≡ string (codes "requestRoomHistory")) × (to_request_room_history payload ≡ ok e)

  -- A text that parses to an object with a type and a payload that carry the event.
  abbrev pub IsEvent : Bytes → ClientEvent → Type 0
  IsEvent from e =
      (obj : Members) × (type : Value) × (payload : Value) × (parse from ≡ ok (object obj))
      × (find (codes "type") obj ≡ some type)
      × (find (codes "payload") obj ≡ some payload)
      × Carries type payload e
