-- ===== src/ChatWebsocket/Messages.antt =====
-- The values that the handlers of server/src/api/chat_websocket.cpp compose.
use servertech_chat.Prelude.{Bytes, codes, List, [], ◌∷◌}
use servertech_chat.Prelude.Decimal.{ℤ}
use servertech_chat.Error.{ErrorWithMessage, Result, ok, undefined, ◌>>=◌}
use servertech_chat.BusinessTypes.{User, Message, MessageBatch, Room, UsernameMap}
use servertech_chat.ApiTypes.Incoming.{ClientMessage}

unfoldable pub room_ids : List Bytes
room_ids = codes "beast" ∷ codes "async" ∷ codes "db" ∷ codes "wasm" ∷ []

unfoldable pub room_names : List Bytes
room_names =
    codes "Boost.Beast"
    ∷ codes "Boost.Async"
    ∷ codes "Database connectors"
    ∷ codes "Web assembly"
    ∷ []

-- struct hello_data
pub record HelloData : Type 0 where
  pub rooms : List Room
  pub usernames : UsernameMap

abbrev pub room : Bytes → Bytes → MessageBatch → Room
room id name history = record { id = id; name = name; history = history }

-- The loop of get_hello_data. A batch that is not there is read outside the vector.
unfoldable pub compose_rooms :
    List Bytes → List Bytes → List MessageBatch → Result ErrorWithMessage (List Room)
compose_rooms [] names batches = ok []
compose_rooms (id ∷ ids) (name ∷ names) (batch ∷ batches) =
    let more = compose_rooms ids names batches in do rooms ← more; ok (room id name batch ∷ rooms)
compose_rooms (id ∷ ids) names batches = undefined

-- A message with a blank identifier, for Redis to assign.
abbrev pub blank : ℤ → User → ClientMessage → Message
blank timestamp current_user msg = record {
  id = [];
  content = msg.content;
  timestamp = timestamp;
  user_id = current_user.id;
}

-- `msgs[i].id = std::move(ids[i])`, where `ids` may turn out too short.
unfoldable pub set_ids : List Message → List Bytes → Result ErrorWithMessage (List Message)
set_ids [] ids = ok []
set_ids (msg ∷ msgs) [] = undefined
set_ids (msg ∷ msgs) (id ∷ ids) =
    let more = set_ids msgs ids in do rest ← more; ok (record msg { id = id } ∷ rest)
