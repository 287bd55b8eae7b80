-- ===== src/RedisSerialization/Grammar.antt =====
-- The responses that XREVRANGE gives, as lists of nodes: an independent description of what
-- parse_room_history_batch reads.
use servertech_chat.Prelude.{ℕ, false, Bytes, codes, List, [], ◌∷◌, ◌≡◌}
use servertech_chat.Error.{ErrorCode, Result, ok}
use servertech_chat.BusinessTypes.{Message, MessageBatch}
use servertech_chat.RedisSerialization.{
  RespType, array, blob_string, Node, RedisWireMessage, to_message,
}

-- A stream entry: its ID and the JSON under its only key. The sizes and texts that the parser does
-- not look at are arbitrary.
pub record Entry : Type 0 where
  pub id : Bytes
  pub payload : Bytes
  pub id_size : ℕ
  pub key_size : ℕ
  pub payload_size : ℕ
  pub entry_text : Bytes
  pub list_text : Bytes

pub record Response : Type 0 where
  pub entries : List Entry
  pub size : ℕ
  pub text : Bytes

abbrev pub node : RespType → ℕ → ℕ → Bytes → Node
node t size depth value = record {
  data_type = t;
  aggregate_size = size;
  depth = depth;
  value = value;
}

unfoldable pub entry_nodes : Entry → List Node → List Node
entry_nodes e rest =
    node array 2 1 e.entry_text
    ∷ node blob_string e.id_size 2 e.id
    ∷ node array 2 2 e.list_text
    ∷ node blob_string e.key_size 3 (codes "payload")
    ∷ node blob_string e.payload_size 3 e.payload
    ∷ rest

unfoldable pub entries_nodes : List Entry → List Node → List Node
unfolding entry_nodes
entries_nodes [] rest = rest
entries_nodes (e ∷ es) rest = entry_nodes e (entries_nodes es rest)

unfoldable pub nodes_of : List Response → List Node
unfolding entries_nodes
nodes_of [] = []
nodes_of (r ∷ rs) = node array r.size 0 r.text ∷ entries_nodes r.entries (nodes_of rs)

module _ (parse_payload : Bytes → Result ErrorCode RedisWireMessage) where
  -- The message that an entry stands for.
  pub record Reads (e : Entry) (m : Message) : Type 0 where
    pub wire : RedisWireMessage
    pub parsed : parse_payload e.payload ≡ ok wire
    pub converted : to_message wire e.id ≡ ok m

  pub data ReadsAll : List Entry → List Message → Type 0 where
    nil : ReadsAll [] []
    cons :
        {e : Entry} {m : Message} {es : List Entry} {ms : List Message}
        → Reads e m
        → ReadsAll es ms
        → ReadsAll (e ∷ es) (m ∷ ms)

  -- The batches that responses stand for, with `has_more` still unset.
  pub data Batches : List Response → List MessageBatch → Type 0 where
    nil : Batches [] []
    cons :
        {r : Response} {ms : List Message} {rs : List Response} {bs : List MessageBatch}
        → ReadsAll r.entries ms
        → Batches rs bs
        → Batches (r ∷ rs) (record { messages = ms; has_more = false } ∷ bs)
