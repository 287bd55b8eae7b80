-- ===== src/RedisSerialization/Accepts.antt =====
-- The parser on well-formed responses.
use servertech_chat.Prelude.{
  false, Bytes, List, [], ◌∷◌, ◌++◌, none, ◌≡◌, refl, ap, ◌∙◌, append_assoc, append-nil, str_eq,
  map,
}
use servertech_chat.Error.{ErrorCode, Result, ok, ◌>>=◌}
use servertech_chat.BusinessTypes.{Message, MessageBatch}
use servertech_chat.RedisSerialization.Grammar.{
  Entry, Response, node, entry_nodes, entries_nodes, nodes_of, Reads, ReadsAll, Batches,
}
use servertech_chat.RedisSerialization.Grammar
use servertech_chat.RedisSerialization.{
  blob_string, Node, RedisWireMessage, wants_level0_or_entry_list, Parser, init, push_message,
  steps, finish, parse_room_history_batch, parse_batch_xadd_response,
}

abbrev pub batch : List Message → MessageBatch
batch ms = record { messages = ms; has_more = false }

-- The parser between two entries, with `done` the finished batches and `ms` the current one.
abbrev pub between : List MessageBatch → List Message → Parser
between done ms = record {
  state = wants_level0_or_entry_list;
  id = none;
  res = done ++ batch ms ∷ [];
}

pub push_message_lem :
    (done : List MessageBatch) (ms : List Message) (m : Message)
    → push_message (done ++ batch ms ∷ []) m ≡ ok (done ++ batch (ms ++ m ∷ []) ∷ [])
unfolding push_message
push_message_lem [] ms m = refl
push_message_lem (b ∷ []) ms m = refl
push_message_lem (b ∷ c ∷ done) ms m = rw (push_message_lem (c ∷ done) ms m)

module _ (parse_payload : Bytes → Result ErrorCode RedisWireMessage) where
  -- Five nodes make a message.
  steps-entry :
      (e : Entry) (m : Message) (rest : List Node) (done : List MessageBatch) (ms : List Message)
      → Reads parse_payload e m
      → steps parse_payload (between done ms) (entry_nodes e rest)
        ≡ steps parse_payload (between done (ms ++ m ∷ [])) rest
  unfolding entry_nodes steps str_eq
  steps-entry e m rest done ms r =
      rw (r.parsed) (rw (r.converted) (rw (push_message_lem done ms m)))

  steps-entries :
      (es : List Entry) (new : List Message) (rest : List Node) (done : List MessageBatch)
      (ms : List Message)
      → ReadsAll parse_payload es new
      → steps parse_payload (between done ms) (entries_nodes es rest)
        ≡ steps parse_payload (between done (ms ++ new)) rest
  unfolding entries_nodes
  steps-entries es new rest done ms Grammar.ReadsAll.nil = rw (append-nil ms)
  steps-entries es new rest done ms
        (Grammar.ReadsAll.cons {e = e} {m = m} {es = es'} {ms = ms'} r rs) =
      steps-entry e m (entries_nodes es' rest) done ms r
      ∙ steps-entries es' ms' rest done (ms ++ m ∷ []) rs
      ∙ ap (λ l. steps parse_payload (between done l) rest) (append_assoc ms (m ∷ []) ms')

  steps-responses :
      (rs : List Response) (bs : List MessageBatch) (done : List MessageBatch) (ms : List Message)
      → Batches parse_payload rs bs
      → (do p ← steps parse_payload (between done ms) (nodes_of rs); finish p)
        ≡ ok (done ++ batch ms ∷ bs)
  unfolding nodes_of
  steps-responses rs bs done ms Grammar.Batches.nil = unfold steps finish in refl
  steps-responses rs bs done ms
        (Grammar.Batches.cons {r = r} {ms = new} {rs = rs'} {bs = bs'} es more) =
      let first : steps parse_payload (between done ms) (nodes_of (r ∷ rs'))
          ≡ steps parse_payload (between (done ++ batch ms ∷ []) [])
              (entries_nodes r.entries (nodes_of rs')) =
        unfold steps in refl in
      rw (first, steps-entries r.entries new (nodes_of rs') (done ++ batch ms ∷ []) [] es)
        (steps-responses rs' bs' (done ++ batch ms ∷ []) new more
          ∙ ap ok (append_assoc done (batch ms ∷ []) (batch new ∷ bs')))

  -- The nodes of well-formed XREVRANGE responses, whose payloads parse to messages, are parsed into
  -- the batches of those messages, in order.
  pub parse_room_history_batch-nodes_of :
      (rs : List Response) (bs : List MessageBatch)
      → Batches parse_payload rs bs
      → parse_room_history_batch parse_payload (nodes_of rs) ≡ ok bs
  unfolding parse_room_history_batch
  parse_room_history_batch-nodes_of rs bs Grammar.Batches.nil = unfold nodes_of steps finish in refl
  parse_room_history_batch-nodes_of rs bs
        (Grammar.Batches.cons {r = r} {ms = new} {rs = rs'} {bs = bs'} es more) =
      let first : steps parse_payload init (nodes_of (r ∷ rs'))
          ≡ steps parse_payload (between [] []) (entries_nodes r.entries (nodes_of rs')) =
        unfold nodes_of steps in refl in
      rw (first, steps-entries r.entries new (nodes_of rs') [] [] es)
        (steps-responses rs' bs' [] new more)

-- The response to a pipeline of XADD commands gives one ID for each, in order.
pub parse_batch_xadd_response_lem :
    (ids : List Bytes)
    → parse_batch_xadd_response (map (λ id. node blob_string 1 0 id) ids) ≡ ok ids
unfolding parse_batch_xadd_response
parse_batch_xadd_response_lem [] = refl
parse_batch_xadd_response_lem (id ∷ ids) = rw (parse_batch_xadd_response_lem ids)
