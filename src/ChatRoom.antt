-- ===== src/ChatRoom.antt =====
-- The sessions of server/src/api/chat_websocket.cpp together, with the publish-subscribe service
-- that they share (server/src/services/pubsub_service.cpp). A session is known by the number that
-- stands for its pointer; one that has not begun is in its first phase.
pub mod Conserved
pub mod Subscribed
pub mod Sent
use servertech_chat.Prelude.{
  ℕ, zero, suc, ◌==◌, Bytes, List, [], ◌∷◌, ◌++◌, ◌≡◌, ◌≢◌, ◌⊎◌, inl, inr, true, false,
  if◌then◌else◌,
}
use servertech_chat.AsyncMutex.Waiters.{Channel}
use servertech_chat.PubsubService.{OnMessage, subscribe, unsubscribe, publish}
use servertech_chat.PubsubService.Index.{SubscriptionIndex}
use servertech_chat.Websocket.{write}
use servertech_chat.ChatWebsocket.Messages.{room_ids}
use servertech_chat.ChatWebsocket.Session.{
  Session, start, connecting, chatting, Step, locks, hello_fails, greets, greeted, replies, ends,
  delivers, resumes, written,
}
use servertech_chat.ChatWebsocket.Delivery.{hands}

abbrev pub update {ℓ} : {A : Type ℓ} → ℕ → A → (ℕ → A) → ℕ → A
update p a f q = if p == q then a else f q

abbrev pub copies : ℕ → Bytes → List Bytes
copies zero message = []
copies (suc n) message = message ∷ copies n message

module _ (c : Channel) (index : SubscriptionIndex) where
  open index use {Ct, empty, multiplicity}

  -- The calls of on_message that publish has started, and that have not run yet, are `spawned`.
  pub record Server : Type 0 where
    pub session : ℕ → Session c
    pub subscriptions : Ct
    pub spawned : List OnMessage

  abbrev pub begin : Server
  begin = record { session = λ p. start c; subscriptions = empty; spawned = [] }

  -- What the step of a session does to the subscriptions: it gets its guard when it locks the
  -- websocket, and the guard is destroyed with the end of `run`.
  abbrev pub with_guard : {s u : Session c} → Step c s u → ℕ → Ct → Ct
  with_guard (locks e) p ct = subscribe index ct p room_ids
  with_guard (hello_fails m e k) p ct = unsubscribe index ct p
  with_guard (greeted h ps qs w m q e (inr closes) k l) p ct = unsubscribe index ct p
  with_guard (ends h e) p ct = unsubscribe index ct p
  with_guard _ p ct = ct

  -- The steps of a session that are its own: not the calls of on_message.
  abbrev pub Own : {s u : Session c} → Step c s u → Type 0
  Own (delivers t message ne e) = true ≡ false
  Own _ = Unit {0}

  pub data Move (s : Server) : Server → Type 0 where
    acts :
        (p : ℕ) (u : Session c) (st : Step c (s.session p) u)
        → Own st
        → Move s (record s {
          session = update p u s.session;
          subscriptions = with_guard st p s.subscriptions;
        })
    -- The loop of a session has stored a message, and publishes it.
    publishes :
        (p : ℕ) (h topic_id message : Bytes)
        → (s.session p).phase ≡ chatting h
        → Move s
            (record s { spawned = s.spawned ++ publish index s.subscriptions topic_id message })
    -- A call of on_message runs, in a coroutine that is not that of `run`.
    runs :
        (t : ℕ) (xs ys : List OnMessage) (call : OnMessage)
        → s.spawned ≡ xs ++ call ∷ ys
        → t ≢ 0
        → (s.session call.subscriber).phase ≢ connecting
        → Move s (record s {
          session =
              update call.subscriber
                (record (s.session call.subscriber) {
                  ws = write c t call.message (s.session call.subscriber).ws;
                })
                s.session;
          spawned = xs ++ ys;
        })

  pub data Reach (s : Server) : Server → Type 0 where
    here : Reach s s
    next : {t u : Server} → Reach s t → Move t u → Reach s u

  -- What a move owes the client of `p`: what the session of `p` itself writes, and a published
  -- message once for each of its subscriptions to the topic.
  abbrev pub owes : {s u : Server} → Move s u → ℕ → List Bytes
  owes (acts q u st own) p = if q == p then hands c st else []
  owes {s = s} (publishes q h topic_id message e) p =
      copies (multiplicity topic_id p s.subscriptions) message
  owes (runs t xs ys call e ne begun) p = []

  abbrev pub owed : {s u : Server} → Reach s u → ℕ → List Bytes
  owed here p = []
  owed (next r m) p = owed r p ++ owes m p
