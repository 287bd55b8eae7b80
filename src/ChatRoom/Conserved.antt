-- ===== src/ChatRoom/Conserved.antt =====
-- What is published reaches every subscriber.
use servertech_chat.Prelude.{
  ℕ, zero, suc, ◌+◌, ◌==◌, ==_iff, ◌&&◌, Bool, Bool-cases, Bytes, List, [], ◌∷◌, map, ◌≡◌, inl, inr,
  ap, sym, ◌∙◌, arith, if◌then◌else◌,
}
use servertech_chat.AsyncMutex.Waiters.{Channel}
use servertech_chat.PubsubService.{OnMessage, publish}
use servertech_chat.PubsubService.Index.{SubscriptionIndex, Subscription}
use servertech_chat.PubsubService.Delivery.{received, received-publish}
use servertech_chat.Websocket.{write}
use servertech_chat.ChatWebsocket.Delivery.{
  count, count-append, count-split, about, hands, balance, write-balance, Step-balance,
}
use servertech_chat.ChatWebsocket.Session.{Session}
use servertech_chat.ChatRoom.{
  update, copies, Server, begin, Move, acts, publishes, runs, Reach, here, next, owes, owed,
}

-- A call for `p` with a message that has the property.
abbrev pub bound_for : ℕ → (Bytes → Bool) → OnMessage → Bool
bound_for p about_it call = call.subscriber == p && about_it call.message

count-copies :
    (f : Bytes → Bool) (n : ℕ) (message : Bytes)
    → count f (copies n message) ≡ (if f message then n else 0)
count-copies f zero m = ground arith
count-copies f (suc n) m = ground (arith, count-copies f n m)

-- Of the calls with a message, those for `p` are counted.
count_calls :
    (f : Bytes → Bool) (p : ℕ) (message : Bytes) (ss : List Subscription)
    → let calls : List OnMessage =
        map (λ s. record { subscriber = s.subscriber; message = message }) ss in
      count (bound_for p f) calls ≡ (if f message then received p calls else 0)
count_calls f p m [] = ground arith
count_calls f p m (s ∷ ss) = ground (arith, count_calls f p m ss)

-- A call counts for its subscriber.
run_call :
    (p : ℕ) (f : Bytes → Bool) (call : OnMessage)
    → count f (if call.subscriber == p then call.message ∷ [] else [])
      ≡ count (bound_for p f) (call ∷ [])
run_call p f call = ground arith

module _ (c : Channel) (index : SubscriptionIndex) where
  -- The messages with the property that were sent to the client of `p`, or wait for the mutex of its
  -- websocket, or for their call of on_message.
  abbrev accounted : ℕ → (Bytes → Bool) → Server c index → ℕ
  accounted p f s = balance c f (s.session p).ws + count (bound_for p f) s.spawned

  started :
      (p : ℕ) (f : Bytes → Bool) (ct : index.Ct) (topic_id message : Bytes)
      → count (bound_for p f) (publish index ct topic_id message)
        ≡ (if f message then received p (publish index ct topic_id message) else 0)
  unfolding publish
  started p f ct topic_id message = count_calls f p message (index.equal_range topic_id ct)

  pub publish-count :
      (p : ℕ) (f : Bytes → Bool) (ct : index.Ct) (topic_id message : Bytes)
      → count (bound_for p f) (publish index ct topic_id message)
        ≡ count f (copies (index.multiplicity topic_id p ct) message)
  publish-count p f ct topic_id message =
      started p f ct topic_id message
      ∙ ap (λ n. if f message then n else 0) (received-publish index topic_id message p ct)
      ∙ sym (count-copies f (index.multiplicity topic_id p ct) message)

  -- The session `p` behind a step of `q`.
  updated_balance :
      (p q : ℕ) (f : Bytes → Bool) (s : Server c index) (u : Session c) (owes : List Bytes)
      → balance c f u.ws ≡ balance c f (s.session q).ws + count f owes
      → balance c f (update q u s.session p).ws
        ≡ balance c f (s.session p).ws + count f (if q == p then owes else [])
  updated_balance p q f s u owes step = elim (Bool-cases (q == p)) [
    | inl same ↦
        rw same (step ∙ ap (λ x. balance c f (s.session x).ws + count f owes) ((==_iff q p).0 same))
    | inr other ↦ rw other (omega arith)
  ]

  Move-accounted :
      (p : ℕ) (f : Bytes → Bool) {s u : Server c index} (m : Move c index s u)
      → accounted p f u ≡ accounted p f s + count f (owes c index m p)
  Move-accounted p f {s} (acts q u st own) =
      omega (arith, updated_balance p q f s u (hands c st) (Step-balance c f st))
  Move-accounted p f {s} (publishes q h topic_id message e) = omega (
    arith,
    count-append (bound_for p f) s.spawned (publish index s.subscriptions topic_id message),
    publish-count p f s.subscriptions topic_id message,
  )
  Move-accounted p f {s} (runs t xs ys call e ne begun) = omega (
    arith,
    updated_balance p call.subscriber f s
        (record (s.session call.subscriber) {
          ws = write c t call.message (s.session call.subscriber).ws;
        })
        (call.message ∷ []) (write-balance c f t call.message (s.session call.subscriber).ws),
    count-split (bound_for p f) s.spawned xs call ys e,
    run_call p f call,
  )

  -- Over any run of the server from its start: the messages that the client of a session is owed,
  -- which are those that its session writes itself and each message that is published, once for
  -- each of the session's subscriptions to its topic at that time, are those that were sent to it,
  -- those that wait for the mutex of its websocket and those whose call of on_message is still to
  -- run: no message is lost or doubled on the way.
  pub owed_lem :
      {s : Server c index} (r : Reach c index (begin c index) s) (p : ℕ) (f : Bytes → Bool)
      → count f (owed c index r p)
        ≡ count f (s.session p).ws.frames
          + count (about f) (s.session p).ws.pending
          + count (bound_for p f) s.spawned
  owed_lem here p f = omega arith
  owed_lem (next r m) p f = omega (
    arith,
    count-append f (owed c index r p) (owes c index m p),
    Move-accounted p f m,
    owed_lem r p f,
  )
