-- ===== src/ChatRoom/Subscribed.antt =====
-- Which sessions are subscribed, and that a call of on_message finds its session begun.
use servertech_chat.Prelude.{
  ℕ, ◌+◌, ◌==◌, ==_iff, ==_refl, Bool, true, false, Bool-cases, Bytes, List, [], ◌∷◌, ◌++◌, ◌≡◌,
  ◌≢◌, inl, inr, refl, ap, sym, subst, ◌∙◌, arith, if◌then◌else◌,
}
use servertech_chat.AsyncMutex.Waiters.{Channel}
use servertech_chat.PubsubService.{OnMessage, publish, unsubscribe}
use servertech_chat.PubsubService.Index.{SubscriptionIndex}
use servertech_chat.PubsubService.Delivery.{mentions, multiplicity-subscribe}
use servertech_chat.Websocket.{Websocket, write}
use servertech_chat.ChatWebsocket.Messages.{room_ids}
use servertech_chat.ChatWebsocket.Session.{
  Phase, connecting, locked, greeting, chatting, closed, refused, Session, Step, locks, hello_fails,
  greets, greeted, replies, ends, delivers, resumes, written,
}
use servertech_chat.ChatWebsocket.Delivery.{count, count-append, count-split}
use servertech_chat.ChatRoom.{
  update, copies, Server, begin, with_guard, Own, Move, acts, publishes, runs, Reach, here, next,
}
use servertech_chat.ChatRoom.Conserved.{bound_for, publish-count}

-- The phases in which `run` has the guard of the subscriptions.
abbrev pub listens : Phase → Bool
listens connecting = false
listens locked = true
listens (greeting h) = true
listens (chatting h) = true
listens (closed h) = false
listens refused = false

-- How often a session is subscribed to a topic.
abbrev pub share : Bytes → Phase → ℕ
share topic_id p = if listens p then mentions topic_id room_ids else 0

module _ (c : Channel) (index : SubscriptionIndex) where
  open index use {Ct, multiplicity, multiplicity-erase, multiplicity-empty}

  -- The subscriptions of the session of a step,
  guard_share :
      (t : Bytes) (p : ℕ) (ct : Ct) {s u : Session c} (st : Step c s u)
      → multiplicity t p ct ≡ share t s.phase
      → multiplicity t p (with_guard c index st p ct) ≡ share t u.phase
  unfolding unsubscribe
  guard_share t p ct {s} (locks e) h =
      multiplicity-subscribe index t p p room_ids ct ∙ rw (==_refl p) (all_shared h e)
    where
      all_shared :
          multiplicity t p ct ≡ share t s.phase
          → s.phase ≡ connecting
          → mentions t room_ids + multiplicity t p ct ≡ mentions t room_ids
      all_shared h e = omega (arith, h ∙ ap (share t) e)
  guard_share t p ct (hello_fails m e k) h = multiplicity-erase t p p ct ∙ rw (==_refl p) refl
  guard_share t p ct (greets g e) h = h ∙ ap (share t) e
  guard_share t p ct (greeted g ps qs w m q e (inl stays) k l) h =
      h ∙ ap (share t) e ∙ sym (ap (share t) stays)
  guard_share t p ct (greeted g ps qs w m q e (inr closes) k l) h =
      multiplicity-erase t p p ct ∙ rw (==_refl p) (sym (ap (share t) closes))
  guard_share t p ct (replies g m e) h = h
  guard_share t p ct (ends g e) h = multiplicity-erase t p p ct ∙ rw (==_refl p) refl
  guard_share t p ct (delivers k m ne e) h = h
  guard_share t p ct (resumes w xs ys ps qs e k) h = h
  guard_share t p ct (written w ps qs m n e k) h = h

  -- and of the others.
  guard_others :
      (t : Bytes) (p q : ℕ) (ct : Ct) {s u : Session c} (st : Step c s u)
      → (q == p) ≡ false
      → multiplicity t p (with_guard c index st q ct) ≡ multiplicity t p ct
  unfolding unsubscribe
  guard_others t p q ct (locks e) other =
      multiplicity-subscribe index t p q room_ids ct ∙ rw other refl
  guard_others t p q ct (hello_fails m e k) other = multiplicity-erase t p q ct ∙ rw other refl
  guard_others t p q ct (greets g e) other = refl
  guard_others t p q ct (greeted g ps qs w m r e (inl stays) k l) other = refl
  guard_others t p q ct (greeted g ps qs w m r e (inr closes) k l) other =
      multiplicity-erase t p q ct ∙ rw other refl
  guard_others t p q ct (replies g m e) other = refl
  guard_others t p q ct (ends g e) other = multiplicity-erase t p q ct ∙ rw other refl
  guard_others t p q ct (delivers k m ne e) other = refl
  guard_others t p q ct (resumes w xs ys ps qs e k) other = refl
  guard_others t p q ct (written w ps qs m n e k) other = refl

  abbrev Shared : Bytes → ℕ → Server c index → Type 0
  Shared t p s = multiplicity t p s.subscriptions ≡ share t (s.session p).phase

  -- A call of on_message leaves every phase as it is.
  pub call_phase :
      (p q : ℕ) (session : ℕ → Session c) (ws : Websocket c)
      → (update q (record (session q) { ws = ws }) session p).phase ≡ (session p).phase
  call_phase p q session ws = elim (Bool-cases (q == p)) [
    | inl same ↦ rw same (ap (λ x. (session x).phase) ((==_iff q p).0 same))
    | inr other ↦ rw other refl
  ]

  Move-Shared :
      (t : Bytes) (p : ℕ) {s u : Server c index} → Move c index s u → Shared t p s → Shared t p u
  Move-Shared t p {s} (acts q u st own) h = elim (Bool-cases (q == p)) [
    | inl same ↦
        let at_p : q ≡ p = (==_iff q p).0 same in
        rw same (
          ap (λ x. multiplicity t x (with_guard c index st q s.subscriptions)) (sym at_p)
          ∙ guard_share t q s.subscriptions st (
              subst (λ x. multiplicity t x s.subscriptions ≡ share t (s.session x).phase) (sym at_p)
                h))
    | inr other ↦ rw other (guard_others t p q s.subscriptions st other ∙ h)
  ]
  Move-Shared t p (publishes q g topic_id message e) h = h
  Move-Shared t p {s} (runs k xs ys call e ne begun) h =
      h
      ∙ ap (share t) (
          sym (
            call_phase p call.subscriber s.session
              (write c k call.message (s.session call.subscriber).ws)))

  -- Over any run of the server, a session is subscribed to its rooms, to each as often as room_ids
  -- names it, from when it locks its websocket until `run` ends, and to nothing before and after.
  pub subscribed :
      {s : Server c index}
      → Reach c index (begin c index) s
      → (topic_id : Bytes) (p : ℕ)
      → multiplicity topic_id p s.subscriptions ≡ share topic_id (s.session p).phase
  subscribed here t p = multiplicity-empty t p
  subscribed (next r m) t p = Move-Shared t p m (subscribed r t p)

  -- A session that has not begun behind a step of its own has not begun before.
  not_begun :
      {s u : Session c} (st : Step c s u)
      → Own c index st
      → u.phase ≡ connecting
      → s.phase ≡ connecting
  not_begun (locks e) own h = cc h
  not_begun (hello_fails m e k) own h = cc h
  not_begun (greets g e) own h = cc h
  not_begun (greeted g ps qs w m q e (inl stays) k l) own h = cc (stays, h)
  not_begun (greeted g ps qs w m q e (inr closes) k l) own h = cc (closes, h)
  not_begun (replies g m e) own h = h
  not_begun (ends g e) own h = cc h
  not_begun (delivers k m ne e) own h = h
  not_begun (resumes w xs ys ps qs e k) own h = h
  not_begun (written w ps qs m n e k) own h = h

  abbrev anything : Bytes → Bool
  anything message = true

  -- No call is on its way to a session that has not begun.
  abbrev NoneEarly : ℕ → Server c index → Type 0
  NoneEarly p s = (s.session p).phase ≡ connecting → count (bound_for p anything) s.spawned ≡ 0

  Move-NoneEarly :
      (p : ℕ) {s u : Server c index}
      → Move c index s u
      → ((t : Bytes) → multiplicity t p s.subscriptions ≡ share t (s.session p).phase)
      → NoneEarly p s
      → NoneEarly p u
  Move-NoneEarly p {s} (acts q u st own) shares early = elim (Bool-cases (q == p)) [
    | inl same ↦ λ h. early (
        ap (λ x. (s.session x).phase) (sym ((==_iff q p).0 same)) ∙ not_begun st own (rw same at h))
    | inr other ↦ λ h. early (rw other at h)
  ]
  Move-NoneEarly p {s} (publishes q g topic_id message e) shares early = λ h. omega (
    arith,
    early h,
    count-append (bound_for p anything) s.spawned (publish index s.subscriptions topic_id message),
    publish-count c index p anything s.subscriptions topic_id message,
    ap (λ n. count anything (copies n message)) (shares topic_id ∙ ap (share topic_id) h),
  )
  Move-NoneEarly p {s} (runs k xs ys call e ne begun) shares early = λ h. omega (
    arith,
    early (
        sym (
          call_phase p call.subscriber s.session
            (write c k call.message (s.session call.subscriber).ws))
        ∙ h),
    count-split (bound_for p anything) s.spawned xs call ys e,
  )

  Reach-NoneEarly : {s : Server c index} → Reach c index (begin c index) s → (p : ℕ) → NoneEarly p s
  Reach-NoneEarly here p = λ h. refl
  Reach-NoneEarly (next r m) p = Move-NoneEarly p m (λ t. subscribed r t p) (Reach-NoneEarly r p)

  -- The session of a call has begun.
  pub call_begun :
      {s : Server c index}
      → Reach c index (begin c index) s
      → (xs ys : List OnMessage) (call : OnMessage) → s.spawned ≡ xs ++ call ∷ ys
      → (s.session call.subscriber).phase ≢ connecting
  call_begun {s} r xs ys call e h = omega (
    arith,
    Reach-NoneEarly r call.subscriber h,
    count-split (bound_for call.subscriber anything) s.spawned xs call ys e,
    one_call,
  )
    where
      one_call : count (bound_for call.subscriber anything) (call ∷ []) ≡ 1
      one_call = rw (==_refl call.subscriber) refl
