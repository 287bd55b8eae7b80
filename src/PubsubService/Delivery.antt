-- ===== src/PubsubService/Delivery.antt =====
-- Who is called by publish, after any history of subscriptions.
use servertech_chat.Prelude.{
  ℕ, ◌+◌, false, Bytes, List, [], ◌∷◌, map, All, ◌==◌, ==_refl, str_eq, str_eq_refl, str_eq→eq, ◌≡◌,
  refl, ◌∙◌, if◌then◌else◌, arith,
}
use servertech_chat.PubsubService.Index.{SubscriptionIndex, Subscription, count}
use servertech_chat.PubsubService.{
  OnMessage, subscribe, unsubscribe, publish, subscribe_guarded, release, Call, subscribes,
  unsubscribes, run,
}

-- How many of the calls go to `p`.
abbrev pub received : ℕ → List OnMessage → ℕ
received p [] = 0
received p (d ∷ ds) = (if d.subscriber == p then 1 else 0) + received p ds

-- How often a topic is named.
abbrev pub mentions : Bytes → List Bytes → ℕ
mentions t [] = 0
mentions t (u ∷ us) = (if str_eq u t then 1 else 0) + mentions t us

-- The subscriptions of `p` to `t` that a history leaves, from `n` before it: those since the last
-- time that `p` was unsubscribed.
abbrev pub active : Bytes → ℕ → List Call → ℕ → ℕ
active t p [] n = n
active t p (subscribes q us ∷ calls) n = active t p calls (if q == p then mentions t us + n else n)
active t p (unsubscribes q ∷ calls) n = active t p calls (if q == p then 0 else n)

-- The list holds no subscription to another topic.
abbrev Only : Bytes → List Subscription → Type 0
Only t ss = (u : Bytes) (p : ℕ) → str_eq t u ≡ false → count u p ss ≡ 0

received-count :
    (t message : Bytes) (p : ℕ) (ss : List Subscription)
    → Only t ss
    → received p (map (λ s. record { subscriber = s.subscriber; message = message }) ss)
      ≡ count t p ss
received-count t m p [] only = refl
received-count t m p (s ∷ ss) only =
    let rest : Only t ss = λ u q h. omega (arith, only u q h) in
    ground (
      arith,
      received-count t m p ss rest,
      only s.topic_id s.subscriber,
      str_eq_refl s.topic_id,
      ==_refl s.subscriber,
      str_eq→eq t s.topic_id,
      str_eq_refl t,
    )

messages_are :
    (message : Bytes) (ss : List Subscription)
    → All
        (λ (d : OnMessage). d.message ≡ message)
        (map (λ s. record { subscriber = s.subscriber; message = message }) ss)
messages_are m [] = tt
messages_are m (s ∷ ss) = (refl, messages_are m ss)

module _ (index : SubscriptionIndex) where
  open index use {
    Ct, empty, equal_range, multiplicity, multiplicity-empty, multiplicity-insert,
    multiplicity-erase, count-equal_range,
  }

  pub multiplicity-subscribe :
      (t : Bytes) (p q : ℕ) (us : List Bytes) (ct : Ct)
      → multiplicity t p (subscribe index ct q us)
        ≡ (if q == p then mentions t us + multiplicity t p ct else multiplicity t p ct)
  unfolding subscribe
  multiplicity-subscribe t p q [] ct = ground arith
  multiplicity-subscribe t p q (u ∷ us) ct =
      let s : Subscription = record { topic_id = u; subscriber = q } in
      ground
        (arith, multiplicity-subscribe t p q us (index.insert s ct), multiplicity-insert t p s ct)

  multiplicity-run :
      (t : Bytes) (p : ℕ) (calls : List Call) (ct : Ct)
      → multiplicity t p (run index ct calls) ≡ active t p calls (multiplicity t p ct)
  unfolding run unsubscribe
  multiplicity-run t p [] ct = refl
  multiplicity-run t p (subscribes q us ∷ calls) ct =
      rw (← multiplicity-subscribe t p q us ct)
        (multiplicity-run t p calls (subscribe index ct q us))
  multiplicity-run t p (unsubscribes q ∷ calls) ct =
      rw (← multiplicity-erase t p q ct) (multiplicity-run t p calls (index.erase q ct))

  pub received-publish :
      (t message : Bytes) (p : ℕ) (ct : Ct)
      → received p (publish index ct t message) ≡ multiplicity t p ct
  unfolding publish
  received-publish t m p ct =
      received-count t m p (equal_range t ct) (λ u q h. count-equal_range u t q ct ∙ rw h)
      ∙ ground (arith, count-equal_range t t p ct, str_eq_refl t)

  -- After any history of calls, publishing a message to a topic starts exactly one call of
  -- on_message for each subscription to that topic that is left, and each call gets the message.
  pub publish_delivers :
      (calls : List Call) (t message : Bytes) (p : ℕ)
      → (received p (publish index (run index empty calls) t message) ≡ active t p calls 0)
        × All
            (λ (d : OnMessage). d.message ≡ message)
            (publish index (run index empty calls) t message)
  publish_delivers calls t m p = (
    received-publish t m p (run index empty calls)
        ∙ multiplicity-run t p calls empty
        ∙ rw (multiplicity-empty t p),
    unfold publish in messages_are m (equal_range t (run index empty calls)),
  )

  -- A guard that has been destroyed leaves nothing behind for its subscriber, and every other
  -- subscriber is called as often as if the guard had never been made.
  guard_released :
      (ct : Ct) (p q : ℕ) (us : List Bytes) (t message : Bytes)
      → let (ct', guard) = subscribe_guarded index ct p us in
        received q (publish index (release index ct' guard) t message)
        ≡ (if p == q then 0 else received q (publish index ct t message))
  unfolding subscribe_guarded release unsubscribe
  guard_released ct p q us t m = ground (
    arith,
    received-publish t m q (index.erase p (subscribe index ct p us)),
    received-publish t m q ct,
    multiplicity-erase t q p (subscribe index ct p us),
    multiplicity-subscribe t q p us ct,
  )
