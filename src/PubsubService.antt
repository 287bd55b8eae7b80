-- ===== src/PubsubService.antt =====
-- server/include/services/pubsub_service.hpp and server/src/services/pubsub_service.cpp. A
-- subscriber is the number that stands for its pointer. boost::asio::spawn starts a coroutine for
-- each delivery: publish gives the list of the calls of on_message that it starts.
pub mod Index
pub mod Delivery
use servertech_chat.Prelude.{
  ℕ, Bool, true, false, Bytes, List, [], ◌∷◌, map, ◌==◌, ◌&&◌, str_eq, ◌≡◌, if◌then◌else◌,
}
use Index.{SubscriptionIndex, Subscription}

-- subs->on_message(*msg_ptr, yield)
pub record OnMessage : Type 0 where
  pub subscriber : ℕ
  pub message : Bytes

-- The calls of the service that change it.
pub data Call : Type 0 where
  subscribes : ℕ → List Bytes → Call
  unsubscribes : ℕ → Call

module _ (index : SubscriptionIndex) where
  open index use {Ct, insert, erase, equal_range}

  unfoldable pub subscribe : Ct → ℕ → List Bytes → Ct
  subscribe ct subscriber [] = ct
  subscribe ct subscriber (topic_id ∷ topic_ids) =
      subscribe (insert (record { topic_id = topic_id; subscriber = subscriber }) ct) subscriber
        topic_ids

  unfoldable pub unsubscribe : Ct → ℕ → Ct
  unsubscribe ct subscriber = erase subscriber ct

  unfoldable pub publish : Ct → Bytes → Bytes → List OnMessage
  publish ct topic_id message =
      map (λ s. record { subscriber = s.subscriber; message = message }) (equal_range topic_id ct)

  -- The service with the guard that subscribe_guarded returns: the subscriber that the destruction
  -- of the guard unsubscribes.
  unfoldable pub subscribe_guarded : Ct → ℕ → List Bytes → Ct × ℕ
  unfolding subscribe
  subscribe_guarded ct subscriber topic_ids = (subscribe ct subscriber topic_ids, subscriber)

  unfoldable pub release : Ct → ℕ → Ct
  unfolding unsubscribe
  release ct guard = unsubscribe ct guard

  unfoldable pub run : Ct → List Call → Ct
  unfolding subscribe unsubscribe
  run ct [] = ct
  run ct (subscribes p topic_ids ∷ calls) = run (subscribe ct p topic_ids) calls
  run ct (unsubscribes p ∷ calls) = run (unsubscribe ct p) calls
