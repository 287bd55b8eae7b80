-- ===== src/PubsubService/Index.antt =====
-- What the service relies on of its boost::multi_index_container: a multiset of subscriptions,
-- from which erase takes all those with a key, and in which equal_range finds all those with a key.
use servertech_chat.Prelude.{
  ℕ, ◌+◌, Bool, Bytes, List, [], ◌∷◌, ◌==◌, ◌&&◌, str_eq, str_eq→eq, str_eq_refl, ◌≡◌, refl,
  if◌then◌else◌, arith,
}

pub record Subscription : Type 0 where
  pub topic_id : Bytes
  pub subscriber : ℕ

-- Is it the subscription of `p` to `topic`?
abbrev pub is_of : Bytes → ℕ → Subscription → Bool
is_of topic p s = str_eq s.topic_id topic && s.subscriber == p

-- How many of the subscriptions are those of `p` to `topic`.
abbrev pub count : Bytes → ℕ → List Subscription → ℕ
count topic p [] = 0
count topic p (s ∷ ss) = (if is_of topic p s then 1 else 0) + count topic p ss

pub record SubscriptionIndex : Type 1 where
  pub Ct : Type 0
  pub empty : Ct
  pub insert : Subscription → Ct → Ct
  pub erase : ℕ → Ct → Ct
  pub equal_range : Bytes → Ct → List Subscription
  pub multiplicity : Bytes → ℕ → Ct → ℕ
  pub multiplicity-empty : (t : Bytes) (p : ℕ) → multiplicity t p empty ≡ 0
  pub multiplicity-insert :
      (t : Bytes) (p : ℕ) (s : Subscription) (ct : Ct)
      → multiplicity t p (insert s ct) ≡ (if is_of t p s then 1 else 0) + multiplicity t p ct
  pub multiplicity-erase :
      (t : Bytes) (p q : ℕ) (ct : Ct)
      → multiplicity t p (erase q ct) ≡ (if q == p then 0 else multiplicity t p ct)
  pub count-equal_range :
      (t u : Bytes) (p : ℕ) (ct : Ct)
      → count t p (equal_range u ct) ≡ (if str_eq u t then multiplicity t p ct else 0)

-- The container as a list.
abbrev pub without : ℕ → List Subscription → List Subscription
without p [] = []
without p (s ∷ ss) = let rest = without p ss in if s.subscriber == p then rest else s ∷ rest

abbrev pub with_topic : Bytes → List Subscription → List Subscription
with_topic t [] = []
with_topic t (s ∷ ss) = let rest = with_topic t ss in if str_eq s.topic_id t then s ∷ rest else rest

pub count-without :
    (t : Bytes) (p q : ℕ) (ss : List Subscription)
    → count t p (without q ss) ≡ (if q == p then 0 else count t p ss)
count-without t p q [] = ground arith
count-without t p q (s ∷ ss) = ground (arith, count-without t p q ss)

pub count-with_topic :
    (t u : Bytes) (p : ℕ) (ss : List Subscription)
    → count t p (with_topic u ss) ≡ (if str_eq u t then count t p ss else 0)
count-with_topic t u p [] = ground arith
count-with_topic t u p (s ∷ ss) =
    ground (arith, count-with_topic t u p ss, str_eq→eq s.topic_id u, str_eq→eq u t, str_eq_refl t)

abbrev pub listed : SubscriptionIndex
listed = record {
  Ct = List Subscription;
  empty = [];
  insert = λ s ct. s ∷ ct;
  erase = without;
  equal_range = with_topic;
  multiplicity = count;
  multiplicity-empty = λ t p. refl;
  multiplicity-insert = λ t p s ct. refl;
  multiplicity-erase = λ t p q ct. count-without t p q ct;
  count-equal_range = λ t u p ct. count-with_topic t u p ct;
}
