-- ===== src/RoomHistoryService/UserIds.antt =====
-- The users whose names are looked up.
use servertech_chat.Prelude.{
  ◌≡◌, ◌||◌, ◌&&◌, not, ==_iff, Bool, true, false, Bool-cases, List, [], ◌∷◌, refl, arith, inl, inr,
  ap, sym, subst,
}
use servertech_chat.Prelude.Decimal.{ℤ, pos, negsuc}
use servertech_chat.BusinessTypes.{Message, MessageBatch}
use servertech_chat.RoomHistoryService.{
  same_id, contains, insert, insert_users, insert_batches, unique_user_ids,
}

-- Some message of the list, and of the batches, is the user's.
unfoldable pub wrote : ℤ → List Message → Bool
wrote id [] = false
wrote id (msg ∷ messages) = same_id id msg.user_id || wrote id messages

unfoldable pub appears : ℤ → List MessageBatch → Bool
unfolding wrote
appears id [] = false
appears id (batch ∷ batches) = wrote id batch.messages || appears id batches

-- No number is listed twice.
unfoldable pub no_repeats : List ℤ → Bool
unfolding contains
no_repeats [] = true
no_repeats (x ∷ set) = not (contains x set) && no_repeats set

pub same_id→eq : (a b : ℤ) → same_id a b ≡ true → a ≡ b
same_id→eq (pos a) (pos b) h = ap pos ((==_iff a b).0 h)
same_id→eq (pos a) (negsuc b) h = cc h
same_id→eq (negsuc a) (pos b) h = cc h
same_id→eq (negsuc a) (negsuc b) h = ap negsuc ((==_iff a b).0 h)

contains-insert :
    (id x : ℤ) (set : List ℤ) → contains id (insert x set) ≡ (contains id set || same_id id x)
unfolding contains insert
contains-insert id x set = elim (Bool-cases (contains x set)) [
  | inl h ↦ elim (Bool-cases (same_id id x)) [
    | inl s ↦ ground (arith, h, s, subst (λ y. contains y set ≡ true) (sym (same_id→eq id x s)) h)
    | inr n ↦ ground (arith, h, n)
  ]
  | inr h ↦ ground (arith, h)
]

contains-insert_users :
    (id : ℤ) (messages : List Message) (set : List ℤ)
    → contains id (insert_users messages set) ≡ (contains id set || wrote id messages)
unfolding insert_users wrote
contains-insert_users id [] set = ground arith
contains-insert_users id (msg ∷ messages) set = ground (
  arith,
  contains-insert_users id messages (insert msg.user_id set),
  contains-insert id msg.user_id set,
)

contains-insert_batches :
    (id : ℤ) (batches : List MessageBatch) (set : List ℤ)
    → contains id (insert_batches batches set) ≡ (contains id set || appears id batches)
unfolding insert_batches appears
contains-insert_batches id [] set = ground arith
contains-insert_batches id (batch ∷ batches) set = ground (
  arith,
  contains-insert_batches id batches (insert_users batch.messages set),
  contains-insert_users id batch.messages set,
)

no_repeats-insert :
    (x : ℤ) (set : List ℤ) → no_repeats set ≡ true → no_repeats (insert x set) ≡ true
unfolding insert no_repeats
no_repeats-insert x set h = ground arith

no_repeats-insert_users :
    (messages : List Message) (set : List ℤ)
    → no_repeats set ≡ true
    → no_repeats (insert_users messages set) ≡ true
unfolding insert_users
no_repeats-insert_users [] set h = h
no_repeats-insert_users (msg ∷ messages) set h =
    no_repeats-insert_users messages (insert msg.user_id set) (no_repeats-insert msg.user_id set h)

no_repeats-insert_batches :
    (batches : List MessageBatch) (set : List ℤ)
    → no_repeats set ≡ true
    → no_repeats (insert_batches batches set) ≡ true
unfolding insert_batches
no_repeats-insert_batches [] set h = h
no_repeats-insert_batches (batch ∷ batches) set h =
    no_repeats-insert_batches batches (insert_users batch.messages set)
      (no_repeats-insert_users batch.messages set h)

-- unique_user_ids lists each user who wrote a message of the batches, once, and no other.
unique_user_ids_lem :
    (input : List MessageBatch)
    → ((id : ℤ) → contains id (unique_user_ids input) ≡ appears id input)
      × (no_repeats (unique_user_ids input) ≡ true)
unfolding unique_user_ids
unique_user_ids_lem input = (
  λ id. contains-insert_batches id input [],
  no_repeats-insert_batches input [] (unfold no_repeats in refl),
)
