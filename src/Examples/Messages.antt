-- ===== src/Examples/Messages.antt =====
-- Message history, subscriptions, the mutex and the routes on concrete inputs.
use servertech_chat.Prelude.{
  ℕ, ◌≤◌, ◌≡◌, ◌↔◌, true, false, All, length, codes, List, [], ◌∷◌, some, refl,
}
use servertech_chat.Prelude.Decimal.{pos}
use servertech_chat.Error.{ok}
use servertech_chat.BusinessTypes.{Message, MessageBatch}
use servertech_chat.Timestamp.{parse_timestamp}
use servertech_chat.RedisSerialization.{to_message, parse_room_history_batch}
use servertech_chat.RedisSerialization.Grammar.{Entry, Response, nodes_of, Reads, ReadsAll, Batches}
use servertech_chat.RedisSerialization.Grammar
use servertech_chat.RedisSerialization.Accepts.{parse_room_history_batch-nodes_of}
use servertech_chat.RedisSerialization.Sound.{parse_room_history_batch_sound}
use servertech_chat.AsyncMutex.{AsyncMutex, System, Step, Reach, init, run_lock, lock_round, unlock}
use servertech_chat.AsyncMutex
use servertech_chat.AsyncMutex.Waiters.{line}
use servertech_chat.AsyncMutex.Safety.{mutual_exclusion, no_lost_wakeup}
use servertech_chat.PubsubService.{OnMessage, subscribes, run, publish}
use servertech_chat.PubsubService.Index.{listed}
use servertech_chat.PubsubService.Delivery.{received, active, publish_delivers}
use servertech_chat.Examples.Server.{wire, stream}

abbrev message : Message
message = record {
  id = codes "1-0";
  content = codes "hello";
  timestamp = pos 1000000000;
  user_id = pos 7;
}

abbrev batches : List MessageBatch
batches = record { messages = message ∷ []; has_more = false } ∷ []

streams : Batches (λ text. ok wire) (stream ∷ []) batches
unfolding to_message parse_timestamp
streams =
    Grammar.Batches.cons
      (Grammar.ReadsAll.cons (record { wire = wire; parsed = refl; converted = refl })
        Grammar.ReadsAll.nil)
      Grammar.Batches.nil

parse_room_history_batch-nodes_of_example :
    parse_room_history_batch (λ text. ok wire) (nodes_of (stream ∷ [])) ≡ ok batches
parse_room_history_batch-nodes_of_example =
    parse_room_history_batch-nodes_of (λ text. ok wire) (stream ∷ []) batches streams

parse_room_history_batch_sound_example :
    (rs : List Response) × (nodes_of (stream ∷ []) ≡ nodes_of rs)
    × Batches (λ text. ok wire) rs batches
parse_room_history_batch_sound_example =
    parse_room_history_batch_sound (λ text. ok wire) (nodes_of (stream ∷ [])) batches
      (parse_room_history_batch-nodes_of (λ text. ok wire) (stream ∷ []) batches streams)

publish_delivers_example :
    (received 1 (
        publish listed
          (run listed listed.empty (subscribes 1 (codes "db" ∷ []) ∷ []))
          (codes "db")
          (codes "hi"))
      ≡ active (codes "db") 1 (subscribes 1 (codes "db" ∷ []) ∷ []) 0)
    × All
        (λ (d : OnMessage). d.message ≡ codes "hi")
        (publish listed
          (run listed listed.empty (subscribes 1 (codes "db" ∷ []) ∷ []))
          (codes "db")
          (codes "hi"))
publish_delivers_example =
    publish_delivers listed (subscribes 1 (codes "db" ∷ []) ∷ []) (codes "db") (codes "hi") 1

-- Three coroutines lock the mutex, and the first unlocks it.
abbrev queued : System line
queued = run_lock line 3 (run_lock line 2 (run_lock line 1 (init line [])))

abbrev woken : System line
woken = record { mutex = record { locked = false; chan = 3 ∷ [] }; resumed = 2 ∷ []; holders = [] }

history : Reach line (init line []) woken
unfolding run_lock lock_round unlock
history =
    AsyncMutex.Reach.next
      (AsyncMutex.Reach.next
        (AsyncMutex.Reach.next
          (AsyncMutex.Reach.next AsyncMutex.Reach.here (AsyncMutex.Step.lock 1 (init line [])))
          (AsyncMutex.Step.lock 2 (run_lock line 1 (init line []))))
        (AsyncMutex.Step.lock 3 (run_lock line 2 (run_lock line 1 (init line [])))))
      (AsyncMutex.Step.unlocks 1 [] [] queued (record { locked = false; chan = 3 ∷ [] }) (some 2)
        refl refl)

mutual_exclusion_example :
    (length woken.holders ≤ 1) × ((woken.mutex.locked ≡ true) ↔ (length woken.holders ≡ 1))
mutual_exclusion_example = mutual_exclusion line {s = woken} history

no_lost_wakeup_example :
    (t : ℕ) × (ts : List ℕ) × (woken.resumed ≡ t ∷ ts)
    × Step line woken (run_lock line t (record woken { resumed = ts }))
    × ((run_lock line t (record woken { resumed = ts })).holders ≡ t ∷ [])
no_lost_wakeup_example = no_lost_wakeup line {s = woken} history refl (λ e. cc e)
