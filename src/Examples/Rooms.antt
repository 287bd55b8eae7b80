-- ===== src/Examples/Rooms.antt =====
-- A run of the server with one session, that greets its client and publishes a message.
use servertech_chat.Prelude.{
  ℕ, Bool, ◌+◌, ◌≡◌, refl, inl, false, none, Bytes, codes, str_eq, [], ◌∷◌,
}
use servertech_chat.AsyncMutex.{System, run_lock, lock_round, unlock}
use servertech_chat.AsyncMutex.Waiters.{line}
use servertech_chat.PubsubService.{subscribe, publish}
use servertech_chat.PubsubService.Index.{listed}
use servertech_chat.Websocket.{write_locked, lock_writes}
use servertech_chat.ChatWebsocket.Messages.{room_ids}
use servertech_chat.ChatWebsocket.Session.{
  Session, start, locked, greeting, chatting, locks, greets, greeted, Unlocks,
}
use servertech_chat.ChatWebsocket.Delivery.{count, about}
use servertech_chat.ChatRoom.{Server, begin, update, acts, publishes, Reach, here, next, owed}
use servertech_chat.ChatRoom.Conserved.{bound_for, owed_lem}
use servertech_chat.ChatRoom.Subscribed.{share, subscribed}
use servertech_chat.ChatRoom.Sent.{owed_frames}

abbrev hello : Bytes
hello = codes "hello"

abbrev text : Bytes
text = codes "hi"

abbrev room_id : Bytes
room_id = codes "beast"

abbrev free : System line
free = record { mutex = record { locked = false; chan = [] }; resumed = []; holders = [] }

abbrev locking : Session line
locking = record { phase = locked; ws = lock_writes line 0 (start line).ws }

abbrev writing : Session line
writing = record { phase = greeting hello; ws = write_locked line 0 hello locking.ws }

abbrev in_loop : Session line
in_loop = record {
  phase = chatting hello;
  ws = record { write_mtx = free; pending = []; writing = []; frames = hello ∷ [] };
}

abbrev chats : Server line listed
chats = record {
  session = update 1 in_loop (update 1 writing (update 1 locking (λ p. start line)));
  subscriptions = subscribe listed listed.empty 1 room_ids;
  spawned = [];
}

abbrev hello_written : Unlocks line 0 writing.ws.write_mtx free
unfolding write_locked lock_writes run_lock lock_round unlock
hello_written = record {
  before = [];
  behind = [];
  mutex = free.mutex;
  woken = none;
  holds = refl;
  unlocked = refl;
  after = refl;
}

abbrev published : Server line listed
published = record chats { spawned = record { subscriber = 1; message = text } ∷ [] }

run : Reach line listed (begin line listed) published
unfolding write_locked lock_writes run_lock lock_round unlock subscribe publish room_ids str_eq
run =
    next
      (next
        (next (next here (acts 1 locking (locks refl) tt)) (acts 1 writing (greets hello refl) tt))
        (acts 1 in_loop
          (greeted hello [] [] (record { coroutine = 0; message = hello }) free (chatting hello)
            refl (inl refl) refl hello_written)
          tt))
      (publishes 1 hello room_id text refl)

owed_lem_example :
    count (str_eq text) (owed line listed run 1)
    ≡ count (str_eq text) in_loop.ws.frames
      + count (about (str_eq text)) in_loop.ws.pending
      + count (bound_for 1 (str_eq text)) published.spawned
owed_lem_example = owed_lem line listed run 1 (str_eq text)

subscribed_example :
    listed.multiplicity room_id 1 published.subscriptions ≡ share room_id (chatting hello)
subscribed_example = subscribed line listed run room_id 1

owed_frames_example :
    (u : Server line listed) × (rest : Reach line listed published u) × ((q : ℕ)
      → owed line listed rest q ≡ [])
    × ((f : Bytes → Bool) → count f (owed line listed run 1) ≡ count f (u.session 1).ws.frames)
owed_frames_example = owed_frames line listed run 1 (λ e. cc e)
