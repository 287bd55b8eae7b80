-- ===== src/Examples/Writes.antt =====
-- The messages of a session, on concrete runs.
use servertech_chat.Prelude.{Bool, ◌≡◌, refl, arith, Bytes, codes, [], ◌∷◌}
use servertech_chat.AsyncMutex.Waiters.{line}
use servertech_chat.Websocket.{write, write_locked, lock_writes}
use servertech_chat.ChatWebsocket.Session.{
  Session, start, locked, greeting, locks, greets, delivers, Reach, here, next,
}
use servertech_chat.ChatWebsocket.Delivery.{count, handed}
use servertech_chat.ChatWebsocket.Drained.{GoesTo, handed-GoesTo}
use servertech_chat.ChatWebsocket.Overtaking.{overtaken}

abbrev text : Bytes
text = codes "hi"

-- A message waits for the hello.
abbrev delayed : Session line
delayed = record { phase = locked; ws = write line 1 text (lock_writes line 0 (start line).ws) }

abbrev delays : Reach line (start line) delayed
delays = next (next here (locks refl)) (delivers 1 text (omega arith) λ e. cc e)

-- The hello is being written, and the message still waits.
abbrev greeting_it : Session line
greeting_it = record {
  phase = greeting (codes "hello");
  ws = write_locked line 0 (codes "hello") delayed.ws;
}

abbrev greets_it : Reach line (start line) greeting_it
greets_it = next delays (greets (codes "hello") refl)

handed-GoesTo_example :
    (u : Session line) × GoesTo line greeting_it u
    × (u.ws.pending ≡ [])
    × ((p : Bytes → Bool) → count p (text ∷ codes "hello" ∷ []) ≡ count p u.ws.frames)
handed-GoesTo_example = handed-GoesTo line {s = greeting_it} greets_it λ e. cc e

overtaken_example :
    (s : Session line) × (r : Reach line (start line) s) × (handed line r
      ≡ codes "a" ∷ codes "hello" ∷ codes "b" ∷ [])
    × (s.ws.frames ≡ codes "hello" ∷ codes "b" ∷ codes "a" ∷ [])
overtaken_example = overtaken (codes "hello") (codes "a") (codes "b")
