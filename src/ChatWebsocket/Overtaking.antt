-- ===== src/ChatWebsocket/Overtaking.antt =====
-- The order of the messages that wait for the mutex of a websocket.
use servertech_chat.Prelude.{ℕ, ◌≡◌, refl, false, arith, inl, some, none, Bytes, List, [], ◌∷◌}
use servertech_chat.AsyncMutex.{System, run_lock, lock_round, unlock}
use servertech_chat.AsyncMutex.Waiters.{line}
use servertech_chat.Websocket.{Websocket, Write, write, write_locked, lock_writes}
use servertech_chat.ChatWebsocket.Session.{
  chatting, Session, start, locks, greets, greeted, delivers, resumes, written, Reach, here, next,
}
use servertech_chat.ChatWebsocket.Delivery.{handed}

abbrev system : List ℕ → List ℕ → System line
system resumed chan = record {
  mutex = record { locked = false; chan = chan };
  resumed = resumed;
  holders = [];
}

abbrev idle : List ℕ → List Write → List Bytes → Websocket line
idle resumed pending frames = record {
  write_mtx = system resumed [];
  pending = pending;
  writing = [];
  frames = frames;
}

abbrev of : ℕ → Bytes → Write
of t m = record { coroutine = t; message = m }

-- The mutex does not keep the order: for all messages `a` and `b` there is a run in which `a` is
-- handed over first, and waits for the hello, and the client gets `b` before `a`.
pub overtaken :
    (hello a b : Bytes)
    → (s : Session line) × (r : Reach line (start line) s) × (handed line r ≡ a ∷ hello ∷ b ∷ [])
      × (s.ws.frames ≡ hello ∷ b ∷ a ∷ [])
unfolding write lock_writes write_locked run_lock lock_round unlock
overtaken hello a b = (
  record { phase = chatting hello; ws = write line 1 a (idle [] [] (hello ∷ b ∷ [])) },
  next
      (next
        (next
          (next
            (next (next (next here (locks refl)) (delivers 1 a (omega arith) (λ e. cc e)))
              (greets hello refl))
            (greeted hello [] [] (of 0 hello) (system (1 ∷ []) []) (chatting hello) refl (inl refl)
              refl
              (record {
                before = [];
                behind = [];
                mutex = record { locked = false; chan = [] };
                woken = some 1;
                holds = refl;
                unlocked = refl;
                after = refl;
              })))
          (delivers 2 b (omega arith) (λ e. cc e)))
        (written (of 2 b) [] [] (system (1 ∷ []) []) (λ h e. cc e) refl
          (record {
            before = [];
            behind = [];
            mutex = record { locked = false; chan = [] };
            woken = none;
            holds = refl;
            unlocked = refl;
            after = refl;
          })))
      (resumes (of 1 a) [] [] [] [] refl refl),
  refl,
  refl,
)
