-- ===== src/ChatWebsocket/Greeting.antt =====
-- The hello comes first, and writes never overlap.
use servertech_chat.Prelude.{
  ℕ, some, ◌≤◌, ◌≡◌, ◌≢◌, refl, ap, arith, true, false, Bytes, List, [], ◌∷◌, length, length-map,
}
use servertech_chat.AsyncMutex.{run_lock, lock_round, unlock}
use servertech_chat.AsyncMutex.Waiters.{Channel, line}
use servertech_chat.Websocket.{Websocket, Write, write, write_locked, lock_writes}
use servertech_chat.ChatWebsocket.Session.{
  Phase, connecting, locked, greeting, chatting, closed, refused, Session, start, locks,
  hello_fails, delivers, resumes, Reach, here, next,
}
use servertech_chat.ChatWebsocket.Invariant.{Begins, IsExclusive, Reach-IsExclusive, Holds}
use servertech_chat.ChatWebsocket.Steps.{Reach-mutex, Reach-Fine}

-- What the client has been sent in each phase.
abbrev pub Greets : Phase → List Bytes → Type 0
Greets connecting frames = frames ≡ []
Greets locked frames = frames ≡ []
Greets (greeting hello) frames = frames ≡ hello ∷ []
Greets (chatting hello) frames = Begins hello frames
Greets (closed hello) frames = Begins hello frames
Greets refused frames = Unit

module _ (c : Channel) where
  Holds-Greets : (p : Phase) (ws : Websocket c) → Holds c p ws → Greets p ws.frames
  Holds-Greets connecting ws (_, _, _, f, _) = f
  Holds-Greets locked ws (_, _, f) = f
  Holds-Greets (greeting hello) ws (_, _, f) = f
  Holds-Greets (chatting hello) ws (_, b) = b
  Holds-Greets (closed hello) ws (_, b) = b
  Holds-Greets refused ws w = tt

  Holds-few :
      (p : Phase) (ws : Websocket c)
      → IsExclusive c ws.write_mtx
      → Holds c p ws
      → length ws.writing ≤ length ws.write_mtx.holders
  Holds-few connecting ws v (_, _, w, _, _) = omega (arith, ap length w)
  Holds-few locked ws v (_, w, _) = omega (arith, ap length w)
  Holds-few (greeting hello) ws v (h, w, _) = omega (arith, ap length h, ap length w)
  Holds-few (chatting hello) ws v (w, _) =
      omega (arith, ap length w, length-map ws.writing (λ x. x.coroutine))
  Holds-few (closed hello) ws v (w, _) =
      omega (arith, ap length w, length-map ws.writing (λ x. x.coroutine))
  Holds-few refused ws v w = omega (arith, ap length w, length-map ws.writing (λ x. x.coroutine))

  -- Under every interleaving of a session with the calls of on_message that publish starts for it:
  -- before the hello, nothing is written to the websocket; and once the hello is being written, it
  -- is the first message. The phase in which the hello was given up is left out.
  pub hello_first : {s : Session c} → Reach c (start c) s → Greets s.phase s.ws.frames
  hello_first {s} r = Holds-Greets s.phase s.ws (Reach-Fine c r)

  -- Under every interleaving of a session with the calls of on_message, at most one write to the
  -- websocket is in progress, and then its mutex is locked.
  pub one_write :
      {s : Session c}
      → Reach c (start c) s
      → (length s.ws.writing ≤ 1) × (s.ws.writing ≢ [] → s.ws.write_mtx.mutex.locked ≡ true)
  one_write {s} r =
      let v = Reach-IsExclusive c (Reach-mutex c r) in
      let few = Holds-few s.phase s.ws v (Reach-Fine c r) in
      (
        omega (arith, few, v.few),
        λ busy. v.up (exactly s.ws.writing busy (length s.ws.write_mtx.holders) few v.few),
      )
    where
      exactly : (ws : List Write) → ws ≢ [] → (n : ℕ) → length ws ≤ n → n ≤ 1 → n ≡ 1
      exactly [] busy n h k = absurd (busy refl)
      exactly (w ∷ ws) busy n h k = omega (arith, h, k)

-- A hello that was given up does not stop the messages that already wait for the lock: for each
-- message there is a run in which it is the first that the client gets, without any hello.
pub refused_writes :
    (message : Bytes)
    → (s : Session line) × Reach line (start line) s
      × (s.phase ≡ refused)
      × (s.ws.frames ≡ message ∷ [])
unfolding write lock_writes write_locked run_lock lock_round unlock
refused_writes message = (
  record { phase = refused; ws = write line 1 message woken },
  next
      (next (next (next here (locks refl)) (delivers 1 message (omega arith) (λ e. cc e))) (
        hello_fails
          (record { mutex = record { locked = false; chan = [] }; resumed = 1 ∷ []; holders = [] })
          refl
          (record {
            before = [];
            behind = [];
            mutex = record { locked = false; chan = [] };
            woken = some 1;
            holds = refl;
            unlocked = refl;
            after = refl;
          })))
      (resumes (record { coroutine = 1; message = message }) [] [] [] [] refl refl),
  refl,
  refl,
)
  where
    woken : Websocket line
    woken = record {
      write_mtx = record {
        mutex = record { locked = false; chan = [] };
        resumed = [];
        holders = [];
      };
      pending = [];
      writing = [];
      frames = [];
    }
