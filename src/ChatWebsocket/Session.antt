-- ===== src/ChatWebsocket/Session.antt =====
-- chat_websocket_session of server/src/api/chat_websocket.cpp: `run`, with the calls of on_message
-- that the publish-subscribe service starts, each in its own coroutine. What happens between two
-- suspensions is one step. The coroutine of `run` is the number 0.
use servertech_chat.Prelude.{ℕ, Bytes, List, ◌∷◌, ◌++◌, Option, ◌≡◌, ◌≢◌, ◌⊎◌}
use servertech_chat.Error.{ok}
use servertech_chat.AsyncMutex.{AsyncMutex, System, with_resumed, unlock, init}
use servertech_chat.AsyncMutex.Waiters.{Channel}
use servertech_chat.Websocket.{Websocket, Write, write, write_locked, lock_writes, fresh}

-- Where `run` stands: before the lock (the user is being authenticated); with the lock and the
-- subscriptions, waiting for the data of the hello; waiting for the write of the hello; in the
-- loop; and behind its end, with or without a hello.
pub data Phase : Type 0 where
  connecting : Phase
  locked : Phase
  greeting : Bytes → Phase
  chatting : Bytes → Phase
  closed : Bytes → Phase
  refused : Phase

module _ (c : Channel) where
  pub record Session : Type 0 where
    pub phase : Phase
    pub ws : Websocket c

  abbrev pub start : Session
  start = record { phase = connecting; ws = fresh c (init c c.empty) }

  -- unlock_writes of coroutine `t`, with what the mutex and its line are behind it.
  pub record Unlocks (t : ℕ) (s : System c) (s' : System c) : Type 0 where
    pub before : List ℕ
    pub behind : List ℕ
    pub mutex : AsyncMutex c
    pub woken : Option ℕ
    pub holds : s.holders ≡ before ++ t ∷ behind
    pub unlocked : unlock c s.mutex ≡ ok (mutex, woken)
    pub after : s' ≡ record {
      mutex = mutex;
      resumed = with_resumed c woken s.resumed;
      holders = before ++ behind;
    }

  pub data Step (s : Session) : Session → Type 0 where
    -- lock_writes, then subscribe_guarded.
    locks : s.phase ≡ connecting → Step s (record { phase = locked; ws = lock_writes c 0 s.ws })
    -- get_hello_data has failed: the guards are destroyed.
    hello_fails :
        (m : System c)
        → s.phase ≡ locked
        → Unlocks 0 s.ws.write_mtx m
        → Step s (record { phase = refused; ws = record s.ws { write_mtx = m } })
    -- get_hello_data has succeeded: the hello is written under the guard.
    greets :
        (serialized_hello : Bytes)
        → s.phase ≡ locked
        → Step s (record {
          phase = greeting serialized_hello;
          ws = write_locked c 0 serialized_hello s.ws;
        })
    -- The hello has been written, or its write has failed: the guard is reset, or destroyed.
    greeted :
        (h : Bytes) (ps qs : List Write) (w : Write) (m : System c) (p : Phase)
        → s.phase ≡ greeting h
        → (p ≡ chatting h) ⊎ (p ≡ closed h)
        → s.ws.writing ≡ ps ++ w ∷ qs
        → Unlocks 0 s.ws.write_mtx m
        → Step s (record { phase = p; ws = record s.ws { write_mtx = m; writing = ps ++ qs } })
    -- The loop answers an event of the client.
    replies :
        (h payload : Bytes)
        → s.phase ≡ chatting h
        → Step s (record s { ws = write c 0 payload s.ws })
    -- A read, or an event, has failed.
    ends : (h : Bytes) → s.phase ≡ chatting h → Step s (record s { phase = closed h })
    -- A coroutine that publish has started calls on_message.
    delivers :
        (t : ℕ) (serialized_message : Bytes)
        → t ≢ 0
        → s.phase ≢ connecting
        → Step s (record s { ws = write c t serialized_message s.ws })
    -- A coroutine that waits in write has been resumed.
    resumes :
        (w : Write) (xs ys : List ℕ) (ps qs : List Write)
        → s.ws.write_mtx.resumed ≡ xs ++ w.coroutine ∷ ys
        → s.ws.pending ≡ ps ++ w ∷ qs
        → Step s (record s {
          ws = write c w.coroutine w.message (record s.ws {
            write_mtx = record s.ws.write_mtx { resumed = xs ++ ys };
            pending = ps ++ qs;
          });
        })
    -- A write has completed, or failed: its guard is destroyed.
    written :
        (w : Write) (ps qs : List Write) (m : System c)
        → ((h : Bytes) → s.phase ≢ greeting h)
        → s.ws.writing ≡ ps ++ w ∷ qs
        → Unlocks w.coroutine s.ws.write_mtx m
        → Step s (record s { ws = record s.ws { write_mtx = m; writing = ps ++ qs } })

  pub data Reach (s : Session) : Session → Type 0 where
    here : Reach s s
    next : {t u : Session} → Reach s t → Step t u → Reach s u
