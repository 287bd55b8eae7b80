-- ===== src/Websocket.antt =====
-- server/include/util/websocket.hpp and server/src/util/websocket.cpp: the writes to one websocket.
-- A coroutine is a number, and a call runs up to the point where the source suspends. The stream
-- itself is Boost.Beast's: what the program hands to async_write is a frame.
pub mod Reads
pub mod Handshake
use servertech_chat.Prelude.{ℕ, Bool, Bytes, List, [], ◌∷◌, ◌++◌, if◌then◌else◌}
use servertech_chat.AsyncMutex.{System, lock_round, run_lock}
use servertech_chat.AsyncMutex.Waiters.{Channel}

-- A call of write: the coroutine, and the message.
pub record Write : Type 0 where
  pub coroutine : ℕ
  pub message : Bytes

module _ (c : Channel) where
  -- struct websocket::impl, with the calls of write that wait for the mutex, the calls of
  -- async_write that have not completed, and what async_write was called with so far.
  pub record Websocket : Type 0 where
    pub write_mtx : System c
    pub pending : List Write
    pub writing : List Write
    pub frames : List Bytes

  -- write_locked, up to async_write.
  unfoldable pub write_locked : ℕ → Bytes → Websocket → Websocket
  write_locked t message ws = record ws {
    writing = ws.writing ++ (record { coroutine = t; message = message }) ∷ [];
    frames = ws.frames ++ message ∷ [];
  }

  -- lock_writes, in one round of the loop of async_mutex::lock.
  unfoldable pub lock_writes : ℕ → Websocket → Websocket
  unfolding run_lock
  lock_writes t ws = record ws { write_mtx = run_lock c t ws.write_mtx }

  -- Whether that round takes the lock.
  abbrev pub takes_lock : ℕ → Websocket → Bool
  takes_lock t ws = (lock_round c t ws.write_mtx.mutex).1

  abbrev pub wait : ℕ → Bytes → Websocket → Websocket
  wait t message ws = record ws {
    pending = ws.pending ++ (record { coroutine = t; message = message }) ∷ [];
  }

  -- write: with the lock it goes on to async_write at once, and without it waits.
  unfoldable pub write : ℕ → Bytes → Websocket → Websocket
  unfolding lock_writes write_locked lock_round
  write t message ws =
      if takes_lock t ws
      then write_locked t message (lock_writes t ws)
      else wait t message (lock_writes t ws)

  -- A websocket that nobody has written to.
  abbrev pub fresh : System c → Websocket
  fresh mutex = record { write_mtx = mutex; pending = []; writing = []; frames = [] }
