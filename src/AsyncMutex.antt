-- ===== src/AsyncMutex.antt =====
-- server/include/util/async_mutex.hpp: async_mutex, and the coroutines that use one mutex.
-- A coroutine is a number. The server runs on one thread, so what a coroutine does between two
-- suspensions is one step.
pub mod Waiters
pub mod Safety
use servertech_chat.Prelude.{
  ℕ, Bool, true, false, List, [], ◌∷◌, ◌++◌, Option, none, some, if◌then◌else◌, ◌≡◌,
}
use servertech_chat.Error.{ErrorCode, Result, ok, undefined}
use Waiters.{Channel}

module _ (c : Channel) where
  open c use {Chan, async_receive, try_send}

  pub record AsyncMutex : Type 0 where
    pub locked : Bool
    pub chan : Chan

  -- bool try_lock()
  unfoldable pub try_lock : AsyncMutex → AsyncMutex × Bool
  try_lock m = if m.locked then (m, false) else (record m { locked = true }, true)

  -- One round of the loop of lock(): the test of `locked_`, and either the wait on the channel or
  -- the end of the loop, which takes the lock. The flag says whether the coroutine has the lock.
  unfoldable pub lock_round : ℕ → AsyncMutex → AsyncMutex × Bool
  lock_round t m =
      if m.locked
      then (record m { chan = async_receive t m.chan }, false)
      else (record m { locked = true }, true)

  -- void unlock(), with the coroutine that the notification resumes. A failed assert is undefined.
  unfoldable pub unlock : AsyncMutex → Result ErrorCode (AsyncMutex × Option ℕ)
  unlock m =
      if m.locked
      then ok (record { locked = false; chan = (try_send m.chan).1 }, (try_send m.chan).0)
      else undefined

  -- The mutex, the coroutines that have been resumed in lock() but have not run yet, and those that
  -- hold the lock.
  pub record System : Type 0 where
    pub mutex : AsyncMutex
    pub resumed : List ℕ
    pub holders : List ℕ

  abbrev pub with_resumed : Option ℕ → List ℕ → List ℕ
  with_resumed none ts = ts
  with_resumed (some t) ts = ts ++ t ∷ []

  abbrev pub with_holder : Bool → ℕ → List ℕ → List ℕ
  with_holder true t hs = t ∷ hs
  with_holder false t hs = hs

  -- A coroutine runs a round of lock(): at its call, or when it is resumed.
  unfoldable pub run_lock : ℕ → System → System
  unfolding lock_round
  run_lock t s = record s {
    mutex = (lock_round t s.mutex).0;
    holders = with_holder (lock_round t s.mutex).1 t s.holders;
  }

  unfoldable pub run_try_lock : ℕ → System → System
  unfolding try_lock
  run_try_lock t s = record s {
    mutex = (try_lock s.mutex).0;
    holders = with_holder (try_lock s.mutex).1 t s.holders;
  }

  -- Any interleaving of the coroutines. Only a holder unlocks.
  pub data Step : System → System → Type 0 where
    lock : (t : ℕ) (s : System) → Step s (run_lock t s)
    tries_lock : (t : ℕ) (s : System) → Step s (run_try_lock t s)
    resume :
        (t : ℕ) (xs ys : List ℕ) (s : System)
        → s.resumed ≡ xs ++ t ∷ ys
        → Step s (run_lock t (record s { resumed = xs ++ ys }))
    unlocks :
        (t : ℕ) (xs ys : List ℕ) (s : System) (m : AsyncMutex) (woken : Option ℕ)
        → s.holders ≡ xs ++ t ∷ ys
        → unlock s.mutex ≡ ok (m, woken)
        → Step s (record { mutex = m; resumed = with_resumed woken s.resumed; holders = xs ++ ys })

  pub data Reach (s : System) : System → Type 0 where
    here : Reach s s
    next : {t u : System} → Reach s t → Step t u → Reach s u

  -- A new mutex, that nobody uses yet.
  abbrev pub init : Chan → System
  init chan = record { mutex = record { locked = false; chan = chan }; resumed = []; holders = [] }
