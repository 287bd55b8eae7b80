-- ===== src/ChatWebsocket/Queue.antt =====
-- Who waits for the mutex of a session's websocket.
use servertech_chat.Prelude.{
  ℕ, ◌+◌, ◌==◌, Bool, Bytes, List, [], ◌∷◌, ◌++◌, ◌≡◌, refl, ap, sym, ◌∙◌, subst, inl, inr, arith,
  Bool-cases,
}
use servertech_chat.AsyncMutex.{System, run_lock, lock_round, unlock, with_resumed}
use servertech_chat.AsyncMutex.Waiters.{Channel}
use servertech_chat.Websocket.{Websocket, Write, write, write_locked, lock_writes}
use servertech_chat.ChatWebsocket.Session.{
  connecting, Session, start, Unlocks, Step, locks, hello_fails, greets, greeted, replies, ends,
  delivers, resumes, written, Reach, here, next,
}
use servertech_chat.ChatWebsocket.Invariant.{Holds}
use servertech_chat.ChatWebsocket.Steps.{Reach-Fine}
use servertech_chat.ChatWebsocket.Delivery.{count, count-snoc, count-split}

abbrev pub is : ℕ → ℕ → Bool
is t x = x == t

abbrev pub of_coroutine : ℕ → Write → Bool
of_coroutine t w = w.coroutine == t

module _ (c : Channel) where
  open c use {waiting, try_send, waiting-async_receive}

  -- The coroutines in the line of the mutex, or out of it and not run yet.
  abbrev pub queued : ℕ → System c → ℕ
  queued t s = count (is t) (waiting s.mutex.chan) + count (is t) s.resumed

  sent :
      (t : ℕ) (ws : List ℕ) (chan : c.Chan) (resumed : List ℕ)
      → waiting chan ≡ ws
      → count (is t) (waiting (try_send chan).1)
          + count (is t) (with_resumed c (try_send chan).0 resumed)
        ≡ count (is t) ws + count (is t) resumed
  sent t [] chan resumed e = let (nobody, rest) = c.try_send_none chan e in rw (nobody, rest) refl
  sent t (w ∷ ws) chan resumed e =
      let (first, rest) = c.try_send_some chan w ws e in
      rw (first, rest) (ground (arith, count-snoc (is t) resumed w))

  -- unlock only moves the first in line.
  Unlocks-queued : {k : ℕ} {s s' : System c} (t : ℕ) → Unlocks c k s s' → queued t s' ≡ queued t s
  unfolding unlock
  Unlocks-queued {k} {s} {s'} t u =
      ap (queued t) u.after
      ∙ (rw (woken, chan) (sent t (waiting s.mutex.chan) s.mutex.chan s.resumed refl))
    where
      woken : u.woken ≡ (try_send s.mutex.chan).0
      woken = ground (arith, u.unlocked)

      chan : u.mutex.chan ≡ (try_send s.mutex.chan).1
      chan = ground (arith, u.unlocked)

  -- Every call that waits is queued, and every coroutine that is queued waits in a call.
  abbrev pub Queued : Websocket c → Type 0
  Queued ws = (t : ℕ) → count (of_coroutine t) ws.pending ≡ queued t ws.write_mtx

  write-Queued : (k : ℕ) (m : Bytes) (ws : Websocket c) → Queued ws → Queued (write c k m ws)
  unfolding write lock_writes write_locked run_lock lock_round
  write-Queued k m ws q t = elim (Bool-cases ws.write_mtx.mutex.locked) [
    | inl up ↦ ground (
      arith,
      up,
      q t,
      count-snoc (of_coroutine t) ws.pending (record { coroutine = k; message = m }),
      ap (count (is t)) (waiting-async_receive k ws.write_mtx.mutex.chan),
      count-snoc (is t) (waiting ws.write_mtx.mutex.chan) k,
    )
    | inr down ↦ ground (arith, down, q t)
  ]

  locks-Queued :
      (s : Session c) → Holds c connecting s.ws → Queued s.ws → Queued (lock_writes c 0 s.ws)
  unfolding lock_writes run_lock lock_round
  locks-Queued s (down, h, w, f, p) q t = ground (arith, down, q t)

  Step-Queued : {s u : Session c} → Step c s u → Holds c s.phase s.ws → Queued s.ws → Queued u.ws
  unfolding write_locked
  Step-Queued {s} (locks p) h q = locks-Queued s (subst (λ x. Holds c x s.ws) p h) q
  Step-Queued {s} (hello_fails m p k) h q = λ t. q t ∙ sym (Unlocks-queued t k)
  Step-Queued {s} (greets g p) h q = q
  Step-Queued {s} (greeted g ps qs w m p e n k l) h q = λ t. q t ∙ sym (Unlocks-queued t l)
  Step-Queued {s} (replies g m p) h q = write-Queued 0 m s.ws q
  Step-Queued {s} (ends g p) h q = q
  Step-Queued {s} (delivers t m ne p) h q = write-Queued t m s.ws q
  Step-Queued {s} (resumes w xs ys ps qs e k) h q =
      write-Queued w.coroutine w.message
        (record s.ws {
          write_mtx = record s.ws.write_mtx { resumed = xs ++ ys };
          pending = ps ++ qs;
        })
        (λ t. omega (
          arith,
          q t,
          count-split (is t) s.ws.write_mtx.resumed xs w.coroutine ys e,
          count-split (of_coroutine t) s.ws.pending ps w qs k,
        ))
  Step-Queued {s} (written w ps qs m p e k) h q = λ t. q t ∙ sym (Unlocks-queued t k)

  pub Reach-Queued : {s : Session c} → Reach c (start c) s → Queued s.ws
  Reach-Queued here = λ t. rw c.waiting-empty (omega arith)
  Reach-Queued (next r st) = Step-Queued st (Reach-Fine c r) (Reach-Queued r)
