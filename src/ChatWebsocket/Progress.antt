-- ===== src/ChatWebsocket/Progress.antt =====
-- A message that waits for the mutex of a session's websocket gets on.
use servertech_chat.Prelude.{
  ℕ, suc, ◌==◌, ==_refl, ==_iff, true, false, Bytes, List, [], ◌∷◌, ◌++◌, ◌≡◌, ◌≢◌, refl, ap, sym,
  ◌∙◌, inl, inr, arith, Bool-cases, List-cases, length,
}
use servertech_chat.AsyncMutex.{AsyncMutex, System, run_lock, lock_round, unlock, with_resumed}
use servertech_chat.AsyncMutex.Waiters.{Channel}
use servertech_chat.AsyncMutex.Safety.{init-IsSound, Reach-IsSound}
use servertech_chat.Websocket.{Websocket, Write, write, write_locked, lock_writes}
use servertech_chat.ChatWebsocket.Session.{
  Phase, connecting, locked, greeting, chatting, closed, refused, Session, start, Unlocks, Step,
  greeted, resumes, written, Reach,
}
use servertech_chat.ChatWebsocket.Invariant.{ids, Holds, write_free}
use servertech_chat.ChatWebsocket.Steps.{Reach-mutex, Reach-Fine}
use servertech_chat.ChatWebsocket.Delivery.{count, hands}
use servertech_chat.ChatWebsocket.Queue.{is, of_coroutine, Queued, Reach-Queued}

module _ (c : Channel) where
  open c use {waiting, try_send}

  -- How a session with calls that wait goes on: `run` holds the mutex until the hello is there; or
  -- a write that is in progress can complete, which leaves the mutex free; or a resumed coroutine
  -- can send the message of a call that waits.
  pub data GoesOn (s : Session c) : Type 0 where
    hello_due : s.phase ≡ locked → GoesOn s
    completes :
        s.ws.write_mtx.mutex.locked ≡ true
        → (u : Session c) (st : Step c s u) → hands c st ≡ []
        → u.phase ≢ locked
        → u.ws.write_mtx.mutex.locked ≡ false
        → u.ws.pending ≡ s.ws.pending
        → GoesOn s
    sends :
        (w : Write) (ps qs : List Write) (u : Session c)
        → s.ws.pending ≡ ps ++ w ∷ qs
        → (st : Step c s u) → hands c st ≡ []
        → u.phase ≡ s.phase
        → u.ws.frames ≡ s.ws.frames ++ w.message ∷ []
        → u.ws.pending ≡ ps ++ qs
        → GoesOn s

  -- The only holder can unlock.
  unlocks_only :
      (t : ℕ) (s : System c)
      → s.holders ≡ t ∷ []
      → s.mutex.locked ≡ true
      → (m : System c) × Unlocks c t s m × (m.mutex.locked ≡ false)
  unfolding unlock
  unlocks_only t s held up =
      let mutex : AsyncMutex c = record { locked = false; chan = (try_send s.mutex.chan).1 } in
      (
        record {
          mutex = mutex;
          resumed = with_resumed c (try_send s.mutex.chan).0 s.resumed;
          holders = [];
        },
        record {
          before = [];
          behind = [];
          mutex = mutex;
          woken = (try_send s.mutex.chan).0;
          holds = held;
          unlocked = rw up refl;
          after = refl;
        },
        refl,
      )

  -- A write in progress, which is the only one.
  busy_written :
      (s : Session c)
      → ((h : Bytes) → s.phase ≢ greeting h)
      → s.phase ≢ locked
      → s.ws.write_mtx.mutex.locked ≡ true
      → length s.ws.write_mtx.holders ≡ 1
      → ids s.ws.writing ≡ s.ws.write_mtx.holders
      → GoesOn s
  busy_written s phase late up one writes = go s.ws.writing refl
    where
      go : (ws : List Write) → s.ws.writing ≡ ws → GoesOn s
      go [] e = absurd (omega (arith, ap length (ap ids (sym e) ∙ writes), one))
      go (w ∷ v ∷ ws) e = absurd (omega (arith, ap length (ap ids (sym e) ∙ writes), one))
      go (w ∷ []) e =
          let (m, u, free) = unlocks_only w.coroutine s.ws.write_mtx (sym writes ∙ ap ids e) up in
          completes up _ (written w [] [] m phase e u) refl late free refl

  busy :
      (s : Session c) (p : Phase)
      → s.phase ≡ p
      → Holds c p s.ws
      → s.ws.write_mtx.mutex.locked ≡ true
      → length s.ws.write_mtx.holders ≡ 1
      → GoesOn s
  busy s connecting e (down, _, _, _, _) up one = cc (down, up)
  busy s locked e h up one = hello_due e
  busy s (greeting g) e (held, w, f) up one =
      let (m, u, free) = unlocks_only 0 s.ws.write_mtx held up in
      completes up _ (greeted g [] [] _ m (chatting g) e (inl refl) w u) refl (λ k. cc k) free refl
  busy s (chatting g) e (w, _) up one = busy_written s (λ x k. cc (e, k)) (λ k. cc (e, k)) up one w
  busy s (closed g) e (w, _) up one = busy_written s (λ x k. cc (e, k)) (λ k. cc (e, k)) up one w
  busy s refused e w up one = busy_written s (λ x k. cc (e, k)) (λ k. cc (e, k)) up one w

  -- A list with an element that is counted, split at one.
  counted :
      (t : ℕ) (ws : List Write)
      → count (of_coroutine t) ws ≢ 0
      → (w : Write) × (ps : List Write) × (qs : List Write) × (ws ≡ ps ++ w ∷ qs)
        × (w.coroutine ≡ t)
  counted t [] some_left = absurd (some_left refl)
  counted t (w ∷ ws) some_left = elim (Bool-cases (w.coroutine == t)) [
    | inl same ↦ (w, [], ws, refl, (==_iff w.coroutine t).0 same)
    | inr other ↦
        let (v, ps, qs, e, k) = counted t ws (rw other at some_left) in
        (v, w ∷ ps, qs, ap (λ x. w ∷ x) e, k)
  ]

  free_pending :
      (t : ℕ) (m : Bytes) (ws : Websocket c)
      → ws.write_mtx.mutex.locked ≡ false
      → (write c t m ws).pending ≡ ws.pending
  unfolding write lock_writes write_locked run_lock lock_round
  free_pending t m ws down = ground (arith, down)

  resumed_sends :
      (s : Session c) (t : ℕ) (ts : List ℕ)
      → Queued c s.ws
      → s.ws.write_mtx.mutex.locked ≡ false
      → s.ws.write_mtx.resumed ≡ t ∷ ts
      → GoesOn s
  resumed_sends s t ts q down e =
      let (w, ps, qs, k, same) =
        counted t s.ws.pending
          (λ zero_left. omega (arith, zero_left, q t, ap (count (is t)) e, is_first)) in
      let ws : Websocket c = record s.ws {
        write_mtx = record s.ws.write_mtx { resumed = ts };
        pending = ps ++ qs;
      } in
      sends w ps qs (record s { ws = write c w.coroutine w.message ws }) k
        (resumes w [] ts ps qs (e ∙ ap (λ x. x ∷ ts) (sym same)) k) refl refl
        (write_free c w.coroutine w.message ws down).2 (free_pending w.coroutine w.message ws down)
    where
      is_first : count (is t) (t ∷ ts) ≡ suc (count (is t) ts)
      is_first = rw (==_refl t) refl

  -- Somebody is queued for each call that waits.
  queue_left :
      (s : Session c)
      → Queued c s.ws
      → s.ws.pending ≢ []
      → s.ws.write_mtx.resumed ≡ []
      → waiting s.ws.write_mtx.mutex.chan ≢ []
  queue_left s q some_wait none_resumed none_in_line = elim (List-cases s.ws.pending) [
    | inl e ↦ some_wait e
    | inr (w, ws, e) ↦ omega (
      arith,
      q w.coroutine,
      ap (count (of_coroutine w.coroutine)) e,
      first w ws,
      ap (count (is w.coroutine)) none_resumed,
      ap (count (is w.coroutine)) none_in_line,
    )
  ]
    where
      first :
          (w : Write) (ws : List Write)
          → count (of_coroutine w.coroutine) (w ∷ ws) ≡ suc (count (of_coroutine w.coroutine) ws)
      first w ws = rw (==_refl w.coroutine) refl

  -- Under every interleaving, a session in which a call of write waits is never stuck: `run` still
  -- holds the mutex for the hello, or a write that is in progress can complete and leaves the mutex
  -- free with the same calls waiting, or the message of one of the calls that wait can be sent
  -- next.
  pub waiting-GoesOn : {s : Session c} → Reach c (start c) s → s.ws.pending ≢ [] → GoesOn s
  waiting-GoesOn {s} r some_wait =
      let v = Reach-IsSound c (init-IsSound c c.empty c.waiting-empty) (Reach-mutex c r) in
      let q = Reach-Queued c r in
      elim (Bool-cases s.ws.write_mtx.mutex.locked) [
        | inl up ↦ busy s s.phase refl (Reach-Fine c r) up (v.held up)
        | inr down ↦ elim (List-cases s.ws.write_mtx.resumed) [
          | inl e ↦ absurd (queue_left s q some_wait e (v.awake down e))
          | inr (t, ts, e) ↦ resumed_sends s t ts q down e
        ]
      ]
