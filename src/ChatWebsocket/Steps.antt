-- ===== src/ChatWebsocket/Steps.antt =====
-- Every step keeps what the phases say.
use servertech_chat.Prelude.{
  ℕ, ◌≡◌, ◌≢◌, inl, inr, refl, ap, sym, ◌∙◌, subst, arith, Bytes, List, [], ◌∷◌, ◌++◌, length,
  length-map,
}
use servertech_chat.AsyncMutex
use servertech_chat.AsyncMutex.{System, run_lock, lock_round, unlock, init}
use servertech_chat.AsyncMutex.Waiters.{Channel}
use servertech_chat.Websocket.{Websocket, Write, write, write_locked, lock_writes}
use servertech_chat.ChatWebsocket.Session.{
  Phase, connecting, locked, greeting, chatting, closed, refused, Session, start, Unlocks, Step,
  locks, hello_fails, greets, greeted, replies, ends, delivers, resumes, written, Reach, here, next,
}
use servertech_chat.ChatWebsocket.Invariant.{
  ids, IsExclusive, Reach-IsExclusive, Writes, Holds, write-mtx, write-Holds, Unlocks-holders,
  no_others, split_ne,
}

module _ (c : Channel) where
  abbrev pub MutexReach : System c → Type 0
  MutexReach s = AsyncMutex.Reach c (init c c.empty) s

  Unlocks-Reach : {t : ℕ} {s s' : System c} → MutexReach s → Unlocks c t s s' → MutexReach s'
  Unlocks-Reach {t} {s} r u = subst MutexReach (sym u.after) (
      AsyncMutex.Reach.next r
        (AsyncMutex.Step.unlocks t u.before u.behind s u.mutex u.woken u.holds u.unlocked))

  write-Reach :
      (t : ℕ) (m : Bytes) (ws : Websocket c)
      → MutexReach ws.write_mtx
      → MutexReach (write c t m ws).write_mtx
  write-Reach t m ws r =
      subst MutexReach (sym (write-mtx c t m ws))
        (AsyncMutex.Reach.next r (AsyncMutex.Step.lock t ws.write_mtx))

  -- Every step of a session is a step of its mutex, or leaves it alone.
  Step-Reach :
      {s u : Session c} → Step c s u → MutexReach s.ws.write_mtx → MutexReach u.ws.write_mtx
  unfolding lock_writes write_locked
  Step-Reach {s} (locks p) r = AsyncMutex.Reach.next r (AsyncMutex.Step.lock 0 s.ws.write_mtx)
  Step-Reach (hello_fails m p k) r = Unlocks-Reach r k
  Step-Reach (greets h p) r = r
  Step-Reach (greeted h ps qs w m p e n k l) r = Unlocks-Reach r l
  Step-Reach {s} (replies h m p) r = write-Reach 0 m s.ws r
  Step-Reach (ends h p) r = r
  Step-Reach {s} (delivers t m ne p) r = write-Reach t m s.ws r
  Step-Reach {s} (resumes w xs ys ps qs e k) r =
      subst MutexReach
        (sym (
          write-mtx c w.coroutine w.message (record s.ws {
            write_mtx = record s.ws.write_mtx { resumed = xs ++ ys };
            pending = ps ++ qs;
          })))
        (AsyncMutex.Reach.next r (AsyncMutex.Step.resume w.coroutine xs ys s.ws.write_mtx e))
  Step-Reach (written w ps qs m p e k) r = Unlocks-Reach r k

  abbrev pub Fine : Session c → Type 0
  Fine s = Holds c s.phase s.ws

  locks-Holds :
      (s : Session c)
      → IsExclusive c s.ws.write_mtx
      → Holds c connecting s.ws
      → Holds c locked (lock_writes c 0 s.ws)
  unfolding lock_writes run_lock lock_round
  locks-Holds s v (down, h, w, f, p) = ground arith

  written-Writes :
      (ws : Websocket c) (w : Write) (ps qs : List Write) (m : System c)
      → IsExclusive c ws.write_mtx
      → Writes c ws
      → ws.writing ≡ ps ++ w ∷ qs
      → Unlocks c w.coroutine ws.write_mtx m
      → ids (ps ++ qs) ≡ m.holders
  written-Writes ws w ps qs m v h e k =
      let size : length ws.writing ≡ length ws.write_mtx.holders =
        sym (length-map ws.writing (λ x. x.coroutine)) ∙ ap length h in
      let gone = no_others ws.writing ps w qs e (omega (arith, size, v.few)) in
      ap ids gone ∙ sym (Unlocks-holders c v k)

  greets-Holds :
      (hello : Bytes) (ws : Websocket c)
      → Holds c locked ws
      → Holds c (greeting hello) (write_locked c 0 hello ws)
  unfolding write_locked
  greets-Holds hello ws (h, w, f) = (
    h,
    ap (λ x. x ++ (record { coroutine = 0; message = hello }) ∷ []) w,
    ap (λ x. x ++ hello ∷ []) f,
  )

  greeted-Holds :
      (hello : Bytes) (ws : Websocket c) (ps qs : List Write) (w : Write) (m : System c)
      → IsExclusive c ws.write_mtx
      → Holds c (greeting hello) ws
      → ws.writing ≡ ps ++ w ∷ qs
      → Unlocks c 0 ws.write_mtx m
      → Holds c (chatting hello) (record ws { write_mtx = m; writing = ps ++ qs })
  greeted-Holds hello ws ps qs w m v (h, k, f) e u =
      let gone = no_others ws.writing ps w qs e (omega (arith, ap length k)) in
      (ap ids gone ∙ sym (Unlocks-holders c v u), ([], f))

  -- Neither the line of the mutex nor the calls that wait are part of what a phase says.
  queue-Holds :
      (p : Phase) (ws : Websocket c) (rs : List ℕ) (ps : List Write)
      → p ≢ connecting
      → Holds c p ws
      → Holds c p (record ws { write_mtx = record ws.write_mtx { resumed = rs }; pending = ps })
  queue-Holds connecting ws rs ps ne h = absurd (ne refl)
  queue-Holds locked ws rs ps ne h = h
  queue-Holds (greeting hello) ws rs ps ne h = h
  queue-Holds (chatting hello) ws rs ps ne h = h
  queue-Holds (closed hello) ws rs ps ne h = h
  queue-Holds refused ws rs ps ne h = h

  has_pending :
      (p : Phase) (ws : Websocket c) (w : Write) (ps qs : List Write)
      → Holds c p ws
      → ws.pending ≡ ps ++ w ∷ qs
      → p ≢ connecting
  has_pending p ws w ps qs h e is =
      let (_, _, _, _, none_left) =
        (let k : Holds c connecting ws = subst (λ x. Holds c x ws) is h in k) in
      split_ne ps w qs (sym e ∙ none_left)

  written-Holds :
      (p : Phase) (ws : Websocket c) (w : Write) (ps qs : List Write) (m : System c)
      → ((hello : Bytes) → p ≢ greeting hello)
      → IsExclusive c ws.write_mtx
      → Holds c p ws
      → ws.writing ≡ ps ++ w ∷ qs
      → Unlocks c w.coroutine ws.write_mtx m
      → Holds c p (record ws { write_mtx = m; writing = ps ++ qs })
  written-Holds connecting ws w ps qs m ne v (_, _, k, _, _) e u =
      absurd (split_ne ps w qs (sym e ∙ k))
  written-Holds locked ws w ps qs m ne v (_, k, _) e u = absurd (split_ne ps w qs (sym e ∙ k))
  written-Holds (greeting hello) ws w ps qs m ne v h e u = absurd (ne hello refl)
  written-Holds (chatting hello) ws w ps qs m ne v (k, b) e u =
      (written-Writes ws w ps qs m v k e u, b)
  written-Holds (closed hello) ws w ps qs m ne v (k, b) e u =
      (written-Writes ws w ps qs m v k e u, b)
  written-Holds refused ws w ps qs m ne v k e u = written-Writes ws w ps qs m v k e u

  queue-IsExclusive :
      (s : System c) (rs : List ℕ) → IsExclusive c s → IsExclusive c (record s { resumed = rs })
  queue-IsExclusive s rs v = record { held = v.held; free = v.free; few = v.few; up = v.up }

  at_phase : (s : Session c) (p : Phase) → s.phase ≡ p → Fine s → Holds c p s.ws
  at_phase s p e h = subst (λ x. Holds c x s.ws) e h

  Step-Fine : {s u : Session c} → Step c s u → IsExclusive c s.ws.write_mtx → Fine s → Fine u
  Step-Fine {s} (locks p) v h = locks-Holds s v (at_phase s connecting p h)
  Step-Fine {s} (hello_fails m p k) v h =
      let (_, w, _) = at_phase s locked p h in ap ids w ∙ sym (Unlocks-holders c v k)
  Step-Fine {s} (greets hello p) v h = greets-Holds hello s.ws (at_phase s locked p h)
  Step-Fine {s} (greeted hello ps qs w m p e n k l) v h =
      let done = greeted-Holds hello s.ws ps qs w m v (at_phase s (greeting hello) e h) k l in
      elim n [
        | inl chats ↦
            subst (λ x. Holds c x (record s.ws { write_mtx = m; writing = ps ++ qs })) (sym chats)
              done
        | inr over ↦
            subst (λ x. Holds c x (record s.ws { write_mtx = m; writing = ps ++ qs })) (sym over)
              done
      ]
  Step-Fine {s} (replies hello m p) v h = write-Holds c s.phase 0 m s.ws (λ e. cc (e, p)) v h
  Step-Fine {s} (ends hello p) v h = at_phase s (chatting hello) p h
  Step-Fine {s} (delivers t m ne p) v h = write-Holds c s.phase t m s.ws p v h
  Step-Fine {s} (resumes w xs ys ps qs e k) v h =
      let begun = has_pending s.phase s.ws w ps qs h k in
      write-Holds c s.phase w.coroutine w.message
        (record s.ws {
          write_mtx = record s.ws.write_mtx { resumed = xs ++ ys };
          pending = ps ++ qs;
        })
        begun (queue-IsExclusive s.ws.write_mtx (xs ++ ys) v)
        (queue-Holds s.phase s.ws (xs ++ ys) (ps ++ qs) begun h)
  Step-Fine {s} (written w ps qs m p e k) v h = written-Holds s.phase s.ws w ps qs m p v h e k

  pub Reach-mutex : {s : Session c} → Reach c (start c) s → MutexReach s.ws.write_mtx
  Reach-mutex here = AsyncMutex.Reach.here
  Reach-mutex (next r st) = Step-Reach st (Reach-mutex r)

  pub Reach-Fine : {s : Session c} → Reach c (start c) s → Fine s
  Reach-Fine here = (refl, refl, refl, refl, refl)
  Reach-Fine (next r st) = Step-Fine st (Reach-IsExclusive c (Reach-mutex r)) (Reach-Fine r)
