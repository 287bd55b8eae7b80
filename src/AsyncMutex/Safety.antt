-- ===== src/AsyncMutex/Safety.antt =====
-- Mutual exclusion, and no lost wake-up.
use servertech_chat.Prelude.{
  ℕ, true, false, List, [], ◌∷◌, ◌++◌, Option, ◌≡◌, ◌≢◌, ◌↔◌, inl, inr, refl, ap, arith, Bool-cases,
  List-cases, length, length-append, ◌≤◌,
}
use servertech_chat.Error.{ok}
use servertech_chat.AsyncMutex.Waiters.{Channel}
use servertech_chat.AsyncMutex.{
  AsyncMutex, System, Step, lock, tries_lock, resume, unlocks, Reach, here, next, run_lock,
  run_try_lock, unlock, with_resumed, init,
}

append_ne : (xs : List ℕ) (x : ℕ) → xs ++ x ∷ [] ≢ []
append_ne [] x e = cc
append_ne (y ∷ xs) x e = cc

pub only {ℓ} :
    {A : Type ℓ} (xs : List A) (t : A) (ys : List A) → length (xs ++ t ∷ ys) ≡ 1 → xs ++ ys ≡ []
only [] t [] e = refl
only [] t (y ∷ ys) e = absurd (omega arith)
only (x ∷ xs) t ys e = absurd (omega (arith, length-append xs (t ∷ ys)))

module _ (c : Channel) where
  open c use {Chan, waiting}

  -- The flag says how many coroutines hold the lock; and while it is down, a coroutine in line means
  -- that another one has been resumed and will run its loop again.
  pub record IsSound (s : System c) : Type 0 where
    pub held : s.mutex.locked ≡ true → length s.holders ≡ 1
    pub free : s.mutex.locked ≡ false → s.holders ≡ []
    pub awake : s.mutex.locked ≡ false → s.resumed ≡ [] → waiting s.mutex.chan ≡ []

  pub init-IsSound : (chan : Chan) → waiting chan ≡ [] → IsSound (init c chan)
  init-IsSound chan e = record { held = λ h. ground arith; free = λ h. refl; awake = λ h k. e }

  lock_step :
      (t : ℕ) (s : System c)
      → (s.mutex.locked ≡ true → length s.holders ≡ 1)
      → (s.mutex.locked ≡ false → s.holders ≡ [])
      → IsSound (run_lock c t s)
  unfolding run_lock
  lock_step t s v w = record {
    held = λ h. ground (arith, v, w);
    free = λ h. ground arith;
    awake = λ h. ground arith;
  }

  try_lock_step :
      (t : ℕ) (s : System c)
      → (s.mutex.locked ≡ true → length s.holders ≡ 1)
      → (s.mutex.locked ≡ false → s.holders ≡ [])
      → IsSound (run_try_lock c t s)
  unfolding run_try_lock
  try_lock_step t s v w = record {
    held = λ h. ground (arith, v, w);
    free = λ h. ground arith;
    awake = λ h. ground arith;
  }

  -- The notification of unlock resumes the first in line, if there is one.
  notified :
      (ws resumed : List ℕ) (chan : Chan)
      → waiting chan ≡ ws
      → with_resumed c (c.try_send chan).0 resumed ≡ []
      → waiting (c.try_send chan).1 ≡ []
  notified [] resumed chan e k = (c.try_send_none chan e).1
  notified (w ∷ ws) resumed chan e k =
      absurd (append_ne resumed w (rw (c.try_send_some chan w ws e).0 at k))

  unlock_step :
      (t : ℕ) (xs ys : List ℕ) (s : System c) (m : AsyncMutex c) (woken : Option ℕ)
      → s.holders ≡ xs ++ t ∷ ys
      → unlock c s.mutex ≡ ok (m, woken)
      → (s.mutex.locked ≡ true → length s.holders ≡ 1)
      → IsSound (record { mutex = m; resumed = with_resumed c woken s.resumed; holders = xs ++ ys })
  unfolding unlock
  unlock_step t xs ys s m woken e u v = record {
    held = λ h. ground (arith, u);
    free = λ h. only xs t ys (ground (arith, u, v, ap length e));
    awake = λ h k.
        let w : woken ≡ (c.try_send s.mutex.chan).0 = ground (arith, u) in
        let n : m.chan ≡ (c.try_send s.mutex.chan).1 = ground (arith, u) in
        rw n (notified (waiting s.mutex.chan) s.resumed s.mutex.chan refl (rw w at k));
  }

  Step-IsSound : {s u : System c} → Step c s u → IsSound s → IsSound u
  Step-IsSound (lock t s) v = lock_step t s v.held v.free
  Step-IsSound (tries_lock t s) v = try_lock_step t s v.held v.free
  Step-IsSound (resume t xs ys s e) v = lock_step t _ v.held v.free
  Step-IsSound (unlocks t xs ys s m woken e u) v = unlock_step t xs ys s m woken e u v.held

  pub Reach-IsSound : {s u : System c} → IsSound s → Reach c s u → IsSound u
  Reach-IsSound v here = v
  Reach-IsSound v (next r st) = Step-IsSound st (Reach-IsSound v r)

  -- From a new mutex, under every interleaving: at most one coroutine holds the lock, exactly one
  -- while `locked_` is set, and none otherwise.
  pub mutual_exclusion :
      {s : System c}
      → Reach c (init c c.empty) s
      → (length s.holders ≤ 1) × ((s.mutex.locked ≡ true) ↔ (length s.holders ≡ 1))
  mutual_exclusion {s} r =
      let v = Reach-IsSound (init-IsSound c.empty c.waiting-empty) r in
      elim (Bool-cases s.mutex.locked) [
        | inl up ↦ (omega (arith, v.held up), ((λ _. v.held up), (λ _. up)))
        | inr down ↦
            let none_left : length s.holders ≡ 0 = ap length (v.free down) in
            (
              omega (arith, none_left),
              ((λ h. cc (h, down)), (λ h. absurd (omega (arith, none_left)))),
            )
      ]

  -- No wake-up is lost: if a mutex that is reached from a new one is free and a coroutine is in
  -- line for it, then a resumed coroutine is about to run its loop, and takes the lock when it
  -- does.
  pub no_lost_wakeup :
      {s : System c}
      → Reach c (init c c.empty) s
      → s.mutex.locked ≡ false
      → waiting s.mutex.chan ≢ []
      → (t : ℕ) × (ts : List ℕ) × (s.resumed ≡ t ∷ ts)
        × Step c s (run_lock c t (record s { resumed = ts }))
        × ((run_lock c t (record s { resumed = ts })).holders ≡ t ∷ [])
  unfolding run_lock
  no_lost_wakeup {s} r free line =
      let v = Reach-IsSound (init-IsSound c.empty c.waiting-empty) r in
      elim (List-cases s.resumed) [
        | inl e ↦ absurd (line (v.awake free e))
        | inr (t, ts, e) ↦ (t, ts, e, resume t [] ts s e, ground (arith, v.free free))
      ]
