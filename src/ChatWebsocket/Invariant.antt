-- ===== src/ChatWebsocket/Invariant.antt =====
-- What each phase of a session says of its websocket.
use servertech_chat.Prelude.{
  ℕ, ◌≤◌, true, false, Bytes, List, [], ◌∷◌, ◌++◌, map, length, length-append, ◌≡◌, ◌≢◌, inl, inr,
  refl, ap, sym, ◌∙◌, arith, Bool-cases, List-cases,
}
use servertech_chat.AsyncMutex
use servertech_chat.AsyncMutex.{System, run_lock, lock_round, unlock, init}
use servertech_chat.AsyncMutex.Waiters.{Channel}
use servertech_chat.AsyncMutex.Safety.{mutual_exclusion, only}
use servertech_chat.Websocket.{Websocket, Write, write, write_locked, lock_writes}
use servertech_chat.ChatWebsocket.Session.{
  Phase, connecting, locked, greeting, chatting, closed, refused, Unlocks,
}

abbrev pub ids : List Write → List ℕ
ids = map (λ w. w.coroutine)

abbrev pub Begins : Bytes → List Bytes → Type 0
Begins h frames = (rest : List Bytes) × (frames ≡ h ∷ rest)

pub split_ne {ℓ} : {A : Type ℓ} (xs : List A) (t : A) (ys : List A) → xs ++ t ∷ ys ≢ []
split_ne [] t ys e = cc e
split_ne (x ∷ xs) t ys e = cc e

-- A list of at most one element, split at an element.
pub no_others {ℓ} :
    {A : Type ℓ} (l xs : List A) (t : A) (ys : List A)
    → l ≡ xs ++ t ∷ ys
    → length l ≤ 1
    → xs ++ ys ≡ []
no_others l xs t ys e h = only xs t ys (omega (arith, ap length e, length-append xs (t ∷ ys), h))

module _ (c : Channel) where
  -- The mutex, as mutual_exclusion leaves it.
  pub record IsExclusive (s : System c) : Type 0 where
    pub held : s.mutex.locked ≡ true → length s.holders ≡ 1
    pub free : s.mutex.locked ≡ false → s.holders ≡ []
    pub few : length s.holders ≤ 1
    pub up : length s.holders ≡ 1 → s.mutex.locked ≡ true

  pub Reach-IsExclusive : {s : System c} → AsyncMutex.Reach c (init c c.empty) s → IsExclusive s
  Reach-IsExclusive {s} r =
      let (few, both) = mutual_exclusion c r in
      record {
        held = both.0;
        free = λ down. none_left s.holders few (λ one. cc (both.1 one, down));
        few = few;
        up = both.1;
      }
    where
      none_left : (hs : List ℕ) → length hs ≤ 1 → length hs ≢ 1 → hs ≡ []
      none_left [] few ne = refl
      none_left (h ∷ []) few ne = absurd (ne refl)
      none_left (h ∷ k ∷ hs) few ne = absurd (omega (arith, few))

  abbrev pub Writes : Websocket c → Type 0
  Writes ws = ids ws.writing ≡ ws.write_mtx.holders

  abbrev pub Holds : Phase → Websocket c → Type 0
  Holds connecting ws =
      (ws.write_mtx.mutex.locked ≡ false)
      × (ws.write_mtx.holders ≡ [])
      × (ws.writing ≡ [])
      × (ws.frames ≡ [])
      × (ws.pending ≡ [])
  Holds locked ws = (ws.write_mtx.holders ≡ 0 ∷ []) × (ws.writing ≡ []) × (ws.frames ≡ [])
  Holds (greeting h) ws =
      (ws.write_mtx.holders ≡ 0 ∷ [])
      × (ws.writing ≡ record { coroutine = 0; message = h } ∷ [])
      × (ws.frames ≡ h ∷ [])
  Holds (chatting h) ws = Writes ws × Begins h ws.frames
  Holds (closed h) ws = Writes ws × Begins h ws.frames
  Holds refused ws = Writes ws

  pub write-mtx :
      (t : ℕ) (m : Bytes) (ws : Websocket c)
      → (write c t m ws).write_mtx ≡ run_lock c t ws.write_mtx
  unfolding write lock_writes write_locked
  write-mtx t m ws = ground arith

  -- A write that meets a locked mutex only gets in line.
  write_busy :
      (t : ℕ) (m : Bytes) (ws : Websocket c)
      → ws.write_mtx.mutex.locked ≡ true
      → ((write c t m ws).write_mtx.holders ≡ ws.write_mtx.holders)
        × ((write c t m ws).writing ≡ ws.writing)
        × ((write c t m ws).frames ≡ ws.frames)
  unfolding write lock_writes write_locked run_lock lock_round
  write_busy t m ws up = ground arith

  -- and one that meets a free mutex starts.
  pub write_free :
      (t : ℕ) (m : Bytes) (ws : Websocket c)
      → ws.write_mtx.mutex.locked ≡ false
      → ((write c t m ws).write_mtx.holders ≡ t ∷ ws.write_mtx.holders)
        × ((write c t m ws).writing ≡ ws.writing ++ (record { coroutine = t; message = m }) ∷ [])
        × ((write c t m ws).frames ≡ ws.frames ++ m ∷ [])
  unfolding write lock_writes write_locked run_lock lock_round
  write_free t m ws down = ground arith

  -- With the lock free, nothing is being written.
  idle : (ws : Websocket c) → Writes ws → ws.write_mtx.holders ≡ [] → ws.writing ≡ []
  idle ws w none_held = elim (List-cases ws.writing) [
    | inl e ↦ e
    | inr (x, xs, e) ↦ absurd (split_ne [] x.coroutine (ids xs) (ap ids (sym e) ∙ (w ∙ none_held)))
  ]

  write-Writes :
      (t : ℕ) (m : Bytes) (ws : Websocket c)
      → IsExclusive ws.write_mtx
      → Writes ws
      → Writes (write c t m ws)
  write-Writes t m ws v w = elim (Bool-cases ws.write_mtx.mutex.locked) [
    | inl up ↦ let (h, k, _) = write_busy t m ws up in ap ids k ∙ (w ∙ sym h)
    | inr down ↦
        let (h, k, _) = write_free t m ws down in
        let none_held = v.free down in rw (h, k, idle ws w none_held, none_held) refl
  ]

  write-Begins :
      (t : ℕ) (m h : Bytes) (ws : Websocket c)
      → Begins h ws.frames
      → Begins h (write c t m ws).frames
  write-Begins t m h ws (rest, b) = elim (Bool-cases ws.write_mtx.mutex.locked) [
    | inl up ↦ let (_, _, f) = write_busy t m ws up in (rest, f ∙ b)
    | inr down ↦
        let (_, _, f) = write_free t m ws down in (rest ++ m ∷ [], f ∙ ap (λ x. x ++ m ∷ []) b)
  ]

  pub write-Holds :
      (p : Phase) (t : ℕ) (m : Bytes) (ws : Websocket c)
      → p ≢ connecting
      → IsExclusive ws.write_mtx
      → Holds p ws
      → Holds p (write c t m ws)
  write-Holds connecting t m ws ne v h = absurd (ne refl)
  write-Holds locked t m ws ne v (held, w, f) =
      let (h, k, g) = write_busy t m ws (v.up (ap length held)) in (h ∙ held, k ∙ w, g ∙ f)
  write-Holds (greeting hello) t m ws ne v (held, w, f) =
      let (h, k, g) = write_busy t m ws (v.up (ap length held)) in (h ∙ held, k ∙ w, g ∙ f)
  write-Holds (chatting hello) t m ws ne v (w, b) =
      (write-Writes t m ws v w, write-Begins t m hello ws b)
  write-Holds (closed hello) t m ws ne v (w, b) =
      (write-Writes t m ws v w, write-Begins t m hello ws b)
  write-Holds refused t m ws ne v w = write-Writes t m ws v w

  -- Behind an unlock nobody holds the lock.
  pub Unlocks-holders :
      {t : ℕ} {s s' : System c} → IsExclusive s → Unlocks c t s s' → s'.holders ≡ []
  Unlocks-holders {t} {s} {s'} v u =
      ap (λ x. x.holders) u.after ∙ no_others s.holders u.before t u.behind u.holds v.few
