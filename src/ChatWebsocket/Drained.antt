-- ===== src/ChatWebsocket/Drained.antt =====
-- The calls of write that wait for the mutex of a session's websocket all get to send.
use servertech_chat.Prelude.{
  ℕ, zero, suc, Bool, Bytes, List, [], ◌∷◌, ◌++◌, ◌≡◌, ◌≢◌, refl, ap, sym, ◌∙◌, false, inl, inr,
  arith, List-cases, length, length-append, append-nil, append_assoc,
}
use servertech_chat.AsyncMutex.Waiters.{Channel}
use servertech_chat.Websocket.{Write}
use servertech_chat.ChatWebsocket.Session.{locked, Session, start, Step, Reach, here, next}
use servertech_chat.ChatWebsocket.Delivery.{count, about, hands, handed, handed_lem}
use servertech_chat.ChatWebsocket.Progress.{GoesOn, hello_due, completes, sends, waiting-GoesOn}

module _ (c : Channel) where
  -- A session goes on to `u` without being handed another message.
  pub data GoesTo (s u : Session c) : Type 0 where
    goes : (rest : Reach c s u) → handed c rest ≡ [] → GoesTo s u

  first :
      {s t u : Session c} (st : Step c s t)
      → hands c st ≡ []
      → (rest : Reach c t u) → handed c rest ≡ []
      → GoesTo s u
  first st none here e = goes (next here st) none
  first {s} {t} {u} st none (next r st') e = elim (List-cases (handed c r)) [
    | inl k ↦ elim (first st none r k) [
      | goes r' k' ↦ goes (next r' st') (ap (λ x. x ++ hands c st') (k' ∙ sym k) ∙ e)
    ]
    | inr (x, xs, k) ↦ absurd (cc (sym e ∙ ap (λ l. l ++ hands c st') k))
  ]

  then_goes : {s t u : Session c} (st : Step c s t) → hands c st ≡ [] → GoesTo t u → GoesTo s u
  then_goes st none (goes rest e) = first st none rest e

  -- The session goes on to one in which no call waits.
  abbrev Drains : Session c → Type 0
  Drains s = (u : Session c) × GoesTo s u × (u.ws.pending ≡ [])

  shorter :
      (l : List Write) (ps : List Write) (w : Write) (qs : List Write) (n : ℕ)
      → l ≡ ps ++ w ∷ qs
      → length l ≡ suc n
      → length (ps ++ qs) ≡ n
  shorter l ps w qs n e k =
      omega (arith, ap length e, k, length-append ps (w ∷ qs), length-append ps qs)

  some_pending : (n : ℕ) (l : List Write) → length l ≡ suc n → l ≢ []
  some_pending n l k e = omega (arith, ap length e, k)

  -- The sessions past the hello in which `n` calls wait drain.
  abbrev AllDrain : ℕ → Type 0
  AllDrain n =
      (s : Session c) → Reach c (start c) s → s.phase ≢ locked → length s.ws.pending ≡ n → Drains s

  -- One of the calls that wait sends, and the others are left.
  next_sends :
      (n : ℕ)
      → AllDrain n
      → {s u : Session c} (w : Write) (ps qs : List Write) → Reach c (start c) s
      → s.phase ≢ locked
      → length s.ws.pending ≡ suc n
      → s.ws.pending ≡ ps ++ w ∷ qs
      → (st : Step c s u) → hands c st ≡ []
      → u.phase ≡ s.phase
      → u.ws.pending ≡ ps ++ qs
      → Drains s
  next_sends n rec {s} {u} w ps qs r late k e st none same p =
      let (v, g, done) =
        rec u (next r st) (λ x. late (sym same ∙ x))
          (ap length p ∙ shorter s.ws.pending ps w qs n e k) in
      (v, then_goes st none g, done)

  -- While the mutex is free, the next call sends.
  free_sends :
      (n : ℕ)
      → AllDrain n
      → {s : Session c} → Reach c (start c) s
      → s.phase ≢ locked
      → length s.ws.pending ≡ suc n
      → s.ws.write_mtx.mutex.locked ≡ false
      → GoesOn c s
      → Drains s
  free_sends n rec r late k free (hello_due e) = absurd (late e)
  free_sends n rec r late k free (completes up _ _ _ _ _ _) = absurd (cc (up, free))
  free_sends n rec r late k free (sends w ps qs u e st none same f p) =
      next_sends n rec w ps qs r late k e st none same p

  goes_on :
      (n : ℕ)
      → AllDrain n
      → {s : Session c} → Reach c (start c) s
      → s.phase ≢ locked
      → length s.ws.pending ≡ suc n
      → GoesOn c s
      → Drains s
  goes_on n rec r late k (hello_due e) = absurd (late e)
  goes_on n rec r late k (completes up u st none late' free same) =
      let k' : length u.ws.pending ≡ suc n = ap length same ∙ k in
      let (v, g, done) =
        free_sends n rec (next r st) late' k' free
          (waiting-GoesOn c (next r st) (some_pending n u.ws.pending k')) in
      (v, then_goes st none g, done)
  goes_on n rec r late k (sends w ps qs u e st none same f p) =
      next_sends n rec w ps qs r late k e st none same p

  drains : (n : ℕ) → AllDrain n
  drains zero s r late k = elim (List-cases s.ws.pending) [
    | inl e ↦ (s, goes here refl, e)
    | inr (w, ws, e) ↦ absurd (omega (arith, k, ap length e))
  ]
  drains (suc n) s r late k =
      goes_on n (drains n) r late k (waiting-GoesOn c r (some_pending n s.ws.pending k))

  handed-append :
      {s t u : Session c} (r : Reach c s t) (rest : Reach c t u)
      → (all : Reach c s u) × (handed c all ≡ handed c r ++ handed c rest)
  handed-append r here = (r, sym (append-nil (handed c r)))
  handed-append r (next rest st) =
      let (all, e) = handed-append r rest in
      (
        next all st,
        ap (λ x. x ++ hands c st) e ∙ append_assoc (handed c r) (handed c rest) (hands c st),
      )

  all_sent :
      {s u : Session c} (r : Reach c (start c) s) (p : Bytes → Bool)
      → u.ws.pending ≡ []
      → GoesTo s u
      → count p (handed c r) ≡ count p u.ws.frames
  all_sent {s} {u} r p done (goes rest none) =
      let (all, e) = handed-append r rest in
      let same : handed c all ≡ handed c r =
        e ∙ ap (λ x. handed c r ++ x) none ∙ append-nil (handed c r) in
      omega (arith, ap (count p) same, handed_lem c all p, ap (count (about p)) done)

  -- Under every interleaving, a session that is past the sending of the hello can go on, without
  -- being handed another message, to a session in which every message that was handed to its
  -- websocket is sent, each as often as it was handed over, and none waits.
  pub handed-GoesTo :
      {s : Session c} (r : Reach c (start c) s)
      → s.phase ≢ locked
      → (u : Session c) × GoesTo s u
        × (u.ws.pending ≡ [])
        × ((p : Bytes → Bool) → count p (handed c r) ≡ count p u.ws.frames)
  handed-GoesTo {s} r late =
      let (u, g, done) = drains (length s.ws.pending) s r late refl in
      (u, g, done, λ p. all_sent r p done g)
