-- ===== src/ChatWebsocket/Delivery.antt =====
-- The messages that are handed to the websocket of a session.
use servertech_chat.Prelude.{
  ℕ, suc, ◌+◌, Bool, Bytes, List, [], ◌∷◌, ◌++◌, ◌≡◌, ap, ◌∙◌, inl, inr, arith, Bool-cases,
  if◌then◌else◌,
}
use servertech_chat.AsyncMutex.{run_lock, lock_round}
use servertech_chat.AsyncMutex.Waiters.{Channel}
use servertech_chat.Websocket.{Websocket, Write, write, write_locked, lock_writes}
use servertech_chat.ChatWebsocket.Session.{
  Session, start, Step, locks, hello_fails, greets, greeted, replies, ends, delivers, resumes,
  written, Reach, here, next,
}

abbrev pub count {ℓ} : {A : Type ℓ} → (A → Bool) → List A → ℕ
count p [] = 0
count p (x ∷ xs) = let rest = count p xs in if p x then suc rest else rest

pub count-append {ℓ} :
    {A : Type ℓ} (p : A → Bool) (xs ys : List A) → count p (xs ++ ys) ≡ count p xs + count p ys
count-append p [] ys = omega arith
count-append p (x ∷ xs) ys = ground (arith, count-append p xs ys)

-- One more at the end, and one less in the middle.
pub count-snoc {ℓ} :
    {A : Type ℓ} (p : A → Bool) (xs : List A) (x : A)
    → count p (xs ++ x ∷ []) ≡ count p xs + count p (x ∷ [])
count-snoc p xs x = count-append p xs (x ∷ [])

pub count-split {ℓ} :
    {A : Type ℓ} (p : A → Bool) (l xs : List A) (x : A) (ys : List A)
    → l ≡ xs ++ x ∷ ys
    → count p l ≡ count p (xs ++ ys) + count p (x ∷ [])
count-split p l xs x ys e =
    ap (count p) e ∙ ground (arith, count-append p xs (x ∷ ys), count-append p xs ys)

abbrev pub about : (Bytes → Bool) → Write → Bool
about p w = p w.message

module _ (c : Channel) where
  -- The messages that a step hands to write or write_locked.
  abbrev pub hands : {s u : Session c} → Step c s u → List Bytes
  hands (greets serialized_hello p) = serialized_hello ∷ []
  hands (replies h payload p) = payload ∷ []
  hands (delivers t serialized_message ne p) = serialized_message ∷ []
  hands _ = []

  abbrev pub handed : {s u : Session c} → Reach c s u → List Bytes
  handed here = []
  handed (next r st) = handed r ++ hands st

  -- How many of the messages with the property `p` have been sent, or wait.
  abbrev pub balance : (Bytes → Bool) → Websocket c → ℕ
  balance p ws = count p ws.frames + count (about p) ws.pending

  pub write-balance :
      (p : Bytes → Bool) (t : ℕ) (m : Bytes) (ws : Websocket c)
      → balance p (write c t m ws) ≡ balance p ws + count p (m ∷ [])
  unfolding write lock_writes write_locked run_lock lock_round
  write-balance p t m ws = elim (Bool-cases ws.write_mtx.mutex.locked) [
    | inl up ↦
        ground (arith, up, count-snoc (about p) ws.pending (record { coroutine = t; message = m }))
    | inr down ↦ ground (arith, down, count-snoc p ws.frames m)
  ]

  pub Step-balance :
      (p : Bytes → Bool) {s u : Session c} (st : Step c s u)
      → balance p u.ws ≡ balance p s.ws + count p (hands st)
  unfolding lock_writes write_locked
  Step-balance p (locks e) = omega arith
  Step-balance p (hello_fails m e k) = omega arith
  Step-balance p {s} (greets h e) = omega (arith, count-snoc p s.ws.frames h)
  Step-balance p (greeted h ps qs w m q e n k l) = omega arith
  Step-balance p {s} (replies h m e) = write-balance p 0 m s.ws
  Step-balance p (ends h e) = omega arith
  Step-balance p {s} (delivers t m ne e) = write-balance p t m s.ws
  Step-balance p {s} (resumes w xs ys ps qs e k) = omega (
    arith,
    write-balance p w.coroutine w.message (record s.ws {
      write_mtx = record s.ws.write_mtx { resumed = xs ++ ys };
      pending = ps ++ qs;
    }),
    count-split (about p) s.ws.pending ps w qs k,
  )
  Step-balance p (written w ps qs m n e k) = omega arith

  -- Under every interleaving, the messages that have been handed to the websocket are those that
  -- were sent and those that wait for its mutex, each as often as it was handed over: no message is
  -- lost, and none is sent twice.
  pub handed_lem :
      {s : Session c} (r : Reach c (start c) s) (p : Bytes → Bool)
      → count p (handed r) ≡ count p s.ws.frames + count (about p) s.ws.pending
  handed_lem here p = omega arith
  handed_lem (next r st) p =
      omega (arith, count-append p (handed r) (hands st), Step-balance p st, handed_lem r p)
