-- ===== src/ChatRoom/Sent.antt =====
-- What a client is owed can be sent to it.
use servertech_chat.Prelude.{
  ℕ, zero, suc, ◌==◌, ==_iff, ==_refl, Bool, Bool-cases, Bytes, List, [], ◌∷◌, ◌++◌, append-nil,
  List-cases, length, if◌then◌else◌, ◌≡◌, ◌≢◌, inl, inr, refl, ap, sym, ◌∙◌, subst, arith,
}
use servertech_chat.AsyncMutex.Waiters.{Channel}
use servertech_chat.PubsubService.{OnMessage}
use servertech_chat.PubsubService.Index.{SubscriptionIndex}
use servertech_chat.ChatWebsocket.Session
use servertech_chat.ChatWebsocket.Session.{
  locked, Session, start, Step, locks, hello_fails, greets, greeted, replies, ends, delivers,
  resumes, written,
}
use servertech_chat.ChatWebsocket.Delivery.{count, about, hands, handed}
use servertech_chat.ChatWebsocket.Drained.{GoesTo, goes, handed-GoesTo}
use servertech_chat.ChatRoom.{
  update, Server, begin, Own, Move, acts, publishes, runs, Reach, here, next, owes, owed,
}
use servertech_chat.ChatRoom.Conserved.{bound_for, owed_lem}
use servertech_chat.ChatRoom.Subscribed.{call_begun, call_phase}

nothing_left {ℓ} : {A : Type ℓ} (xs ys : List A) → xs ++ ys ≡ [] → (xs ≡ []) × (ys ≡ [])
nothing_left [] ys e = (refl, e)
nothing_left (x ∷ xs) ys e = absurd (cc e)

module _ (c : Channel) (index : SubscriptionIndex) where
  -- Each session of a run of the server has a run of its own.
  Step-update :
      (p q : ℕ) (f : ℕ → Session c) (u : Session c)
      → Step c (f q) u
      → Session.Reach c (start c) (f p)
      → Session.Reach c (start c) (update q u f p)
  Step-update p q f u st r = elim (Bool-cases (q == p)) [
    | inl same ↦
        rw same (Session.Reach.next r (subst (λ x. Step c (f x) u) ((==_iff q p).0 same) st))
    | inr other ↦ rw other r
  ]

  session_Reach :
      {s : Server c index}
      → Reach c index (begin c index) s
      → (p : ℕ) → Session.Reach c (start c) (s.session p)
  session_Reach here p = Session.Reach.here
  session_Reach (next {t} r (acts q u st own)) p =
      Step-update p q t.session u st (session_Reach r p)
  session_Reach (next r (publishes q h topic_id message e)) p = session_Reach r p
  session_Reach (next {t} r (runs k xs ys call e ne begun)) p =
      Step-update p call.subscriber t.session _ (delivers k call.message ne begun)
        (session_Reach r p)

  -- A run that has led to `s` goes on to `u`, and nobody is owed anything for it.
  record Goes {s : Server c index} (r : Reach c index (begin c index) s) (u : Server c index)
      : Type 0 where
    all : Reach c index (begin c index) u
    rest : Reach c index s u
    quiet : (p : ℕ) → owed c index rest p ≡ []
    same : (p : ℕ) → owed c index all p ≡ owed c index r p

  extend :
      {s t u : Server c index} {r : Reach c index (begin c index) s}
      → Goes r t
      → (m : Move c index t u) → ((p : ℕ) → owes c index m p ≡ [])
      → Goes r u
  extend g m none = record {
    all = next g.all m;
    rest = next g.rest m;
    quiet = λ p. ap (λ x. x ++ owes c index m p) (g.quiet p) ∙ none p;
    same = λ p.
        ap (λ x. owed c index g.all p ++ x) (none p) ∙ append-nil (owed c index g.all p) ∙ g.same p;
  }

  -- All the calls that publish has started run.
  calls_run :
      (n : ℕ) {s : Server c index} {r : Reach c index (begin c index) s} (t : Server c index)
      → Goes r t
      → length t.spawned ≡ n
      → (u : Server c index) × Goes r u
        × (u.spawned ≡ [])
        × ((p : ℕ) → (u.session p).phase ≡ (t.session p).phase)
  calls_run zero t g k = elim (List-cases t.spawned) [
    | inl e ↦ (t, g, e, λ p. refl)
    | inr (call, calls, e) ↦ absurd (omega (arith, k, ap length e))
  ]
  calls_run (suc n) t g k = elim (List-cases t.spawned) [
    | inl e ↦ absurd (omega (arith, k, ap length e))
    | inr (call, calls, e) ↦
        let (u, g', done, phases) =
          calls_run n _
            (extend g
              (runs 1 [] calls call e (omega arith) (call_begun c index g.all [] calls call e))
              (λ p. refl))
            (omega (arith, k, ap length e)) in
        (u, g', done, λ p. phases p ∙ call_phase c index p call.subscriber t.session _)
  ]

  -- A step of a session that is handed nothing is its own.
  hands-Own : {s u : Session c} (st : Step c s u) → hands c st ≡ [] → Own c index st
  hands-Own (locks e) none = tt
  hands-Own (hello_fails m e k) none = tt
  hands-Own (greets h e) none = tt
  hands-Own (greeted h ps qs w m q e n k l) none = tt
  hands-Own (replies h m e) none = tt
  hands-Own (ends h e) none = tt
  hands-Own (delivers t m ne e) none = cc none
  hands-Own (resumes w xs ys ps qs e k) none = tt
  hands-Own (written w ps qs m n e k) none = tt

  module _ {s : Server c index} (r : Reach c index (begin c index) s) (p : ℕ) where
    -- The run goes on until the session of `p` is the given one, and starts no calls.
    abbrev Brings : List OnMessage → Session c → Type 0
    Brings calls v = (u : Server c index) × Goes r u × (u.session p ≡ v) × (u.spawned ≡ calls)

    act :
        (t : Server c index)
        → Goes r t
        → (v : Session c) (st : Step c (t.session p) v) → hands c st ≡ []
        → Brings t.spawned v
    act t g v st none =
        let m : Move c index t _ = acts p v st (hands-Own st none) in
        (_, extend g m quiet, rw (==_refl p) refl, refl)
      where
        quiet : (q : ℕ) → (if p == q then hands c st else []) ≡ []
        quiet q = elim (Bool-cases (p == q)) [ inl same ↦ rw same none | inr other ↦ rw other refl ]

    act_from :
        (t : Server c index)
        → Goes r t
        → {x : Session c} → t.session p ≡ x
        → (v : Session c) (st : Step c x v) → hands c st ≡ []
        → Brings t.spawned v
    act_from t g e =
        subst (λ x. (v : Session c) (st : Step c x v) → hands c st ≡ [] → Brings t.spawned v) e
          (act t g)

    act_all :
        (t : Server c index)
        → Goes r t
        → {v : Session c} (rest : Session.Reach c (t.session p) v) → handed c rest ≡ []
        → Brings t.spawned v
    act_all t g Session.Reach.here none = (t, g, refl, refl)
    act_all t g (Session.Reach.next {t = x} rest st) none =
        let (before, last) = nothing_left (handed c rest) (hands c st) none in
        let (u, g', is, calls) = act_all t g rest before in
        let (u', g'', is', calls') = act_from u g' is _ st last in (u', g'', is', calls' ∙ calls)

    abbrev Sent : Type 0
    Sent =
        (u : Server c index) × (rest : Reach c index s u) × ((q : ℕ) → owed c index rest q ≡ [])
        × ((f : Bytes → Bool) → count f (owed c index r p) ≡ count f (u.session p).ws.frames)

    all_frames :
        (u : Server c index)
        → Goes r u
        → u.spawned ≡ []
        → (u.session p).ws.pending ≡ []
        → (f : Bytes → Bool) → count f (owed c index r p) ≡ count f (u.session p).ws.frames
    all_frames u g no_calls none_wait f = omega (
      arith,
      ap (count f) (g.same p),
      owed_lem c index g.all p f,
      ap (count (about f)) none_wait,
      ap (count (bound_for p f)) no_calls,
    )

    last_sent :
        (t : Server c index)
        → Goes r t
        → t.spawned ≡ []
        → {v : Session c} → GoesTo c (t.session p) v
        → v.ws.pending ≡ []
        → Sent
    last_sent t g no_calls (goes steps none) none_wait =
        let (u, g', is, calls) = act_all t g steps none in
        (
          u,
          g'.rest,
          g'.quiet,
          all_frames u g' (calls ∙ no_calls) (ap (λ x. x.ws.pending) is ∙ none_wait),
        )

    -- Over any run of the server: for a session that is past the sending of the hello, the run can
    -- go on, without anything else being owed to anybody, until every message that its client is
    -- owed, which are those that the session writes itself and each message that is published, once
    -- for each of the session's subscriptions to its topic at that time, is sent to it, each as
    -- often as it is owed.
    pub owed_frames :
        (s.session p).phase ≢ locked
        → (u : Server c index) × (rest : Reach c index s u) × ((q : ℕ) → owed c index rest q ≡ [])
          × ((f : Bytes → Bool) → count f (owed c index r p) ≡ count f (u.session p).ws.frames)
    owed_frames late =
        let start_here : Goes r s = record {
          all = r;
          rest = here;
          quiet = λ q. refl;
          same = λ q. refl;
        } in
        let (t, g, no_calls, phases) = calls_run (length s.spawned) s start_here refl in
        let (v, to_v, none_wait, sent) =
          handed-GoesTo c (session_Reach g.all p) (λ e. late (sym (phases p) ∙ e)) in
        last_sent t g no_calls to_v none_wait
