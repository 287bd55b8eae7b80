-- ===== src/SessionStore/Unique.antt =====
-- Session IDs are never shared, and no session is overwritten.
use servertech_chat.Prelude.{
  ℕ, zero, suc, Bool, true, false, Bytes, length, Option, none, some, str_eq, str_eq_refl,
  str_eq→eq, All, IsByte, ◌≡◌, ◌≢◌, refl, sym, ap, ◌∙◌, arith, if◌then◌else◌,
}
use servertech_chat.Error.{ErrorCode, ErrorWithMessage, Result, ok, err, throws, undefined}
use servertech_chat.Base64.{base64_encode}
use servertech_chat.RedisClient.{set_command, set_nonexisting_key}
use servertech_chat.RedisClient.Connection.{Adapted}
use servertech_chat.SessionStore.Laws.{SessionLaws, SetAnswer, taken, created, rejected, failed}
use servertech_chat.SessionStore.{
  session_id_size, get_redis_key, Round, again, returns, outcome, generate_identifier, round,
  generate_loop,
}
use servertech_chat.SessionStore.Backend.{Random}

module _ (r : Random) (laws : SessionLaws r) where
  open r use {World, redis, rand_bytes, async_exec_string}
  open laws use {lookup, lookup-rand_bytes, length-rand_bytes, rand_bytes-IsByte, set_answer}

  -- No key that existed has another value.
  abbrev pub Kept : World → World → Type 0
  Kept w w' = (k : Bytes) → lookup w k ≢ none → lookup w' k ≡ lookup w k

  -- The session `id` was not there, and now it is, for the user; it is the encoding of bytes.
  pub record Created (w w' : World) (user_id_str id : Bytes) : Type 0 where
    pub fresh : lookup w (get_redis_key id) ≡ none
    pub stored : lookup w' (get_redis_key id) ≡ some user_id_str
    pub kept : Kept w w'
    pub raw : Bytes
    pub size : length raw ≡ session_id_size
    pub bytes : All IsByte raw
    pub encoded : id ≡ base64_encode raw true

  -- What may have happened when generate_session_id returns.
  abbrev pub Returned : World → World → Bytes → Result ErrorWithMessage Bytes → Type 0
  Returned w w' user_id_str (ok id) = Created w w' user_id_str id
  Returned w w' user_id_str (err e) = Kept w w'
  Returned w w' user_id_str (throws what) = Kept w w'
  Returned w w' user_id_str undefined = Kept w w'

  -- The identifier that is drawn in `start` exists in `w`, and nothing changes up to `w'`.
  pub record Collision (start w w' : World) : Type 0 where
    pub raw : Bytes
    pub drawn : (rand_bytes session_id_size start).0 ≡ some raw
    pub exists : lookup w (get_redis_key (base64_encode raw true)) ≢ none
    pub same : (k : Bytes) → lookup w' k ≡ lookup w k

  abbrev Rounds : World → World → World → Bytes → Round → Type 0
  Rounds start w w' user_id_str again = Collision start w w'
  Rounds start w w' user_id_str (returns res) = Returned w w' user_id_str res

  abbrev response : Bytes → Bytes → ℕ → World → Result ErrorCode (Adapted (Option Bytes))
  response key val ttl w = (async_exec_string (set_command key val ttl) w).0

  abbrev behind : Bytes → Bytes → ℕ → World → World
  behind key val ttl w = (async_exec_string (set_command key val ttl) w).1

  set_world :
      (key val : Bytes) (ttl : ℕ) (w : World)
      → (set_nonexisting_key redis key val ttl w).1 ≡ behind key val ttl w
  unfolding set_nonexisting_key
  set_world key val ttl w = ground arith

  -- A key that is set where it was absent.
  made :
      (raw key val : Bytes) (w w' : World)
      → length raw ≡ session_id_size
      → All IsByte raw
      → key ≡ get_redis_key (base64_encode raw true)
      → lookup w key ≡ none
      → ((k : Bytes) → lookup w' k ≡ (if str_eq key k then some val else lookup w k))
      → Created w w' val (base64_encode raw true)
  made raw key val w w' l h same absent now = record {
    fresh = ap (λ x. lookup w x) (sym same) ∙ absent;
    stored = ap (λ x. lookup w' x) (sym same) ∙ (now key ∙ rw (str_eq_refl key) refl);
    kept = (λ k present. now k ∙ other k present (str_eq key k) refl);
    raw = raw;
    size = l;
    bytes = h;
    encoded = refl;
  }
    where
      other :
          (k : Bytes)
          → lookup w k ≢ none
          → (b : Bool) → str_eq key k ≡ b
          → (if b then some val else lookup w k) ≡ lookup w k
      other k present true e =
          absurd (present (ap (λ x. lookup w x) (sym (str_eq→eq key k e)) ∙ absent))
      other k present false e = refl

  set-Rounds :
      (start : World) (raw val : Bytes) (ttl : ℕ) (w : World)
      → (rand_bytes session_id_size start).0 ≡ some raw
      → length raw ≡ session_id_size
      → All IsByte raw
      → let id = base64_encode raw true in
        Rounds start w
          (behind (get_redis_key id) val ttl w)
          val
          (outcome id (set_nonexisting_key redis (get_redis_key id) val ttl w).0)
  unfolding set_nonexisting_key
  set-Rounds start raw val ttl w d l h =
      answer (response key val ttl w) refl (set_answer key val ttl w)
    where
      id : Bytes
      id = base64_encode raw true

      key : Bytes
      key = get_redis_key id

      answer :
          (res : Result ErrorCode (Adapted (Option Bytes)))
          → response key val ttl w ≡ res
          → SetAnswer r lookup key val w (behind key val ttl w) res
          → Rounds start w
              (behind key val ttl w)
              val
              (outcome id (set_nonexisting_key redis key val ttl w).0)
      answer res e (taken exists same) =
          rw e (record { raw = raw; drawn = d; exists = exists; same = same })
      answer res e (created reply absent now) =
          rw e (made raw key val w (behind key val ttl w) l h refl absent now)
      answer res e (rejected d kept) = rw e kept
      answer res e (failed x foreign kept) = rw e (rw foreign kept)

  -- Nothing that is looked up tells `w` from `w1`.
  shift :
      (start w w1 w' : World) (val : Bytes) (rd : Round)
      → ((k : Bytes) → lookup w1 k ≡ lookup w k)
      → Rounds start w1 w' val rd
      → Rounds start w w' val rd
  shift start w w1 w' val again same h = record {
    raw = h.raw;
    drawn = h.drawn;
    exists = (λ e. h.exists (same (get_redis_key (base64_encode h.raw true)) ∙ e));
    same = (λ k. h.same k ∙ same k);
  }
  shift start w w1 w' val (returns (ok id)) same h = record {
    fresh = sym (same (get_redis_key id)) ∙ h.fresh;
    stored = h.stored;
    kept = (λ k present. h.kept k (λ e. present (sym (same k) ∙ e)) ∙ same k);
    raw = h.raw;
    size = h.size;
    bytes = h.bytes;
    encoded = h.encoded;
  }
  shift start w w1 w' val (returns (err e)) same h =
      λ k present. h k (λ e. present (sym (same k) ∙ e)) ∙ same k
  shift start w w1 w' val (returns (throws what)) same h =
      λ k present. h k (λ e. present (sym (same k) ∙ e)) ∙ same k
  shift start w w1 w' val (returns undefined) same h =
      λ k present. h k (λ e. present (sym (same k) ∙ e)) ∙ same k

  round_lem :
      (val : Bytes) (ttl : ℕ) (w : World)
      → Rounds w w (round r val ttl w).1 val (round r val ttl w).0
  unfolding round generate_identifier
  round_lem val ttl w = drawn (rand_bytes session_id_size w).0 refl
    where
      w1 : World
      w1 = (rand_bytes session_id_size w).1

      drawn :
          (sid : Option Bytes)
          → (rand_bytes session_id_size w).0 ≡ sid
          → Rounds w w (round r val ttl w).1 val (round r val ttl w).0
      drawn none e = rw e (λ k present. lookup-rand_bytes session_id_size w k)
      drawn (some raw) e =
          rw (e, set_world (get_redis_key (base64_encode raw true)) val ttl w1)
            (shift w w w1 (behind (get_redis_key (base64_encode raw true)) val ttl w1) val
              (outcome (base64_encode raw true)
                (set_nonexisting_key redis (get_redis_key (base64_encode raw true)) val ttl w1).0)
              (lookup-rand_bytes session_id_size w)
              (set-Rounds w raw val ttl w1 e (length-rand_bytes w raw e)
                (rand_bytes-IsByte w raw e)))

  -- Every one of the identifiers that `fuel` rounds draw exists already.
  abbrev pub Exhausted : ℕ → Bytes → ℕ → World → Type 0
  Exhausted zero val ttl w = Unit
  Exhausted (suc fuel) val ttl w =
      Collision w w (round r val ttl w).1 × Exhausted fuel val ttl (round r val ttl w).1

  Same-Returned :
      (w w1 w' : World) (val : Bytes) (res : Result ErrorWithMessage Bytes)
      → ((k : Bytes) → lookup w1 k ≡ lookup w k)
      → Returned w1 w' val res
      → Returned w w' val res
  Same-Returned w w1 w' val res same h = shift w w w1 w' val (returns res) same h

  -- The loop ends, having done what it should, or its fuel was used up by collisions.
  unfoldable pub Ends :
      Bytes → World → Option (Result ErrorWithMessage Bytes × World) → Type 0 → Type 0
  Ends val w none exhausted = exhausted
  Ends val w (some (res, w')) exhausted = Returned w w' val res

  pub generate_loop_lem :
      (fuel : ℕ) (val : Bytes) (ttl : ℕ) (w : World)
      → Ends val w (generate_loop r fuel val ttl w) (Exhausted fuel val ttl w)
  unfolding generate_loop Ends
  generate_loop_lem zero val ttl w = tt
  generate_loop_lem (suc fuel) val ttl w =
      next (round r val ttl w).0 (round_lem val ttl w)
        (generate_loop_lem fuel val ttl (round r val ttl w).1)
    where
      w1 : World
      w1 = (round r val ttl w).1

      later :
          (out : Option (Result ErrorWithMessage Bytes × World))
          → Collision w w w1
          → Ends val w1 out (Exhausted fuel val ttl w1)
          → Ends val w out (Exhausted (suc fuel) val ttl w)
      later none hit rest = (hit, rest)
      later (some (res, w')) hit rest = Same-Returned w w1 w' val res hit.same rest

      next :
          (rd : Round)
          → Rounds w w w1 val rd
          → Ends val w1 (generate_loop r fuel val ttl w1) (Exhausted fuel val ttl w1)
          → Ends val w
              (elim rd [ again ↦ generate_loop r fuel val ttl w1 | returns res ↦ some (res, w1) ])
              (Exhausted (suc fuel) val ttl w)
      next again hit rest = later (generate_loop r fuel val ttl w1) hit rest
      next (returns res) h rest = h
