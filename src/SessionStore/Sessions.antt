-- ===== src/SessionStore/Sessions.antt =====
-- What generate_session_id promises, and that get_user_by_session reads what it wrote.
use servertech_chat.Prelude.{ℕ, true, Bytes, Option, none, some, ◌≡◌, ◌⊎◌, inl, inr, refl, subst}
use servertech_chat.Prelude.Decimal.{ℤ, print_int, fits_int64}
use servertech_chat.Error.{ErrorWithMessage, Result, ok, err, no_message, chat, not_found}
use servertech_chat.RedisClient.{get_int_key}
use servertech_chat.SessionStore.Laws.{SessionLaws}
use servertech_chat.SessionStore.Unique
use servertech_chat.SessionStore.{
  get_redis_key, generate_loop, generate_session_id, get_user_by_session,
}
use servertech_chat.SessionStore.Backend.{Random}

module _ (r : Random) (laws : SessionLaws r) where
  open r use {World}
  open laws use {lookup, get_answer, get_absent}

  -- Over a server and a generator that keep SessionLaws, generate_session_id ends: either every one
  -- of the `fuel` identifiers that it draws exists in Redis already, or it returns, and then: if it
  -- returns an identifier, this did not exist, now has the user's number, and encodes random bytes;
  -- and in every case no session that existed has another value.
  pub generate_session_id_lem :
      (fuel : ℕ) (user_id : ℤ) (ttl : ℕ) (w : World)
      → Unique.Exhausted r laws fuel (print_int user_id) ttl w
        ⊎ ((res : Result ErrorWithMessage Bytes) × (w' : World) × (generate_session_id r fuel
                user_id ttl w
              ≡ some (res, w'))
            × Unique.Returned r laws w w' (print_int user_id) res)
  unfolding generate_session_id Unique.Ends
  generate_session_id_lem fuel user_id ttl w =
      cases (generate_loop r fuel (print_int user_id) ttl w) refl
        (Unique.generate_loop_lem r laws fuel (print_int user_id) ttl w)
    where
      val : Bytes
      val = print_int user_id

      cases :
          (out : Option (Result ErrorWithMessage Bytes × World))
          → generate_loop r fuel val ttl w ≡ out
          → Unique.Ends r laws val w out (Unique.Exhausted r laws fuel val ttl w)
          → Unique.Exhausted r laws fuel val ttl w
            ⊎ ((res : Result ErrorWithMessage Bytes) × (w' : World) × (generate_session_id r fuel
                    user_id ttl w
                  ≡ some (res, w'))
                × Unique.Returned r laws w w' val res)
      cases none e h = inl h
      cases (some (res, w')) e h = inr (res, w', e, h)

  -- A session whose key holds a 64-bit number gives the number.
  pub get_user_by_session_lem :
      (id : Bytes) (n : ℤ) (w : World)
      → fits_int64 n ≡ true
      → lookup w (get_redis_key id) ≡ some (print_int n)
      → (get_user_by_session r id w).0 ≡ ok n
  unfolding get_user_by_session get_int_key
  get_user_by_session_lem id n w f h = rw (get_answer (get_redis_key id) n w f h) refl

  -- A session that does not exist is reported as such.
  pub get_user_by_session_absent :
      (id : Bytes) (w : World)
      → lookup w (get_redis_key id) ≡ none
      → (get_user_by_session r id w).0 ≡ err (no_message (chat not_found))
  unfolding get_user_by_session get_int_key
  get_user_by_session_absent id w h = rw (get_absent (get_redis_key id) w h) refl

  pub generate_session_id-Created :
      (fuel : ℕ) (user_id : ℤ) (ttl : ℕ) (w w' : World) (id : Bytes)
      → generate_session_id r fuel user_id ttl w ≡ some (ok id, w')
      → Unique.Created r laws w w' (print_int user_id) id
  unfolding generate_session_id Unique.Ends
  generate_session_id-Created fuel user_id ttl w w' id e =
      subst
        (λ out.
          Unique.Ends r laws (print_int user_id) w out
            (Unique.Exhausted r laws fuel (print_int user_id) ttl w))
        e (Unique.generate_loop_lem r laws fuel (print_int user_id) ttl w)

  -- Over a server and a generator that keep SessionLaws, the identifier that generate_session_id
  -- has returned for a 64-bit user number gives the number when it is looked up.
  pub get_user_by_session-generate_session_id :
      (fuel : ℕ) (user_id : ℤ) (ttl : ℕ) (w w' : World) (id : Bytes)
      → fits_int64 user_id ≡ true
      → generate_session_id r fuel user_id ttl w ≡ some (ok id, w')
      → (get_user_by_session r id w').0 ≡ ok user_id
  get_user_by_session-generate_session_id fuel user_id ttl w w' id f e =
      let made = generate_session_id-Created fuel user_id ttl w w' id e in
      get_user_by_session_lem id user_id w' f made.stored
