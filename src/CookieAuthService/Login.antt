-- ===== src/CookieAuthService/Login.antt =====
-- A session cookie logs its user in, and nothing else does.
use servertech_chat.Prelude.{
  ℕ, true, Bytes, codes, [], Option, none, some, ◌≡◌, refl, ◌∙◌, ap, subst,
}
use servertech_chat.Prelude.Decimal.{ℤ, print_int, fits_int64}
use servertech_chat.Error.{ErrorWithMessage, Result, ok, err, throws, undefined}
use servertech_chat.Cookie.{CookiePair, build_header, is_valid_cookie_value}
use servertech_chat.Cookie.Build.{name_value_pair}
use servertech_chat.MysqlClient.{MysqlClient}
use servertech_chat.SessionStore.{generate_session_id, get_redis_key, get_user_by_session}
use servertech_chat.SessionStore.Backend.{Random}
use servertech_chat.SessionStore.Laws.{SessionLaws}
use servertech_chat.SessionStore.Unique
use servertech_chat.SessionStore.Sessions.{
  generate_session_id-Created, get_user_by_session-generate_session_id, get_user_by_session_absent,
}
use servertech_chat.CookieAuthService.{
  session_duration, session_cookie, session_cookie_in, generate_session_cookie, user_id_from_cookie,
  user_from_cookie, unauthorized, with_cookie,
}
use servertech_chat.CookieAuthService.Checked.{
  base64_encode-is_valid_cookie_value, session_builder, session_cookie_ok,
  session_cookie_in-session_builder,
}

module _ (r : Random) (laws : SessionLaws r) where
  open r use {World}
  open laws use {lookup}

  Created-is_valid :
      (w w' : World) (val id : Bytes)
      → Unique.Created r laws w w' val id
      → is_valid_cookie_value id ≡ true
  Created-is_valid w w' val id c =
      ap is_valid_cookie_value c.encoded ∙ base64_encode-is_valid_cookie_value c.raw c.size c.bytes

  -- Over a server and a generator that keep SessionLaws, every identifier that generate_session_id
  -- returns makes a cookie: building it never throws, and a user agent sends back a Cookie header
  -- that holds the identifier.
  pub generate_session_cookie_lem :
      (fuel : ℕ) (user_id : ℤ) (w w' : World) (id : Bytes)
      → generate_session_id r fuel user_id session_duration w ≡ some (ok id, w')
      → (generate_session_cookie r fuel user_id w
          ≡ some (ok (build_header (session_builder id)), w'))
        × (session_cookie_in (name_value_pair (build_header (session_builder id)))
            ≡ some (record { name = codes "sid"; value = id }))
  unfolding generate_session_cookie
  generate_session_cookie_lem fuel user_id w w' id e =
      let valid =
        Created-is_valid w w' (print_int user_id) id
          (generate_session_id-Created r laws fuel user_id session_duration w w' id e) in
      (rw e (rw (session_cookie_ok id valid) refl), session_cookie_in-session_builder id valid)

  -- A look-up with the header that a user agent sends back.
  abbrev Accepted : World → ℤ → Bytes → Type 0
  Accepted w' user_id header =
      (user_id_from_cookie r (some (name_value_pair header)) w').0 ≡ ok user_id

  logged_in :
      (user_id : ℤ) (w : World) (id : Bytes)
      → is_valid_cookie_value id ≡ true
      → (get_user_by_session r id w).0 ≡ ok user_id
      → Accepted w user_id (build_header (session_builder id))
  unfolding user_id_from_cookie
  logged_in user_id w id valid e = rw (session_cookie_in-session_builder id valid, e) refl

  with_cookie-eq :
      (id header : Bytes) (w1 w' : World)
      → is_valid_cookie_value id ≡ true
      → with_cookie r (some (ok id, w1)) ≡ some (ok header, w')
      → (build_header (session_builder id) ≡ header) × (w1 ≡ w')
  with_cookie-eq id header w1 w' valid h =
      let made : session_cookie id ≡ ok header = cc h in
      let world : w1 ≡ w' = cc h in (cc (made, session_cookie_ok id valid), world)

  accepted :
      (fuel : ℕ) (user_id : ℤ) (w w' : World) (header : Bytes)
      → (out : Option (Result ErrorWithMessage Bytes × World)) → fits_int64 user_id ≡ true
      → generate_session_id r fuel user_id session_duration w ≡ out
      → with_cookie r out ≡ some (ok header, w')
      → Accepted w' user_id header
  accepted fuel user_id w w' header none f e h = cc h
  accepted fuel user_id w w' header (some (err x, w1)) f e h = cc h
  accepted fuel user_id w w' header (some (throws x, w1)) f e h = cc h
  accepted fuel user_id w w' header (some (undefined, w1)) f e h = cc h
  accepted fuel user_id w w' header (some (ok id, w1)) f e h =
      let valid =
        Created-is_valid w w1 (print_int user_id) id
          (generate_session_id-Created r laws fuel user_id session_duration w w1 id e) in
      let (same, world) = with_cookie-eq id header w1 w' valid h in
      let found =
        get_user_by_session-generate_session_id r laws fuel user_id session_duration w w1 id f e in
      subst (λ x. Accepted w' user_id x) same
        (subst (λ x. Accepted x user_id (build_header (session_builder id))) world
          (logged_in user_id w1 id valid found))

  -- Over a Redis server and a random generator that keep SessionLaws, logging in works: when
  -- generate_session_cookie has returned a Set-Cookie header for a 64-bit user number, the Cookie
  -- header that a user agent makes of it gives that number in user_id_from_cookie.
  pub user_id_from_cookie-generate_session_cookie :
      (fuel : ℕ) (user_id : ℤ) (w w' : World) (header : Bytes)
      → fits_int64 user_id ≡ true
      → generate_session_cookie r fuel user_id w ≡ some (ok header, w')
      → (user_id_from_cookie r (some (name_value_pair header)) w').0 ≡ ok user_id
  unfolding generate_session_cookie
  user_id_from_cookie-generate_session_cookie fuel user_id w w' header f e =
      accepted fuel user_id w w' header (generate_session_id r fuel user_id session_duration w) f
        refl e

  -- Over a server that keeps SessionLaws, a request of which the session cookie is missing, or
  -- names no session of Redis, is refused as unauthenticated.
  pub user_from_cookie-unauthorized :
      (mysql : MysqlClient World) (header : Option Bytes) (w : World)
      → ((h : Bytes) (p : CookiePair)
          → header ≡ some h
          → session_cookie_in h ≡ some p
          → lookup w (get_redis_key p.value) ≡ none)
      → (user_from_cookie r mysql header w).0 ≡ err (unauthorized [])
  unfolding user_from_cookie user_id_from_cookie
  user_from_cookie-unauthorized mysql none w absent = refl
  user_from_cookie-unauthorized mysql (some h) w absent = held (session_cookie_in h) refl
    where
      held :
          (o : Option CookiePair)
          → session_cookie_in h ≡ o
          → (user_from_cookie r mysql (some h) w).0 ≡ err (unauthorized [])
      held none e = rw e refl
      held (some p) e = rw (e, get_user_by_session_absent r laws p.value w (absent h p refl e)) refl
