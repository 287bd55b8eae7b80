-- ===== src/ChatWebsocket/Ends.antt =====
-- How a session can end without an error.
use servertech_chat.Prelude.{ℕ, zero, suc, Option, none, some, ◌≡◌, ◌≢◌, refl}
use servertech_chat.Error.{ErrorCode, ErrorWithMessage, Result, ok, err, throws, undefined}
use servertech_chat.BusinessTypes.{User}
use servertech_chat.CookieAuthService.{user_from_cookie}
use servertech_chat.ChatWebsocket.Messages.{HelloData, room_ids}
use servertech_chat.ChatWebsocket.Handlers.{
  ChatServices, Ended, get_hello_data, hello_payload, again, loop, over, with_greeted, with_hello,
  with_current_user, handle_next, run,
}

module _ (services : ChatServices) where
  open services use {
    World, random, mysql, upgrade_request_cookie, close, write_locked, subscribe_guarded,
    lock_writes, unlock_writes,
  }

  -- It does not end, or not with success.
  abbrev NeverOk : Ended services → Type 0
  NeverOk o = (w' : World) → o ≢ some (ok tt, w')

  again-NeverOk :
      (rest : World → Ended services)
      → ((w : World) → NeverOk (rest w))
      → (r : Result ErrorWithMessage (Unit {0})) (w : World) → NeverOk (again services rest (r, w))
  again-NeverOk rest never (ok done) w w' h = never w w' h
  again-NeverOk rest never (err e) w w' h = cc h
  again-NeverOk rest never (throws what) w w' h = cc h
  again-NeverOk rest never undefined w w' h = cc h

  loop-NeverOk : (fuel : ℕ) (user : User) (w : World) → NeverOk (loop services fuel user w)
  unfolding loop
  loop-NeverOk zero user w w' h = cc h
  loop-NeverOk (suc fuel) user w w' h =
      again-NeverOk (loop services fuel user) (loop-NeverOk fuel user)
        (handle_next services user w).0 (handle_next services user w).1 w' h

  over-NeverOk : (o : Ended services) → NeverOk o → NeverOk (over services o)
  over-NeverOk none never w' h = cc h
  over-NeverOk (some (ok done, w)) never w' h = absurd (never w refl)
  over-NeverOk (some (err e, w)) never w' h = cc h
  over-NeverOk (some (throws what, w)) never w' h = cc h
  over-NeverOk (some (undefined, w)) never w' h = cc h

  with_greeted-NeverOk :
      (fuel : ℕ) (user : User) (o : Option ErrorCode) (w : World)
      → NeverOk (with_greeted services fuel user (o, w))
  with_greeted-NeverOk fuel user (some e) w w' h = cc h
  with_greeted-NeverOk fuel user none w w' h =
      over-NeverOk (loop services fuel user (unlock_writes w))
        (loop-NeverOk fuel user (unlock_writes w)) w' h

  with_hello-NeverOk :
      (fuel : ℕ) (user : User) (r : Result ErrorWithMessage HelloData) (w : World)
      → NeverOk (with_hello services fuel user (r, w))
  with_hello-NeverOk fuel user (ok hello_data) w w' h =
      let (o, w1) = write_locked (hello_payload services user hello_data) w in
      with_greeted-NeverOk fuel user o w1 w' h
  with_hello-NeverOk fuel user (err e) w w' h = cc h
  with_hello-NeverOk fuel user (throws what) w w' h = cc h
  with_hello-NeverOk fuel user undefined w w' h = cc h

  -- A chat session returns without an error only where the cookie of its request was refused, and
  -- then all it did was to close the websocket.
  pub run-user_from_cookie :
      (fuel : ℕ) (w w' : World)
      → run services fuel w ≡ some (ok tt, w')
      → (e : ErrorWithMessage) × (w1 : World) × (user_from_cookie random mysql
            upgrade_request_cookie w
          ≡ (err e, w1))
        × (w' ≡ (close w1).1)
  unfolding run
  run-user_from_cookie fuel w w' h =
      refused (user_from_cookie random mysql upgrade_request_cookie w).0
        (user_from_cookie random mysql upgrade_request_cookie w).1 refl h
    where
      refused :
          (r : Result ErrorWithMessage User) (w1 : World)
          → user_from_cookie random mysql upgrade_request_cookie w ≡ (r, w1)
          → with_current_user services fuel (r, w1) ≡ some (ok tt, w')
          → (e : ErrorWithMessage) × (w1 : World) × (user_from_cookie random mysql
                upgrade_request_cookie w
              ≡ (err e, w1))
            × (w' ≡ (close w1).1)
      refused (ok user) w1 is h =
          let (r, w2) = get_hello_data services (subscribe_guarded room_ids (lock_writes w1)) in
          absurd (with_hello-NeverOk fuel user r w2 w' h)
      refused (err e) w1 is h = (e, w1, is, cc h)
      refused (throws what) w1 is h = cc h
      refused undefined w1 is h = cc h
