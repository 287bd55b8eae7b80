-- ===== src/Listener/Sessions.antt =====
-- Which sessions the listener launches.
use servertech_chat.Prelude.{
  ℕ, zero, suc, ◌<◌, ◌≡◌, ◌↔◌, refl, ◌∙◌, ap, arith, Bytes, List, [], ◌∷◌, length, Option, none,
  some,
}
use servertech_chat.Error.{ErrorCode, Result, ok, err, throws, undefined}
use servertech_chat.MysqlClient.Pool.{MysqlPool}
use servertech_chat.MysqlClient.Client.{Attempt, setup_db}
use servertech_chat.Listener.Sockets.{Tcp}
use servertech_chat.Listener.{returned, with_socket, with_db, accept_connections, accept_loop}

module _ {World : Type 0} (pool : MysqlPool World) (tcp : Tcp World) where
  open tcp use {Socket, async_accept, spawn_session}

  -- From the state `w`, the sockets are accepted one after the other, a session is launched for
  -- each before the next is accepted, and the accept behind the last of them fails.
  pub data Accepts : World → List Socket → ErrorCode → World → Type 0 where
    refuses :
        (w : World) (ec : ErrorCode) (w' : World)
        → async_accept w ≡ (err ec, w')
        → Accepts w [] ec w'
    accepts :
        (w : World) (sock : Socket) (socks : List Socket) (ec : ErrorCode) (w1 w' : World)
        → async_accept w ≡ (ok sock, w1)
        → Accepts (spawn_session sock w1) socks ec w'
        → Accepts w (sock ∷ socks) ec w'

  abbrev pub Served : ℕ → World → ErrorCode → World → Type 0
  Served fuel w ec w' = (socks : List Socket) × (length socks < fuel) × Accepts w socks ec w'

  accepted :
      (fuel : ℕ) (w : World) (ec : ErrorCode) (w' : World)
      → accept_connections pool tcp fuel w ≡ some (returned ec, w')
      → Served fuel w ec w'
  unfolding accept_connections
  accepted zero w ec w' h = cc h
  accepted (suc fuel) w ec w' h =
      answer (async_accept w).0 (async_accept w).1 refl (λ w1. accepted fuel w1 ec w') h
    where
      answer :
          (r : Result ErrorCode Socket) (w1 : World)
          → async_accept w ≡ (r, w1)
          → ((w2 : World)
              → accept_connections pool tcp fuel w2 ≡ some (returned ec, w')
              → Served fuel w2 ec w')
          → with_socket pool tcp (accept_connections pool tcp fuel) (r, w1) ≡ some (returned ec, w')
          → Served (suc fuel) w ec w'
      answer (ok sock) w1 e rest h =
          let (socks, few, run) = rest (spawn_session sock w1) h in
          (sock ∷ socks, omega (arith, few), accepts w sock socks ec w1 w' e run)
      answer (err x) w1 e rest h =
          let same : x ≡ ec = cc h in
          let world : w1 ≡ w' = cc h in
          (
            [],
            omega arith,
            refuses w ec w' (e ∙ ap (λ k. (err k, w1)) same ∙ ap (λ k. (err ec, k)) world),
          )
      answer (throws what) w1 e rest h = cc h
      answer undefined w1 e rest h = cc h

  served :
      (fuel : ℕ) (socks : List Socket) (w : World) (ec : ErrorCode) (w' : World)
      → length socks < fuel
      → Accepts w socks ec w'
      → accept_connections pool tcp fuel w ≡ some (returned ec, w')
  unfolding accept_connections
  served zero socks w ec w' few run = absurd (omega (arith, few))
  served (suc fuel) _ w ec w' few (refuses _ _ _ e) = rw e refl
  served (suc fuel) _ w ec w' few (accepts _ sock socks _ w1 _ e run) =
      rw e (served fuel socks (spawn_session sock w1) ec w' (omega (arith, few)) run)

  -- The accept loop returns with an error code exactly if the database has been set up, and then
  -- connections were accepted one after the other, with a session launched for each before the next
  -- accept, up to the first accept that fails, of which this is the error. As many rounds as there
  -- are connections, and one more, are enough.
  pub accept_loop_iff :
      (env : Option Bytes) (attempts fuel : ℕ) (w : World) (ec : ErrorCode) (w' : World)
      → (accept_loop pool tcp env attempts fuel w ≡ some (returned ec, w'))
        ↔ ((w1 : World) × (setup_db pool env attempts w ≡ some (ok tt, w1)) × Served fuel w1 ec w')
  unfolding accept_loop
  accept_loop_iff env attempts fuel w ec w' = (
    set_up (setup_db pool env attempts w) refl,
    λ (w1, e, (socks, few, run)). rw e (served fuel socks w1 ec w' few run),
  )
    where
      set_up :
          (o : Attempt World)
          → setup_db pool env attempts w ≡ o
          → with_db pool tcp fuel o ≡ some (returned ec, w')
          → (w1 : World) × (setup_db pool env attempts w ≡ some (ok tt, w1)) × Served fuel w1 ec w'
      set_up none e h = cc h
      set_up (some (ok done, w1)) e h = (w1, e, accepted fuel w1 ec w' h)
      set_up (some (err x, w1)) e h = cc h
      set_up (some (throws what, w1)) e h = cc h
      set_up (some (undefined, w1)) e h = cc h
