-- ===== src/Listener.antt =====
-- server/src/listener.cpp: launch_http_listener and accept_loop. The sockets are Boost.Asio's; a
-- session that is launched runs in its own coroutine, which is HttpSession/Session.
pub mod Sockets
pub mod Sessions
use servertech_chat.Prelude.{ℕ, zero, suc, Bytes, Option, none, some}
use servertech_chat.Error.{ErrorCode, ErrorWithMessage, Result, ok, err, throws, undefined}
use servertech_chat.MysqlClient.Pool.{MysqlPool}
use servertech_chat.MysqlClient.Client.{Attempt, setup_db}
use Sockets.{Tcp}

-- How accept_loop ends: it returns behind a failed accept, or an exception leaves it, which the
-- io_context rethrows.
pub data LoopEnd : Type 0 where
  returned : ErrorCode → LoopEnd
  threw : Bytes → LoopEnd
  -- throw_exception_from_error
  setup_failed : ErrorWithMessage → LoopEnd
  broken : LoopEnd

module _ {World : Type 0} (pool : MysqlPool World) (tcp : Tcp World) where
  open tcp use {
    Protocol, Endpoint, Socket, protocol, open_acceptor, reuse_address, bind, listen, async_accept,
    spawn_session, spawn_accept_loop,
  }

  -- `if (ec) return ec;`
  abbrev pub unless_failed :
      (World → Option ErrorCode × World) → Option ErrorCode × World → Option ErrorCode × World
  unless_failed next (some ec, w) = (some ec, w)
  unless_failed next (none, w) = next w

  unfoldable pub launch_http_listener : Endpoint → World → Option ErrorCode × World
  launch_http_listener listening_endpoint w =
      unless_failed
        (λ w.
          unless_failed
            (λ w.
              unless_failed (λ w. unless_failed (λ w. (none, spawn_accept_loop w)) (listen w))
                (bind listening_endpoint w))
            (reuse_address w))
        (open_acceptor (protocol listening_endpoint) w)

  abbrev pub Ended : Type 0
  Ended = Option (LoopEnd × World)

  -- A round of `while (true)`: a failed accept is logged, and ends the loop. The exception that
  -- cancels the coroutine leaves it.
  abbrev pub with_socket : (World → Ended) → Result ErrorCode Socket × World → Ended
  with_socket again (ok sock, w) = again (spawn_session sock w)
  with_socket again (err ec, w) = some (returned ec, w)
  with_socket again (throws what, w) = some (threw what, w)
  with_socket again (undefined, w) = some (broken, w)

  -- The loop; `none` is the end of the fuel.
  unfoldable pub accept_connections : ℕ → World → Ended
  accept_connections zero w = none
  accept_connections (suc fuel) w =
      let again : World → Ended = accept_connections fuel in with_socket again (async_accept w)

  -- From the answer of setup_db on.
  abbrev pub with_db : ℕ → Attempt World → Ended
  with_db fuel none = none
  with_db fuel (some (ok done, w)) = accept_connections fuel w
  with_db fuel (some (err e, w)) = some (setup_failed e, w)
  with_db fuel (some (throws what, w)) = some (threw what, w)
  with_db fuel (some (undefined, w)) = some (broken, w)

  -- The fuels are the attempts to connect to MySQL, and the connections that are accepted.
  unfoldable pub accept_loop : Option Bytes → ℕ → ℕ → World → Ended
  unfolding accept_connections setup_db
  accept_loop env attempts fuel w = with_db fuel (setup_db pool env attempts w)
