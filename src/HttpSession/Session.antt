-- ===== src/HttpSession/Session.antt =====
-- server/src/http_session.cpp: run_http_session. The loop has no bound; its fuel is the number of
-- requests, and `none` says that it has run out, here or in a handler.
use servertech_chat.Prelude.{
  ℕ, zero, suc, ◌+◌, Bool, Bytes, List, [], ◌∷◌, ◌++◌, Option, none, some, if◌then◌else◌, ◌≡◌,
}
use servertech_chat.Error.{ErrorCode, ErrorWithMessage, Result, ok, err, throws, undefined}
use servertech_chat.RequestContext.{Response, RequestContext, FileSystem}
use servertech_chat.StaticFiles.{Verb, Target}
use servertech_chat.Auth.Services.{AuthServices}
use servertech_chat.Auth.{Handled}
use servertech_chat.HttpSession.{handle_http_request}

-- What Boost.Beast and Boost.URL parse of a request.
pub record Request : Type 0 where
  pub context : RequestContext
  pub method : Verb
  pub target : Result ErrorCode Target
  -- websocket::is_upgrade
  pub is_upgrade : Bool

-- How http::async_read ends.
pub data Read : Type 0 where
  request : Request → Read
  end_of_stream : Read
  fails : ErrorCode → Read

-- How run_http_session ends.
pub data End : Type 0 where
  closed_by_client not_kept_alive : End
  read_failed accept_failed write_failed : ErrorCode → End
  -- What handle_chat_websocket has returned, or thrown, which is only logged.
  chat_over : Result ErrorWithMessage (Unit {0}) → End
  -- A handler has not made a response.
  no_response : End

abbrev pub regular : Read → ℕ
regular (request r) = if r.is_upgrade then 0 else 1
regular end_of_stream = 0
regular (fails e) = 0

-- A stream of Boost.Beast, and handle_chat_websocket on it.
pub record HttpStream (World : Type 0) : Type 1 where
  pub Stream : Type 0
  pub async_read : Stream → Read × Stream
  pub async_write : Response → Stream → Option ErrorCode × Stream
  pub shutdown_send : Stream → Stream
  pub accept : Stream → Option ErrorCode × Stream
  pub handle_chat_websocket :
      Request → Stream → World → Option (Result ErrorWithMessage (Unit {0}) × Stream × World)
  -- The responses that it was given so far, and the number of requests that it gave, but for those
  -- that ask for a websocket.
  pub written : Stream → List Response
  pub requests : Stream → ℕ
  pub written-async_read : (s : Stream) → written (async_read s).1 ≡ written s
  pub requests-async_read :
      (s : Stream) → requests (async_read s).1 ≡ requests s + regular (async_read s).0
  pub written-async_write :
      (r : Response) (s : Stream) → written (async_write r s).1 ≡ written s ++ r ∷ []
  pub requests-async_write : (r : Response) (s : Stream) → requests (async_write r s).1 ≡ requests s
  pub written-shutdown_send : (s : Stream) → written (shutdown_send s) ≡ written s
  pub requests-shutdown_send : (s : Stream) → requests (shutdown_send s) ≡ requests s
  pub written-accept : (s : Stream) → written (accept s).1 ≡ written s
  pub requests-accept : (s : Stream) → requests (accept s).1 ≡ requests s
  pub written-handle_chat_websocket :
      (req : Request) (s s' : Stream) (w w' : World) (r : Result ErrorWithMessage (Unit {0}))
      → handle_chat_websocket req s w ≡ some (r, s', w')
      → (written s' ≡ written s) × (requests s' ≡ requests s)

module _ (services : AuthServices) (files : FileSystem) (doc_root : Bytes)
    (http : HttpStream services.World) where
  open services use {World}
  open http use {Stream, async_read, async_write, shutdown_send, accept, handle_chat_websocket}

  abbrev pub Ended : Type 0
  Ended = Option (End × Stream × World)

  -- From the answer of async_write on,
  unfoldable pub with_written :
      (Stream → World → Ended) → Response → Option ErrorCode × Stream → World → Ended
  with_written again msg (some ec, s) w = some (write_failed ec, s, w)
  with_written again msg (none, s) w =
      if msg.keep_alive then again s w else some (not_kept_alive, shutdown_send s, w)

  -- from the response on,
  unfoldable pub with_response : (Stream → World → Ended) → Stream → Handled World → Ended
  unfolding with_written
  with_response again s none = none
  with_response again s (some (ok msg, w)) = with_written again msg (async_write msg s) w
  with_response again s (some (err e, w)) = some (no_response, s, w)
  with_response again s (some (throws what, w)) = some (no_response, s, w)
  with_response again s (some (undefined, w)) = some (no_response, s, w)

  -- with a websocket,
  abbrev pub with_chat : Option (Result ErrorWithMessage (Unit {0}) × Stream × World) → Ended
  with_chat none = none
  with_chat (some (r, s, w)) = some (chat_over r, s, w)

  unfoldable pub with_accepted : Request → Option ErrorCode × Stream → World → Ended
  with_accepted req (some ec, s) w = some (accept_failed ec, s, w)
  with_accepted req (none, s) w = with_chat (handle_chat_websocket req s w)

  -- and from the request on.
  unfoldable pub with_read : (Stream → World → Ended) → ℕ → Read × Stream → World → Ended
  unfolding with_response with_accepted handle_http_request
  with_read again ids (end_of_stream, s) w = some (closed_by_client, shutdown_send s, w)
  with_read again ids (fails ec, s) w = some (read_failed ec, s, w)
  with_read again ids (request req, s) w =
      if req.is_upgrade
      then with_accepted req (accept s) w
      else with_response again s
          (handle_http_request services files doc_root ids req.context req.method req.target w)

  unfoldable pub run_http_session : ℕ → ℕ → Stream → World → Ended
  unfolding with_read
  run_http_session zero ids s w = none
  run_http_session (suc fuel) ids s w = with_read (run_http_session fuel ids) ids (async_read s) w
