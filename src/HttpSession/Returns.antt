-- ===== src/HttpSession/Returns.antt =====
-- A session with a client that sends finitely many requests comes to its end.
use servertech_chat.Prelude.{
  ℕ, zero, suc, ◌<◌, ◌≤◌, Bool, true, false, Option, none, some, if◌then◌else◌, ◌≡◌, refl, ap, sym,
  subst, Bytes, arith,
}
use servertech_chat.Error.{ErrorCode, ErrorWithMessage, Result, ok, err, throws, undefined}
use servertech_chat.RequestContext.{Response, RequestContext, FileSystem}
use servertech_chat.StaticFiles.{Verb, Target}
use servertech_chat.Auth.Services.{AuthServices}
use servertech_chat.HttpSession.{handle_http_request}
use servertech_chat.HttpSession.Session.{
  Request, Read, request, end_of_stream, fails, End, HttpStream, with_written, with_response,
  with_chat, with_accepted, with_read, run_http_session,
}
use servertech_chat.HttpSession.Answers.{Exchanged, run_http_session-Exchanged}

module _ (services : AuthServices) (files : FileSystem) (doc_root : Bytes)
    (http : HttpStream services.World) where
  open services use {World}
  open http use {Stream, async_read, async_write, shutdown_send, accept, handle_chat_websocket}

  -- `left` requests are still to come, and a handler or a chat that is begun comes to its end.
  pub record IsFinite (ids : ℕ) : Type 0 where
    pub left : Stream → ℕ
    pub left-async_read :
        (req : Request) (s : Stream)
        → (async_read s).0 ≡ request req
        → left (async_read s).1 < left s
    pub left-async_write : (msg : Response) (s : Stream) → left (async_write msg s).1 ≤ left s
    pub responds :
        (ctx : RequestContext) (method : Verb) (target : Result ErrorCode Target) (w : World)
        → (out : Result ErrorCode Response × World) × (handle_http_request services files doc_root
              ids ctx method target w
            ≡ some out)
    pub chats :
        (req : Request) (s : Stream) (w : World)
        → (out : Result ErrorWithMessage (Unit {0}) × Stream × World) × (handle_chat_websocket req s
              w
            ≡ some out)

  abbrev Ends : Option (End × Stream × World) → Type 0
  Ends o = (out : End × Stream × World) × (o ≡ some out)

  module _ (ids : ℕ) (finite : IsFinite ids) where
    open finite use {left}

    -- Sessions with fewer than `k` requests left end.
    abbrev EndsBelow : ℕ → (Stream → World → Option (End × Stream × World)) → Type 0
    EndsBelow k again = (s : Stream) (w : World) → left s < k → Ends (again s w)

    with_written-Ends :
        (k : ℕ) (again : Stream → World → Option (End × Stream × World))
        → EndsBelow k again
        → (msg : Response) (o : Option ErrorCode) (s : Stream) (w : World) → left s < k
        → Ends (with_written services files doc_root http again msg (o, s) w)
    unfolding with_written
    with_written-Ends k again below msg (some ec) s w h = (_, refl)
    with_written-Ends k again below msg none s w h = kept msg.keep_alive
      where
        kept :
            (b : Bool)
            → Ends (if b then again s w else some (End.not_kept_alive, shutdown_send s, w))
        kept true = below s w h
        kept false = (_, refl)

    with_response-Ends :
        (k : ℕ) (again : Stream → World → Option (End × Stream × World))
        → EndsBelow k again
        → (r : Result ErrorCode Response) (s : Stream) (w : World) → left s < k
        → Ends (with_response services files doc_root http again s (some (r, w)))
    unfolding with_response
    with_response-Ends k again below (ok msg) s w h =
        with_written-Ends k again below msg (async_write msg s).0 (async_write msg s).1 w
          (omega (arith, finite.left-async_write msg s, h))
    with_response-Ends k again below (err e) s w h = (_, refl)
    with_response-Ends k again below (throws what) s w h = (_, refl)
    with_response-Ends k again below undefined s w h = (_, refl)

    with_accepted-Ends :
        (req : Request) (o : Option ErrorCode) (s : Stream) (w : World)
        → Ends (with_accepted services files doc_root http req (o, s) w)
    unfolding with_accepted
    with_accepted-Ends req (some ec) s w = (_, refl)
    with_accepted-Ends req none s w =
        let ((r, s', w'), ran) = finite.chats req s w in
        ((End.chat_over r, s', w'), ap (with_chat services files doc_root http) ran)

    with_read-Ends :
        (k : ℕ) (again : Stream → World → Option (End × Stream × World))
        → EndsBelow k again
        → (r : Read) (s : Stream) (w : World) → ((req : Request) → r ≡ request req → left s < k)
        → Ends (with_read services files doc_root http again ids (r, s) w)
    unfolding with_read
    with_read-Ends k again below end_of_stream s w h = (_, refl)
    with_read-Ends k again below (fails ec) s w h = (_, refl)
    with_read-Ends k again below (request req) s w h = upgraded req.is_upgrade
      where
        upgraded :
            (b : Bool)
            → Ends (
                if b
                then with_accepted services files doc_root http req (accept s) w
                else with_response services files doc_root http again s (
                    handle_http_request services files doc_root ids req.context req.method
                      req.target w))
        upgraded true = with_accepted-Ends req (accept s).0 (accept s).1 w
        upgraded false =
            let ((r, w'), responded) = finite.responds req.context req.method req.target w in
            subst (λ out. Ends (with_response services files doc_root http again s out))
              (sym responded) (with_response-Ends k again below r s w' (h req refl))

    run_http_session-Ends :
        (fuel : ℕ) → EndsBelow fuel (run_http_session services files doc_root http fuel ids)
    unfolding run_http_session
    run_http_session-Ends zero s w h = absurd (omega (arith, h))
    run_http_session-Ends (suc fuel) s w h =
        with_read-Ends fuel (run_http_session services files doc_root http fuel ids)
          (run_http_session-Ends fuel) (async_read s).0 (async_read s).1 w
          (λ req e. omega (arith, finite.left-async_read req s e, h))

  -- A session whose client sends finitely many requests, and whose handlers and chats end, ends
  -- with fuel for one more than they are. Each request, but for one that asks for a websocket, has
  -- then been given to the stream one response, and every response before the last keeps the
  -- connection alive; only where a handler has made none, the last request lacks it. The last
  -- response is one that closes the connection, or that was not written, if that is how the session
  -- ended.
  pub run_http_session_answers :
      (ids : ℕ) (finite : IsFinite ids) (fuel : ℕ) (s : Stream) (w : World)
      → finite.left s < fuel
      → (e : End) × (s' : Stream) × (w' : World) × (run_http_session services files doc_root http
            fuel ids s w
          ≡ some (e, s', w'))
        × Exchanged services files doc_root http s e s'
  run_http_session_answers ids finite fuel s w h =
      let ((e, s', w'), ran) = run_http_session-Ends ids finite fuel s w h in
      (
        e,
        s',
        w',
        ran,
        run_http_session-Exchanged services files doc_root http fuel ids s w e s' w' ran,
      )
