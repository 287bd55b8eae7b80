-- ===== src/HttpSession/Answers.antt =====
-- Every request of a session is answered, and the first answer that closes it ends it.
use servertech_chat.Prelude.{
  ℕ, zero, suc, ◌+◌, Bool, true, false, List, [], ◌∷◌, ◌++◌, append-nil, append_assoc, Option, none,
  some, if◌then◌else◌, ◌≡◌, refl, ap, sym, ◌∙◌, subst, Bytes, arith,
}
use servertech_chat.Error.{ErrorCode, ErrorWithMessage, Result, ok, err, throws, undefined}
use servertech_chat.RequestContext.{Response, FileSystem}
use servertech_chat.Auth.Services.{AuthServices}
use servertech_chat.Auth.{Handled}
use servertech_chat.HttpSession.{handle_http_request}
use servertech_chat.HttpSession.Session.{
  Request, Read, request, end_of_stream, fails, End, closed_by_client, not_kept_alive, read_failed,
  accept_failed, write_failed, chat_over, no_response, regular, HttpStream, with_written,
  with_response, with_chat, with_accepted, with_read, run_http_session,
}
use servertech_chat.HttpSession.Answered.{KeepsAlive, Answered, Answered-cons}

module _ (services : AuthServices) (files : FileSystem) (doc_root : Bytes)
    (http : HttpStream services.World) where
  open services use {World}
  open http use {
    Stream, async_read, async_write, shutdown_send, accept, handle_chat_websocket, written,
    requests,
  }

  -- From one stream to another: so many requests, and these responses.
  abbrev pub Exchanged : Stream → End → Stream → Type 0
  Exchanged s e s' =
      (n : ℕ) × (rs : List Response) × (requests s' ≡ requests s + n)
      × (written s' ≡ written s ++ rs)
      × Answered e n rs

  abbrev pub Good : (Stream → World → Option (End × Stream × World)) → Type 0
  Good again =
      (s : Stream) (w : World) (e : End) (s' : Stream) (w' : World)
      → again s w ≡ some (e, s', w')
      → Exchanged s e s'

  ends :
      (s s1 : Stream) (w1 w' : World) (x e : End) (s' : Stream)
      → Exchanged s x s1
      → ◌≡◌ {A = Option (End × Stream × World)} (some (x, s1, w1)) (some (e, s', w'))
      → Exchanged s e s'
  ends s s1 w1 w' x e s' h done =
      let same_end : x ≡ e = cc done in
      let same_stream : s1 ≡ s' = cc done in
      subst (λ y. Exchanged s y s') same_end (subst (λ t. Exchanged s x t) same_stream h)

  -- Nothing was exchanged, and one request was left.
  silent :
      (s s1 : Stream)
      → requests s1 ≡ requests s
      → written s1 ≡ written s
      → (requests s1 ≡ requests s + 0) × (written s1 ≡ written s ++ [])
  silent s s1 asked said = (omega (arith, asked), said ∙ sym (append-nil (written s)))

  unanswered :
      (s s1 : Stream)
      → requests s1 ≡ requests s + 1
      → written s1 ≡ written s
      → Exchanged s no_response s1
  unanswered s s1 asked said = (1, [], asked, said ∙ sym (append-nil (written s)), (refl, tt))

  -- One answer more in front.
  answers_more :
      (s s1 : Stream) (msg : Response) (e : End) (s' : Stream)
      → requests s1 ≡ requests s + 1
      → written s1 ≡ written s ++ msg ∷ []
      → KeepsAlive msg
      → Exchanged s1 e s'
      → Exchanged s e s'
  answers_more s s1 msg e s' asked said keeps (n, rs, a, b, c) = (
    suc n,
    msg ∷ rs,
    omega (arith, asked, a),
    b ∙ (ap (λ x. x ++ rs) said ∙ append_assoc (written s) (msg ∷ []) rs),
    Answered-cons e n rs msg keeps c,
  )

  -- From a stream that has given one request more, and was given the response.
  with_written-Exchanged :
      (again : Stream → World → Option (End × Stream × World))
      → Good again
      → (msg : Response) (o : Option ErrorCode) (s s1 : Stream) (w : World) (e : End) (s' : Stream)
        (w' : World)
      → requests s1 ≡ requests s + 1
      → written s1 ≡ written s ++ msg ∷ []
      → with_written services files doc_root http again msg (o, s1) w ≡ some (e, s', w')
      → Exchanged s e s'
  unfolding with_written
  with_written-Exchanged again good msg (some ec) s s1 w e s' w' asked said done =
      ends s s1 w w' (write_failed ec) e s' (1, msg ∷ [], asked, said, (refl, msg, ([], refl, tt)))
        done
  with_written-Exchanged again good msg none s s1 w e s' w' asked said done =
      kept msg.keep_alive refl done
    where
      kept :
          (b : Bool)
          → msg.keep_alive ≡ b
          → (if b then again s1 w else some (not_kept_alive, shutdown_send s1, w))
            ≡ some (e, s', w')
          → Exchanged s e s'
      kept true keeps done = answers_more s s1 msg e s' asked said keeps (good s1 w e s' w' done)
      kept false closes done =
          ends s (shutdown_send s1) w w' not_kept_alive e s'
            (
              1,
              msg ∷ [],
              http.requests-shutdown_send s1 ∙ asked,
              http.written-shutdown_send s1 ∙ said,
              (refl, msg, closes, ([], refl, tt)),
            )
            done

  with_response-Exchanged :
      (again : Stream → World → Option (End × Stream × World))
      → Good again
      → (out : Handled World) (s s1 : Stream) (e : End) (s' : Stream) (w' : World)
      → requests s1 ≡ requests s + 1
      → written s1 ≡ written s
      → with_response services files doc_root http again s1 out ≡ some (e, s', w')
      → Exchanged s e s'
  unfolding with_response
  with_response-Exchanged again good none s s1 e s' w' asked said done = cc
  with_response-Exchanged again good (some (ok msg, w)) s s1 e s' w' asked said done =
      with_written-Exchanged again good msg (async_write msg s1).0 s (async_write msg s1).1 w e s'
        w' (http.requests-async_write msg s1 ∙ asked)
        (http.written-async_write msg s1 ∙ ap (λ x. x ++ msg ∷ []) said) done
  with_response-Exchanged again good (some (err x, w)) s s1 e s' w' asked said done =
      ends s s1 w w' no_response e s' (unanswered s s1 asked said) done
  with_response-Exchanged again good (some (throws x, w)) s s1 e s' w' asked said done =
      ends s s1 w w' no_response e s' (unanswered s s1 asked said) done
  with_response-Exchanged again good (some (undefined, w)) s s1 e s' w' asked said done =
      ends s s1 w w' no_response e s' (unanswered s s1 asked said) done

  with_accepted-Exchanged :
      (req : Request) (o : Option ErrorCode) (s s1 : Stream) (w : World) (e : End) (s' : Stream)
      (w' : World)
      → requests s1 ≡ requests s
      → written s1 ≡ written s
      → with_accepted services files doc_root http req (o, s1) w ≡ some (e, s', w')
      → Exchanged s e s'
  unfolding with_accepted
  with_accepted-Exchanged req (some ec) s s1 w e s' w' asked said done =
      let (a, b) = silent s s1 asked said in
      ends s s1 w w' (accept_failed ec) e s' (0, [], a, b, (refl, tt)) done
  with_accepted-Exchanged req none s s1 w e s' w' asked said done =
      chats (handle_chat_websocket req s1 w) refl done
    where
      chats :
          (out : Option (Result ErrorWithMessage (Unit {0}) × Stream × World))
          → handle_chat_websocket req s1 w ≡ out
          → with_chat services files doc_root http out ≡ some (e, s', w')
          → Exchanged s e s'
      chats none ran done = cc
      chats (some (r, s2, w2)) ran done =
          let (said', asked') = http.written-handle_chat_websocket req s1 s2 w w2 r ran in
          let (a, b) = silent s s2 (asked' ∙ asked) (said' ∙ said) in
          ends s s2 w2 w' (chat_over r) e s' (0, [], a, b, (refl, tt)) done

  with_read-Exchanged :
      (again : Stream → World → Option (End × Stream × World)) (ids : ℕ)
      → Good again
      → (r : Read) (s s1 : Stream) (w : World) (e : End) (s' : Stream) (w' : World)
      → requests s1 ≡ requests s + regular r
      → written s1 ≡ written s
      → with_read services files doc_root http again ids (r, s1) w ≡ some (e, s', w')
      → Exchanged s e s'
  unfolding with_read
  with_read-Exchanged again ids good end_of_stream s s1 w e s' w' asked said done =
      let (a, b) =
        silent s (shutdown_send s1) (omega (arith, http.requests-shutdown_send s1, asked))
          (http.written-shutdown_send s1 ∙ said) in
      ends s (shutdown_send s1) w w' closed_by_client e s' (0, [], a, b, (refl, tt)) done
  with_read-Exchanged again ids good (fails ec) s s1 w e s' w' asked said done =
      let (a, b) = silent s s1 (omega (arith, asked)) said in
      ends s s1 w w' (read_failed ec) e s' (0, [], a, b, (refl, tt)) done
  with_read-Exchanged again ids good (request req) s s1 w e s' w' asked said done =
      upgraded req.is_upgrade asked done
    where
      upgraded :
          (b : Bool)
          → requests s1 ≡ requests s + (if b then 0 else 1)
          → (if b
              then with_accepted services files doc_root http req (accept s1) w
              else with_response services files doc_root http again s1 (
                  handle_http_request services files doc_root ids req.context req.method req.target
                    w))
            ≡ some (e, s', w')
          → Exchanged s e s'
      upgraded true asked done =
          with_accepted-Exchanged req (accept s1).0 s (accept s1).1 w e s' w'
            (omega (arith, http.requests-accept s1, asked)) (http.written-accept s1 ∙ said) done
      upgraded false asked done =
          with_response-Exchanged again good
            (handle_http_request services files doc_root ids req.context req.method req.target w) s
            s1 e s' w' asked said done

  pub run_http_session-Exchanged :
      (fuel ids : ℕ) (s : Stream) (w : World) (e : End) (s' : Stream) (w' : World)
      → run_http_session services files doc_root http fuel ids s w ≡ some (e, s', w')
      → Exchanged s e s'
  unfolding run_http_session
  run_http_session-Exchanged zero ids s w e s' w' done = cc
  run_http_session-Exchanged (suc fuel) ids s w e s' w' done =
      with_read-Exchanged (run_http_session services files doc_root http fuel ids) ids
        (run_http_session-Exchanged fuel ids) (async_read s).0 s (async_read s).1 w e s' w'
        (http.requests-async_read s) (http.written-async_read s) done
