-- ===== src/HttpSession.antt =====
-- server/src/http_session.cpp: handle_http_request and handle_http_request_impl, which choose the
-- handler of a request.
pub mod Routes
pub mod Session
pub mod Answered
pub mod Answers
pub mod Returns
use servertech_chat.Prelude.{
  ℕ, ◌&&◌, Bool, true, false, Bytes, codes, List, [], ◌∷◌, some, str_eq, if◌then◌else◌,
}
use servertech_chat.Error.{
  ErrorCode, ErrorWithMessage, chat, uncaught_exception, Result, ok, err, throws, undefined,
}
use servertech_chat.RequestContext.{
  Response, ResponseBuilder, RequestContext, FileSystem, method_not_allowed, bad_request_text,
  not_found_text, internal_server_error,
}
use servertech_chat.StaticFiles.{Verb, Target, handle_static_file}
use servertech_chat.Auth.Services.{AuthServices}
use servertech_chat.Auth.{Handled, handle_create_account, handle_login}

-- What a request leads to: the two endpoints, a response at once, a static file, or, where the
-- source goes past the end of the segments, anything.
pub data Route : Type 0 where
  create_account login method_refused unknown_endpoint static_file : Route
  past_the_end : Route

abbrev pub is_post : Verb → Bool
is_post Verb.post = true
is_post _ = false

abbrev pub is_end : List Bytes → Bool
is_end [] = true
is_end (seg ∷ segs) = false

-- `segs.front() == "api"`: `it` points behind it, and `*it` is read without a test.
unfoldable pub api_route : Verb → List Bytes → Route
unfolding str_eq
api_route method [] = past_the_end
api_route method (seg ∷ it) =
    if str_eq seg (codes "create-account") && is_end it
    then if is_post method then create_account else method_refused
    else if str_eq seg (codes "login") && is_end it
    then if is_post method then login else method_refused
    else unknown_endpoint

unfoldable pub route : Verb → List Bytes → Route
unfolding api_route
route method [] = static_file
route method (front ∷ segs) =
    let api = api_route method segs in if str_eq front (codes "api") then api else static_file

-- `catch (const std::exception& err)`
abbrev pub caught {ℓ} : {W : Type ℓ} → ResponseBuilder → Handled W → Handled W
caught resp (some (throws what, w)) =
    some (ok (internal_server_error (record { ec = chat uncaught_exception; msg = what }) resp), w)
caught resp out = out

module _ (services : AuthServices) (files : FileSystem) (doc_root : Bytes) where
  open services use {World}

  abbrev pub handle_route : ℕ → RequestContext → Verb → Target → Route → World → Handled World
  handle_route fuel ctx method target create_account w = handle_create_account services fuel ctx w
  handle_route fuel ctx method target login w = handle_login services fuel ctx w
  handle_route fuel ctx method target method_refused w =
      some (ok (method_not_allowed ctx.response), w)
  handle_route fuel ctx method target unknown_endpoint w =
      some (ok (not_found_text ctx.response), w)
  handle_route fuel ctx method target static_file w =
      some (ok (handle_static_file files doc_root method target ctx.response), w)
  handle_route fuel ctx method target past_the_end w = some (undefined, w)

  -- The target is the answer of Boost.URL's parse_origin_form.
  unfoldable pub handle_http_request_impl :
      ℕ → RequestContext → Verb → Result ErrorCode Target → World → Handled World
  unfolding route handle_create_account handle_login handle_static_file
  handle_http_request_impl fuel ctx method (ok target) w =
      handle_route fuel ctx method target (route method target.segments) w
  handle_http_request_impl fuel ctx method (err e) w =
      some (ok (bad_request_text (codes "Invalid request target") ctx.response), w)
  handle_http_request_impl fuel ctx method (throws what) w = some (throws what, w)
  handle_http_request_impl fuel ctx method undefined w = some (undefined, w)

  unfoldable pub handle_http_request :
      ℕ → RequestContext → Verb → Result ErrorCode Target → World → Handled World
  unfolding handle_http_request_impl
  handle_http_request fuel ctx method target w =
      caught ctx.response (handle_http_request_impl fuel ctx method target w)
