-- ===== src/Examples/Http.antt =====
-- A session over HTTP on a concrete input: two requests, each for a page that is not there.
use servertech_chat.Prelude.{
  ℕ, ◌+◌, ◌<◌, ◌≡◌, Bool, true, false, codes, List, [], ◌∷◌, ◌++◌, length, Option, none, some, refl,
  ap, arith, if◌then◌else◌,
}
use servertech_chat.Error.{
  ErrorCode, ErrorWithMessage, Result, ok, err, throws, undefined, invalid_argument, chat,
  invalid_content_type,
}
use servertech_chat.RequestContext.{
  Response, RequestContext, FileSystem, no_such_file_or_directory, ResponseBuilder,
  is_json_content_type, response_builder, parse_json_body,
}
use servertech_chat.StaticFiles.{Verb, Target, file_path, serves, has_dots, path_cat}
use servertech_chat.StaticFiles.Segments.{IsBelow, file_path-IsBelow}
use servertech_chat.Auth.Services.{AuthServices}
use servertech_chat.Auth.{
  Handled, create_account_parsed, login_parsed, handle_create_account, handle_login,
}
use servertech_chat.HttpSession.{
  Route, create_account, login, method_refused, unknown_endpoint, static_file, past_the_end, route,
  caught, handle_route, handle_http_request, handle_http_request_impl,
}
use servertech_chat.HttpSession.Session.{
  Request, Read, request, end_of_stream, End, regular, HttpStream, run_http_session,
}
use servertech_chat.HttpSession.Answers.{Exchanged}
use servertech_chat.HttpSession.Returns.{IsFinite, run_http_session_answers}
use servertech_chat.Examples.Backend.{Store}
use servertech_chat.Examples.Server.{start}
use servertech_chat.Examples.Services

-- A client that sends the requests, and then closes the connection.
record Client : Type 0 where
  pub todo : List Request
  pub responses : List Response
  pub count : ℕ

abbrev next : List Request → Client → Read × Client
next [] c = (end_of_stream, c)
next (req ∷ todo) c =
    (request req, record c { todo = todo; count = c.count + regular (request req) })

next_written : (todo : List Request) (c : Client) → (next todo c).1.responses ≡ c.responses
next_written [] c = refl
next_written (req ∷ todo) c = refl

next_requests :
    (todo : List Request) (c : Client) → (next todo c).1.count ≡ c.count + regular (next todo c).0
next_requests [] c = omega arith
next_requests (req ∷ todo) c = refl

same_client :
    (r x : Result ErrorWithMessage (Unit {0})) (c c' : Client) (w w' : Store)
    → ◌≡◌ {A = Option (Result ErrorWithMessage (Unit {0}) × Client × Store)}
        (some (x, c, w))
        (some (r, c', w'))
    → c' ≡ c
same_client r x c c' w w' e = cc e

abbrev http : HttpStream Store
http = record {
  Stream = Client;
  async_read = λ c. next c.todo c;
  async_write = λ msg c. (none, record c { responses = c.responses ++ msg ∷ [] });
  shutdown_send = λ c. c;
  accept = λ c. (none, c);
  handle_chat_websocket = λ req c w. some (ok tt, c, w);
  written = λ c. c.responses;
  requests = λ c. c.count;
  written-async_read = λ c. next_written c.todo c;
  requests-async_read = λ c. next_requests c.todo c;
  written-async_write = λ msg c. refl;
  requests-async_write = λ msg c. refl;
  written-shutdown_send = λ c. refl;
  requests-shutdown_send = λ c. refl;
  written-accept = λ c. refl;
  requests-accept = λ c. refl;
  written-handle_chat_websocket = λ req c c' w w' r e. (
    ap (λ x. x.responses) (same_client r (ok tt) c c' w w' e),
    ap (λ x. x.count) (same_client r (ok tt) c c' w w' e),
  );
}

abbrev files : FileSystem
files = record { open_file = λ path. no_such_file_or_directory; extension_empty = λ path. false }

-- The handlers refuse every body.
abbrev strict : AuthServices
strict = record Services.services {
  create_account_from_json = λ text. err invalid_argument;
  login_from_json = λ text. err invalid_argument;
}

abbrev Responds : Handled Store → Type 0
Responds h = (out : Result ErrorCode Response × Store) × (h ≡ some out)

refused_either :
    {A : Type 0} (b : Bool) (x y : ErrorCode)
    → (e : ErrorCode) × (◌≡◌ {A = Result ErrorCode A} (if b then err x else err y) (err e))
refused_either true x y = (x, refl)
refused_either false x y = (y, refl)

refused :
    {A : Type 0} (ctx : RequestContext)
    → (e : ErrorCode) × (parse_json_body {T = A} (λ text. err invalid_argument) ctx ≡ err e)
unfolding parse_json_body
refused ctx = refused_either (is_json_content_type ctx) invalid_argument (chat invalid_content_type)

caught-Responds :
    (resp : ResponseBuilder) (h : Handled Store) → Responds h → Responds (caught resp h)
caught-Responds resp h ((ok msg, w), e) = (_, ap (caught resp) e)
caught-Responds resp h ((err x, w), e) = (_, ap (caught resp) e)
caught-Responds resp h ((throws what, w), e) = (_, ap (caught resp) e)
caught-Responds resp h ((undefined, w), e) = (_, ap (caught resp) e)

route-Responds :
    (ctx : RequestContext) (method : Verb) (target : Target) (r : Route) (w : Store)
    → Responds (handle_route strict files [] 1 ctx method target r w)
unfolding handle_create_account handle_login
route-Responds ctx method target create_account w =
    let (e, is) = refused ctx in (_, ap (λ p. create_account_parsed strict 1 ctx.response p w) is)
route-Responds ctx method target login w =
    let (e, is) = refused ctx in (_, ap (λ p. login_parsed strict 1 ctx.response p w) is)
route-Responds ctx method target method_refused w = (_, refl)
route-Responds ctx method target unknown_endpoint w = (_, refl)
route-Responds ctx method target static_file w = (_, refl)
route-Responds ctx method target past_the_end w = (_, refl)

impl-Responds :
    (ctx : RequestContext) (method : Verb) (target : Result ErrorCode Target) (w : Store)
    → Responds (handle_http_request_impl strict files [] 1 ctx method target w)
unfolding handle_http_request_impl
impl-Responds ctx method (ok target) w =
    route-Responds ctx method target (route method target.segments) w
impl-Responds ctx method (err e) w = (_, refl)
impl-Responds ctx method (throws what) w = (_, refl)
impl-Responds ctx method undefined w = (_, refl)

next_left :
    (todo : List Request) (req : Request) (c : Client)
    → (next todo c).0 ≡ request req
    → c.todo ≡ todo
    → length (next todo c).1.todo < length c.todo
next_left [] req c e is = cc e
next_left (x ∷ todo) req c e is = omega (arith, ap length is)

finite : IsFinite strict files [] http 1
unfolding handle_http_request
finite = record {
  left = λ c. length c.todo;
  left-async_read = λ req c e. next_left c.todo req c e refl;
  left-async_write = λ msg c. omega arith;
  responds =
      λ ctx method target w. caught-Responds ctx.response _ (impl-Responds ctx method target w);
  chats = λ req c w. (_, refl);
}

abbrev page : Target
page = record {
  segments = codes "none" ∷ [];
  empty = false;
  is_path_absolute = true;
  path = codes "/none";
}

abbrev missing : Request
missing = record {
  context = record {
    request_content_type = none;
    request_body = [];
    response = response_builder true;
  };
  method = Verb.get;
  target = ok page;
  is_upgrade = false;
}

abbrev client : Client
client = record { todo = missing ∷ missing ∷ []; responses = []; count = 0 }

run_http_session_answers_example :
    (e : End) × (c : Client) × (w : Store) × (run_http_session strict files [] http 3 1 client start
      ≡ some (e, c, w))
    × Exchanged strict files [] http client e c
run_http_session_answers_example =
    run_http_session_answers strict files [] http 1 finite 3 client start few
  where
    few : finite.left client < 3
    few = unfold finite in omega arith

file_path-IsBelow_example : IsBelow (codes "/srv") (codes "/srv/none")
file_path-IsBelow_example =
    file_path-IsBelow files (codes "/srv") Verb.get page (response_builder true) (codes "/srv/none")
      found
  where
    found :
        file_path files (codes "/srv") Verb.get page (response_builder true)
        ≡ serves (codes "/srv/none")
    found = unfold file_path in unfold has_dots in unfold path_cat in refl
