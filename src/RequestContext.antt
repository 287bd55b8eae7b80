-- ===== src/RequestContext.antt =====
-- server/src/request_context.cpp and server/include/request_context.hpp: the responses that a
-- handler builds, and the body of its request. The text of a JSON body is Boost.JSON's, so that
-- the body is given by what is serialized; a file is given by its path.
use servertech_chat.Prelude.{
  ℕ, ◌+◌, ◌&&◌, leb, ◌==◌, map, Bool, false, Bytes, codes, List, [], ◌∷◌, Option, none, some,
  str_eq, if◌then◌else◌,
}
use servertech_chat.Error.{ErrorCode, ErrorWithMessage, chat, invalid_content_type, Result, err}

-- enum class api_error_id
pub data ApiErrorId : Type 0 where
  login_failed username_exists email_exists bad_request : ApiErrorId

pub data Body : Type 0 where
  empty_body : Body
  string_body : Bytes → Body
  -- api_error{error_id, error_message}
  json_body : ApiErrorId → Bytes → Body
  -- The contents of the file with this path.
  file_body : Bytes → Body

pub record Response : Type 0 where
  pub status : ℕ
  pub content_type : Option Bytes
  pub cookie : Option Bytes
  pub keep_alive : Bool
  pub body : Body
  -- Where it is set apart from the body: otherwise prepare_payload has set it to the body's size.
  pub content_length : Option ℕ

-- `path.substr(path.rfind("."))`, without a point nothing.
unfoldable pub rfind_dot : Bytes → Option Bytes
rfind_dot [] = none
rfind_dot (c ∷ path) =
    let later = rfind_dot path in
    elim later [ some ext ↦ some ext | none ↦ if c == b'.' then some (c ∷ path) else none ]

abbrev pub or_empty : Option Bytes → Bytes
or_empty none = []
or_empty (some ext) = ext

abbrev pub lower : ℕ → ℕ
lower c = if leb b'A' c && leb c b'Z' then c + 32 else c

unfoldable pub iequals : Bytes → Bytes → Bool
unfolding str_eq
iequals a b = str_eq (map lower a) (map lower b)

abbrev pub mime_types : List (Bytes × Bytes)
mime_types =
    (codes ".htm", codes "text/html")
    ∷ (codes ".html", codes "text/html")
    ∷ (codes ".php", codes "text/html")
    ∷ (codes ".css", codes "text/css")
    ∷ (codes ".txt", codes "text/plain")
    ∷ (codes ".js", codes "application/javascript")
    ∷ (codes ".json", codes "application/json")
    ∷ (codes ".xml", codes "application/xml")
    ∷ (codes ".swf", codes "application/x-shockwave-flash")
    ∷ (codes ".flv", codes "video/x-flv")
    ∷ (codes ".png", codes "image/png")
    ∷ (codes ".jpe", codes "image/jpeg")
    ∷ (codes ".jpeg", codes "image/jpeg")
    ∷ (codes ".jpg", codes "image/jpeg")
    ∷ (codes ".gif", codes "image/gif")
    ∷ (codes ".bmp", codes "image/bmp")
    ∷ (codes ".ico", codes "image/vnd.microsoft.icon")
    ∷ (codes ".tiff", codes "image/tiff")
    ∷ (codes ".tif", codes "image/tiff")
    ∷ (codes ".svg", codes "image/svg+xml")
    ∷ (codes ".svgz", codes "image/svg+xml")
    ∷ []

-- The chain of tests, first to last.
unfoldable pub mime_of : List (Bytes × Bytes) → Bytes → Bytes
unfolding iequals
mime_of [] ext = codes "application/text"
mime_of ((known, mime) ∷ types) ext =
    let later = mime_of types ext in if iequals ext known then mime else later

unfoldable pub mime_type : Bytes → Bytes
unfolding rfind_dot mime_of
mime_type path = mime_of mime_types (or_empty (rfind_dot path))

-- class response_builder, of which `header_` is written out.
pub record ResponseBuilder : Type 0 where
  pub keep_alive : Bool
  pub result : ℕ
  pub content_type : Option Bytes
  pub cookie : Option Bytes

-- The constructor.
abbrev pub response_builder : Bool → ResponseBuilder
response_builder keep = record {
  keep_alive = keep;
  result = 200;
  content_type = none;
  cookie = none;
}

abbrev pub set_cookie : Bytes → ResponseBuilder → ResponseBuilder
set_cookie set_cookie_header b = record b { cookie = some set_cookie_header }

abbrev pub set_content_type : Bytes → ResponseBuilder → ResponseBuilder
set_content_type value b = record b { content_type = some value }

unfoldable pub build_response : Body → ResponseBuilder → Response
build_response body b = record {
  status = b.result;
  content_type = b.content_type;
  cookie = b.cookie;
  keep_alive = b.keep_alive;
  body = body;
  content_length = none;
}

unfoldable pub empty_response : ResponseBuilder → Response
unfolding build_response
empty_response b = build_response empty_body (record b { result = 204 })

unfoldable pub plaintext_response : ℕ → Bytes → ResponseBuilder → Response
unfolding build_response
plaintext_response status content b =
    build_response (string_body content)
      (set_content_type (codes "text/plain") (record b { result = status }))

unfoldable pub json_error : ℕ → ApiErrorId → Bytes → ResponseBuilder → Response
unfolding build_response
json_error status error_id error_message b =
    build_response (json_body error_id error_message)
      (set_content_type (codes "application/json") (record b { result = status }))

abbrev pub bad_request_json : ApiErrorId → Bytes → ResponseBuilder → Response
bad_request_json error_id error_message b = json_error 400 error_id error_message b

abbrev pub method_not_allowed : ResponseBuilder → Response
method_not_allowed b = plaintext_response 405 (codes "Method not allowed") b

abbrev pub bad_request_text : Bytes → ResponseBuilder → Response
bad_request_text why b = plaintext_response 400 why b

abbrev pub not_found_text : ResponseBuilder → Response
not_found_text b = plaintext_response 404 (codes "Not found") b

-- The error is logged only.
abbrev pub internal_server_error : ErrorWithMessage → ResponseBuilder → Response
internal_server_error e b = plaintext_response 500 (codes "An unexpected server error occurred") b

-- How body.open ends: with the size of the file, or an error.
pub data Opened : Type 0 where
  opened : ℕ → Opened
  no_such_file_or_directory : Opened
  open_error : ErrorCode → Opened

-- The file system: open, and whether std::filesystem::path(path).extension() is empty.
pub record FileSystem : Type 0 where
  pub open_file : Bytes → Opened
  pub extension_empty : Bytes → Bool

unfoldable pub file_response : FileSystem → Bytes → Bool → ResponseBuilder → Response
unfolding mime_type build_response plaintext_response
file_response files path is_head b = elim (files.open_file path) [
  | no_such_file_or_directory ↦ not_found_text b
  | open_error e ↦ internal_server_error (record { ec = e; msg = codes "Opening file" }) b
  | opened size ↦
      let body = if is_head then empty_body else file_body path in
      let res = build_response body (set_content_type (mime_type path) b) in
      record res { content_length = some size }
]

-- What a handler uses of the request: its Content-Type, if it has one, and its body.
pub record RequestContext : Type 0 where
  pub request_content_type : Option Bytes
  pub request_body : Bytes
  pub response : ResponseBuilder

abbrev pub is_json_content_type : RequestContext → Bool
is_json_content_type ctx = elim ctx.request_content_type [
  | none ↦ false
  | some value ↦ str_eq value (codes "application/json")
]

unfoldable pub parse_json_body {ℓ} :
    {T : Type ℓ} → (Bytes → Result ErrorCode T) → RequestContext → Result ErrorCode T
unfolding str_eq
parse_json_body from_json ctx =
    if is_json_content_type ctx then from_json ctx.request_body else err (chat invalid_content_type)
