-- ===== src/Error/Category.antt =====
-- server/src/error.cpp: the category of the program's error codes, and what is logged.
use servertech_chat.Prelude.{
  ℕ, ◌≡◌, ap, sym, ◌∙◌, refl, ◌==◌, Bytes, codes, str_eq, List, [], ◌∷◌, ◌++◌, Option, none, some,
  if◌then◌else◌,
}
use servertech_chat.Prelude.Decimal.{print_uint}
use servertech_chat.Error.{ErrorCode, chat, operation_aborted, Errc}

-- The numbers of the enumeration, from 1 on.
unfoldable number : Errc → ℕ
number Errc.redis_parse_error = 1
number Errc.redis_command_failed = 2
number Errc.websocket_parse_error = 3
number Errc.username_exists = 4
number Errc.email_exists = 5
number Errc.not_found = 6
number Errc.invalid_password_hash = 7
number Errc.already_exists = 8
number Errc.requires_auth = 9
number Errc.invalid_base64 = 10
number Errc.uncaught_exception = 11
number Errc.invalid_content_type = 12

-- BOOST_DESCRIBE_ENUM: the enumerators with their names.
unfoldable described : List (ℕ × Bytes)
described =
    (1, codes "redis_parse_error")
    ∷ (2, codes "redis_command_failed")
    ∷ (3, codes "websocket_parse_error")
    ∷ (4, codes "username_exists")
    ∷ (5, codes "email_exists")
    ∷ (6, codes "not_found")
    ∷ (7, codes "invalid_password_hash")
    ∷ (8, codes "already_exists")
    ∷ (9, codes "requires_auth")
    ∷ (10, codes "invalid_base64")
    ∷ (11, codes "uncaught_exception")
    ∷ (12, codes "invalid_content_type")
    ∷ []

-- boost::describe::enum_to_string, with the name for a value that is none of them.
unfoldable enum_to_string : List (ℕ × Bytes) → Bytes → ℕ → Bytes
enum_to_string [] unknown v = unknown
enum_to_string ((value, name) ∷ rest) unknown v =
    let later = enum_to_string rest unknown v in if value == v then name else later

unfoldable message : ℕ → Bytes
unfolding enum_to_string described
message ev = enum_to_string described (codes "<unknown chat error>") ev

abbrev name : Bytes
name = codes "chat"

-- `os << ec` and ec.message(); for a code of another category, both are given.
abbrev shown : (ErrorCode → Bytes) → ErrorCode → Bytes
shown other (chat e) = name ++ (b':' ∷ print_uint (number e))
shown other ec = other ec

abbrev message_of : (ErrorCode → Bytes) → ErrorCode → Bytes
message_of other (chat e) = message (number e)
message_of other ec = other ec

abbrev if_located : Option Bytes → Bytes
if_located none = []
if_located (some location) = codes " (" ++ (location ++ codes ")")

abbrev if_diagnosed : Bytes → Bytes
if_diagnosed [] = []
if_diagnosed (c ∷ diagnostics) = codes "\nDiagnostics: " ++ (c ∷ diagnostics)

abbrev reported :
    (ErrorCode → Bytes) → (ErrorCode → Bytes) → Option Bytes → ErrorCode → Bytes → Bytes → Bytes
reported other text_of location ec what diagnostics =
    what
    ++ (codes ": "
        ++ (shown other ec
            ++ (codes ": "
                ++ (message_of text_of ec
                    ++ (if_located location ++ (if_diagnosed diagnostics ++ codes "\n"))))))

-- What log_error writes to stderr, if it writes. The source location is that of a code that has one.
unfoldable log_error :
    (ErrorCode → Bytes)
    → (ErrorCode → Bytes)
    → Option Bytes
    → ErrorCode
    → Bytes
    → Bytes
    → Option Bytes
unfolding message number
log_error other text_of location operation_aborted what diagnostics = none
log_error other text_of location (chat e) what diagnostics =
    some (reported other text_of location (chat e) what diagnostics)
log_error other text_of location ErrorCode.invalid_argument what diagnostics =
    some (reported other text_of location ErrorCode.invalid_argument what diagnostics)
log_error other text_of location ErrorCode.result_out_of_range what diagnostics =
    some (reported other text_of location ErrorCode.result_out_of_range what diagnostics)
log_error other text_of location (ErrorCode.foreign n) what diagnostics =
    some (reported other text_of location (ErrorCode.foreign n) what diagnostics)

-- The enumerator of a name, found among all of them.
unfoldable enumerator : List Errc → Bytes → Option Errc
enumerator [] text = none
enumerator (e ∷ es) text =
    let later = enumerator es text in if str_eq (message (number e)) text then some e else later

abbrev all_codes : List Errc
all_codes =
    Errc.redis_parse_error ∷ Errc.redis_command_failed ∷ Errc.websocket_parse_error
    ∷ Errc.username_exists ∷ Errc.email_exists ∷ Errc.not_found ∷ Errc.invalid_password_hash
    ∷ Errc.already_exists ∷ Errc.requires_auth ∷ Errc.invalid_base64 ∷ Errc.uncaught_exception
    ∷ Errc.invalid_content_type ∷ []

found : (e : Errc) → enumerator all_codes (message (number e)) ≡ some e
unfolding enumerator message number enum_to_string described str_eq
found Errc.redis_parse_error = refl
found Errc.redis_command_failed = refl
found Errc.websocket_parse_error = refl
found Errc.username_exists = refl
found Errc.email_exists = refl
found Errc.not_found = refl
found Errc.invalid_password_hash = refl
found Errc.already_exists = refl
found Errc.requires_auth = refl
found Errc.invalid_base64 = refl
found Errc.uncaught_exception = refl
found Errc.invalid_content_type = refl

-- Two error codes of the program never have the same message.
message_injective : (e e' : Errc) → message (number e) ≡ message (number e') → e ≡ e'
message_injective e e' same =
    let both : some e ≡ some e' = sym (found e) ∙ ap (enumerator all_codes) same ∙ found e' in
    cc both
