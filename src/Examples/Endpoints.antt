-- ===== src/Examples/Endpoints.antt =====
-- The endpoints, and the passwords, on concrete inputs.
use servertech_chat.Auth.Services.{LoginRequest, CreateAccountRequest}
use servertech_chat.RequestContext.{build_response}
use servertech_chat.Prelude.{◌≡◌, ◌↔◌, str_eq, true, All, IsByte, Bytes, some, refl, arith}
use servertech_chat.Prelude.Decimal.{pos, print_int}
use servertech_chat.Error.{ok}
use servertech_chat.Cookie.{build_header}
use servertech_chat.CookieAuthService.Checked.{session_builder}
use servertech_chat.CookieAuthService.Login.{generate_session_cookie_lem}
use servertech_chat.RequestContext.{set_cookie, empty_response, response_builder, parse_json_body}
use servertech_chat.Scrypt.{
  ScryptData, default_params, scrypt_phc_parse, scrypt_phc_serialize, scrypt_generate_hash,
  hash_password, verify_password, salt_size, hash_size,
}
use servertech_chat.Scrypt.Fields.{IsSane}
use servertech_chat.Scrypt.Phc.{scrypt_phc_parse-serialize}
use servertech_chat.Scrypt.Verify.{verify_password-hash_password, verify_password_iff}
use servertech_chat.Auth.{
  handle_login, handle_create_account, check_login, check_create_account, with_session,
  with_verdict, with_found, login, create_account, with_hash, with_user,
}
use servertech_chat.Auth.Cookies.{Sets}
use servertech_chat.Auth.Sessions.{LoginOf, handle_login_lem}
use servertech_chat.Auth.Accounts.{AccountOf, handle_create_account_lem}
use servertech_chat.Examples.Backend.{fill, fill-IsByte}
use servertech_chat.Examples.Server.{random, laws, start, first_id, after, first_session}
use servertech_chat.Examples.Services.{
  ssl, ssl_writes, password, salt, stored_hash, services, ids, request,
}

IsSane-defaults : IsSane default_params
IsSane-defaults = record {
  ln_low = omega arith;
  ln_high = omega arith;
  r_low = omega arith;
  r_high = omega arith;
  p_one = refl;
}

hash_bytes : All IsByte (fill hash_size 13)
hash_bytes = fill-IsByte hash_size 13 (omega arith)

pub salt_bytes : All IsByte salt
salt_bytes = fill-IsByte salt_size 1 (omega arith)

scrypt_phc_parse-serialize_example :
    scrypt_phc_parse (scrypt_phc_serialize default_params salt (fill hash_size 13))
    ≡ ok (record { params = default_params; salt = salt; hash = fill hash_size 13 })
scrypt_phc_parse-serialize_example =
    scrypt_phc_parse-serialize default_params salt (fill hash_size 13) IsSane-defaults salt_bytes
      hash_bytes

pub hashes : hash_password ssl (some salt) password ≡ ok stored_hash
unfolding hash_password scrypt_generate_hash
hashes = refl

verify_password_iff_example : (verify_password ssl password stored_hash ≡ ok true) ↔ (
    (d : ScryptData) × (scrypt_phc_parse stored_hash ≡ ok d)
    × (scrypt_generate_hash ssl password d.params d.salt ≡ ok d.hash))
verify_password_iff_example = verify_password_iff ssl password stored_hash

verified : verify_password ssl password stored_hash ≡ ok true
verified = verify_password-hash_password ssl ssl_writes salt password stored_hash salt_bytes hashes

abbrev header : Bytes
header = build_header (session_builder first_id)

cookie_made :
    with_session services 1 (response_builder true) (pos 7) start
    ≡ some
        (ok (empty_response (set_cookie header (response_builder true))), after (print_int (pos 7)))
unfolding with_session
cookie_made =
    rw
      ((generate_session_cookie_lem random laws 1 (pos 7) start (after (print_int (pos 7))) first_id
        first_session).0)
      refl

login-Sets :
    Sets services (handle_login services 1 request start) header (after (print_int (pos 7)))
unfolding handle_login login with_found with_verdict check_login parse_json_body str_eq
    empty_response build_response
login-Sets = record {
  response = empty_response (set_cookie header (response_builder true));
  is = rw (verified) cookie_made;
  cookie = refl;
}

handle_login_lem_example :
    (req_params : LoginRequest) × (parse_json_body services.login_from_json request ≡ ok req_params)
    × LoginOf services laws ids req_params header start (after (print_int (pos 7)))
handle_login_lem_example =
    handle_login_lem services laws ids 1 request start (after (print_int (pos 7))) header refl
      login-Sets

account-Sets :
    Sets services
      (handle_create_account services 1 request start)
      header
      (after (print_int (pos 7)))
unfolding handle_create_account create_account with_hash with_user check_create_account
    parse_json_body str_eq empty_response build_response hash_password scrypt_generate_hash
account-Sets = record {
  response = empty_response (set_cookie header (response_builder true));
  is = cookie_made;
  cookie = refl;
}

handle_create_account_lem_example :
    (req_params : CreateAccountRequest) × (parse_json_body services.create_account_from_json request
      ≡ ok req_params)
    × AccountOf services laws ids 1 req_params header start (after (print_int (pos 7)))
handle_create_account_lem_example =
    handle_create_account_lem services laws ids 1 request start (after (print_int (pos 7))) header
      refl account-Sets
