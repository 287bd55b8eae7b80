-- ===== src/Examples/Shared.antt =====
-- An account that is created, and a login to it, on a concrete state.
use servertech_chat.Prelude.{
  ℕ, ◌==◌, ◌≡◌, true, All, IsByte, Bytes, codes, List, [], ◌∷◌, Option, some, none, refl, str_eq,
  subst, arith,
}
use servertech_chat.Prelude.Decimal.{ℤ, pos, print_int}
use servertech_chat.Error.{ok}
use servertech_chat.Cookie.{build_header}
use servertech_chat.Base64.{base64_encode, encode}
use servertech_chat.Base64.Tables.{forward}
use servertech_chat.RedisClient.{set_command, set_nonexisting_key}
use servertech_chat.SessionStore.{
  session_id_size, get_redis_key, generate_session_id, generate_loop, round, generate_identifier,
}
use servertech_chat.CookieAuthService.{session_duration}
use servertech_chat.CookieAuthService.Checked.{session_builder}
use servertech_chat.CookieAuthService.Login.{generate_session_cookie_lem}
use servertech_chat.MysqlClient.Client.{create_user, insertion, to_int64}
use servertech_chat.Email.{is_email, email_regex}
use servertech_chat.Email.Expressions.{matches, derive, nullable}
use servertech_chat.RequestContext.{
  set_cookie, empty_response, response_builder, parse_json_body, build_response,
}
use servertech_chat.Scrypt.{hash_password, scrypt_generate_hash}
use servertech_chat.Auth.{
  handle_create_account, create_account, with_hash, with_user, with_session, check_create_account,
}
use servertech_chat.Auth.Cookies.{Sets, LoggedIn}
use servertech_chat.SharedState.{Libraries}
use servertech_chat.SharedState.Laws.{LibraryLaws}
use servertech_chat.SharedState.Accounts.{LogsIn, services, handle_login-handle_create_account}
use servertech_chat.SharedState.Entry.{Enters, user_from_cookie-handle_create_account}
use servertech_chat.Cookie.Build.{name_value_pair}
use servertech_chat.Examples.Backend.{
  Store, fill, fill-IsByte, draw, set_if_absent, exec_string, exec_int,
}
use servertech_chat.Examples.Server.{random, laws, start, first_id}
use servertech_chat.Examples.Services.{ssl, ssl_writes, account_request, login_request, request}
use servertech_chat.Examples.Database.{pool, sql, one_user}

abbrev libs : Libraries
libs = record {
  random = random;
  pool = pool;
  ssl = ssl;
  rand_priv_bytes = λ n w. (some (fill n 1), w);
  is_space = λ c. c == b' ';
  create_account_from_json = λ text. ok account_request;
  login_from_json = λ text. ok login_request;
}

salt_IsByte :
    (n : ℕ) (w : Store) (bs : Bytes) → (libs.rand_priv_bytes n w).0 ≡ some bs → All IsByte bs
salt_IsByte n w bs e =
    let same : fill n 1 ≡ bs = cc e in subst (All IsByte) same (fill-IsByte n 1 (omega arith))

set-table :
    (key val : Bytes) (w : Store) (old : Option Bytes)
    → (set_if_absent key val w old).1.rows ≡ w.rows
set-table key val w none = refl
set-table key val w (some text) = refl

exec-table : (command : List Bytes) (w : Store) → (exec_string command w).1.rows ≡ w.rows
exec-table [] w = refl
exec-table (set ∷ []) w = refl
exec-table (set ∷ key ∷ []) w = refl
exec-table (set ∷ key ∷ val ∷ options) w = set-table key val w (w.keys key)

int-table : (command : List Bytes) (w : Store) → (exec_int command w).1.rows ≡ w.rows
int-table [] w = refl
int-table (get ∷ []) w = refl
int-table (get ∷ key ∷ []) w = refl
int-table (get ∷ key ∷ more ∷ options) w = refl

abbrev library_laws : LibraryLaws libs
library_laws = record {
  sessions = laws;
  sql = sql;
  writes = ssl_writes;
  rand_priv_bytes-IsByte = λ n w bs e. salt_IsByte n w bs e;
  ids_fit = λ w. w.fit;
  rand_priv_bytes-table = λ n w. refl;
  rand_bytes-table = λ n w. refl;
  redis-table = λ command w. exec-table command w;
  redis_int-table = λ command w. int-table command w;
}

abbrev header : Bytes
header = build_header (session_builder first_id)

abbrev logged : Store
logged =
    (set_if_absent (get_redis_key first_id) (print_int (pos 0)) (draw session_id_size one_user).1
      none).1

drawn : generate_session_id random 1 (pos 0) session_duration one_user ≡ some (ok first_id, logged)
unfolding generate_session_id generate_loop round generate_identifier base64_encode encode fill
    forward set_nonexisting_key set_command
drawn = refl

account-Sets :
    Sets
      (services libs library_laws (codes "."))
      (handle_create_account (services libs library_laws (codes ".")) 1 request start)
      header
      logged
unfolding handle_create_account create_account with_hash with_user with_session check_create_account
    parse_json_body str_eq empty_response build_response hash_password scrypt_generate_hash
    create_user insertion to_int64 is_email email_regex matches derive nullable
account-Sets = record {
  response = empty_response (set_cookie header (response_builder true));
  is =
      rw ((generate_session_cookie_lem random laws 1 (pos 0) one_user logged first_id drawn).0)
        refl;
  cookie = refl;
}

handle_login-handle_create_account_example :
    (user_id : ℤ) × LoggedIn (services libs library_laws (codes ".")) logged header user_id
    × LogsIn libs library_laws (codes ".") 1 request user_id logged
unfolding parse_json_body
handle_login-handle_create_account_example =
    handle_login-handle_create_account libs library_laws (codes ".") 1 1 request request
      account_request start logged logged header refl refl refl refl account-Sets refl

user_from_cookie-handle_create_account_example :
    (user_id : ℤ) × Enters libs library_laws
      (codes ".")
      (some (name_value_pair header))
      user_id
      (codes "user")
      logged
unfolding parse_json_body
user_from_cookie-handle_create_account_example =
    user_from_cookie-handle_create_account libs library_laws (codes ".") 1 request account_request
      start logged header refl refl account-Sets
