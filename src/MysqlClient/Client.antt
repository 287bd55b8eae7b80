-- ===== src/MysqlClient/Client.antt =====
-- server/src/services/mysql_client.cpp: mysql_client_impl over the connection pool of Boost.MySQL.
use servertech_chat.Prelude.{
  ℕ, zero, suc, ◌-◌, ◌^◌, ◌&&◌, ltb, Bool, true, false, Bytes, codes, List, [], ◌∷◌, Option, none,
  some, if◌then◌else◌,
}
use servertech_chat.Prelude.Decimal.{ℤ, pos, negsuc}
use servertech_chat.Error.{
  ErrorCode, ErrorWithMessage, chat, Errc, not_found, no_message, Result, ok, err, throws,
  undefined,
}
use servertech_chat.Exec.{Exec, continue, ◌>>=◌, pure, lift}
use servertech_chat.BusinessTypes.{User, AuthUser, UsernameMap}
use servertech_chat.RoomHistoryService.{same_id}
use servertech_chat.MysqlClient.{MysqlClient}
use servertech_chat.MysqlClient.Suffix.{ends_with}
use servertech_chat.MysqlClient.Pool.{text, number, numbers, ConnectParams, MysqlPool}

abbrev pub setup_code : Bytes
setup_code =
    codes
      "\n\nCREATE DATABASE IF NOT EXISTS servertech_chat;\nUSE servertech_chat;\nCREATE TABLE IF NOT EXISTS users (\n    id BIGINT PRIMARY KEY AUTO_INCREMENT,\n    username VARCHAR(100) NOT NULL,\n    email VARCHAR(100) NOT NULL,\n    password TEXT NOT NULL,\n    UNIQUE (username),\n    UNIQUE (email)\n)\n\n"

abbrev pub insert_code : Bytes
insert_code = codes "INSERT INTO users (username, email, password) VALUES ({}, {}, {})"

abbrev pub by_email_code : Bytes
by_email_code = codes "SELECT id, password AS hashed_password FROM users WHERE email = {}"

abbrev pub by_id_code : Bytes
by_id_code = codes "SELECT id, username  FROM users WHERE id = {}"

abbrev pub usernames_code : Bytes
usernames_code = codes "SELECT id, username FROM users WHERE id IN ({})"

-- The answer of getenv("MYSQL_HOST") is the argument.
unfoldable pub get_mysql_hostname : Option Bytes → Bytes
get_mysql_hostname none = codes "localhost"
get_mysql_hostname (some host) = host

unfoldable pub get_pool_params : Option Bytes → ConnectParams
unfolding get_mysql_hostname
get_pool_params env = record {
  host = get_mysql_hostname env;
  username = codes "root";
  password = [];
  database = codes "servertech_chat";
  multi_queries = false;
}

-- The params of get_connection_with_retries.
unfoldable pub get_setup_params : Option Bytes → ConnectParams
unfolding get_mysql_hostname
get_setup_params env = record {
  host = get_mysql_hostname env;
  username = codes "root";
  password = [];
  database = [];
  multi_queries = true;
}

-- static_cast<std::int64_t>
unfoldable pub to_int64 : ℕ → ℤ
to_int64 n = if ltb n (2 ^ 63) then pos n else negsuc (2 ^ 64 - 1 - n)

-- What create_user makes of the answer to the insertion.
unfoldable pub insertion :
    (ErrorCode → Bool) → Result ErrorWithMessage ℕ → Result ErrorWithMessage ℤ
unfolding to_int64 ends_with
insertion is_dup_entry (ok last_insert_id) = ok (to_int64 last_insert_id)
insertion is_dup_entry (err e) =
    if is_dup_entry e.ec && ends_with e.msg (codes "'users.username'")
    then err (no_message (chat Errc.username_exists))
    else if is_dup_entry e.ec && ends_with e.msg (codes "'users.email'")
    then err (no_message (chat Errc.email_exists))
    else err e
insertion is_dup_entry (throws what) = throws what
insertion is_dup_entry undefined = undefined

-- The first of the rows.
abbrev pub first_row {ℓ} : {A : Type ℓ} → List A → Result ErrorWithMessage A
first_row [] = err (no_message (chat not_found))
first_row (row ∷ rows) = ok row

-- std::unordered_map: insert leaves a key that is there alone.
unfoldable pub has_key : ℤ → UsernameMap → Bool
has_key id [] = false
has_key id ((key, username) ∷ res) =
    let later = has_key id res in if same_id key id then true else later

unfoldable pub insert_rows : List (ℤ × Bytes) → UsernameMap → UsernameMap
unfolding has_key
insert_rows [] res = res
insert_rows ((id, username) ∷ rows) res =
    insert_rows rows (if has_key id res then res else (id, username) ∷ res)

-- How attempts end: with a result, or not within the fuel.
abbrev pub Attempt : Type 0 → Type 0
Attempt W = Option (Result ErrorWithMessage (Unit {0}) × W)

module _ {World : Type 0} (pool : MysqlPool World) where
  open pool use {
    is_dup_entry, async_get_connection, async_execute, async_execute_auth_users,
    async_execute_users, async_execute_pairs, return_without_reset, async_connect, async_close,
    async_wait,
  }

  unfoldable pub create_user : Bytes → Bytes → Bytes → Exec World ℤ
  unfolding insertion
  create_user username email hashed_password = do
    conn ← async_get_connection
    λ w.
        let (result, w') =
          async_execute insert_code (text username ∷ text email ∷ text hashed_password ∷ []) w in
        (insertion is_dup_entry result, w')

  unfoldable pub get_user_by_email : Bytes → Exec World AuthUser
  get_user_by_email email = do
    conn ← async_get_connection
    rows ← async_execute_auth_users by_email_code (text email ∷ [])
    lift (first_row rows)

  unfoldable pub get_user_by_id : ℤ → Exec World User
  get_user_by_id user_id = do
    conn ← async_get_connection
    rows ← async_execute_users by_id_code (number user_id ∷ [])
    lift (first_row rows)

  unfoldable pub get_usernames : List ℤ → Exec World UsernameMap
  unfolding insert_rows
  get_usernames [] = pure []
  get_usernames (id ∷ ids) = do
    conn ← async_get_connection
    rows ← async_execute_pairs usernames_code (numbers (id ∷ ids) ∷ [])
    λ w. (ok (insert_rows rows []), return_without_reset w)

  -- The client that the other services use.
  abbrev pub client : MysqlClient World
  client = record {
    create_user = create_user;
    get_user_by_email = get_user_by_email;
    get_user_by_id = get_user_by_id;
    get_usernames = get_usernames;
  }

  -- The loop of get_connection_with_retries; `none` is the end of the fuel.
  abbrev waited : (World → Attempt World) → Option ErrorCode × World → Attempt World
  waited retry (none, w) = retry w
  waited retry (some e, w) = some (err (no_message e), w)

  abbrev connected :
      (World → Attempt World) → Result ErrorWithMessage (Unit {0}) × World → Attempt World
  connected retry (err e, w) = waited retry (async_wait w)
  connected retry (r, w) = some (r, w)

  unfoldable pub get_connection_with_retries : Option Bytes → ℕ → World → Attempt World
  unfolding get_setup_params
  get_connection_with_retries env zero w = none
  get_connection_with_retries env (suc fuel) w =
      connected (get_connection_with_retries env fuel) (async_connect (get_setup_params env) w)

  -- From the connection on.
  abbrev set_up : Attempt World → Attempt World
  set_up none = none
  set_up (some (r, w)) =
      some (continue r (λ conn. async_execute setup_code [] >>= λ result. closed) w)
    where
      closed : Exec World (Unit {0})
      closed w = (ok tt, async_close w)

  unfoldable pub setup_db : Option Bytes → ℕ → World → Attempt World
  unfolding get_connection_with_retries
  setup_db env fuel w = set_up (get_connection_with_retries env fuel w)
