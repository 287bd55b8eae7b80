-- ===== src/Examples/Database.antt =====
-- A database that keeps the laws, and the client over it.
use servertech_chat.Prelude.{
  ℕ, ◌^◌, ◌==◌, ltb→lt, Bool, true, false, Bool-cases, Bytes, codes, str_eq, str_eq_refl, List, [],
  ◌∷◌, ◌++◌, map, length, some, none, ◌≡◌, inl, inr, refl, ap, if◌then◌else◌,
}
use servertech_chat.Prelude.Decimal.{ℤ, pos, fits_int64}
use servertech_chat.Error.{ErrorCode, ErrorWithMessage, foreign, Result, ok, err, no_message}
use servertech_chat.BusinessTypes.{User, AuthUser}
use servertech_chat.RoomHistoryService.{same_id, contains}
use servertech_chat.Scrypt.{verify_password}
use servertech_chat.MysqlClient.Pool.{Param, text, number, numbers, MysqlPool}
use servertech_chat.MysqlClient.Client.{
  create_user, get_user_by_email, get_user_by_id, insertion, to_int64,
}
use servertech_chat.MysqlClient.Table.{
  Row, any, matching, first, auth_user, user, named, name_in, username_taken, email_taken, Creates,
  Finds, answer, duplicate, Inserts, inserted, duplicates_username, duplicates_email, SqlLaws,
}
use servertech_chat.MysqlClient.Table
use servertech_chat.MysqlClient.Refines.{create_user-Creates, create_user-found}
use servertech_chat.Auth.Registered.{verify_password-create_user}
use servertech_chat.Examples.Endpoints.{salt_bytes, hashes}
use servertech_chat.Examples.Backend.{Store}
use servertech_chat.Examples.Server.{start}
use servertech_chat.Examples.Services.{ssl, ssl_writes, password, salt, stored_hash}

abbrev dup_entry : ErrorCode
dup_entry = foreign 1062

abbrev is_dup : ErrorCode → Bool
is_dup (foreign n) = n == 1062
is_dup _ = false

abbrev message_of : Bytes → Bytes → ErrorWithMessage
message_of entry key = record { ec = dup_entry; msg = entry ++ (codes " for key " ++ key) }

abbrev row_of : Bytes → Bytes → Bytes → Store → Row
row_of u e h w = record { id = pos (length w.rows); username = u; email = e; password = h }

-- The insertion of a row; a number that is not new, or not a BIGINT, is an error.
abbrev stored_row :
    (u e h : Bytes) (w : Store) (b : Bool)
    → fits_int64 (pos (length w.rows)) ≡ b
    → Result ErrorWithMessage ℕ × Store
stored_row u e h w true small =
    (ok (length w.rows), record w { rows = row_of u e h w ∷ w.rows; fit = (small, w.fit) })
stored_row u e h w false large = (err (no_message (foreign 0)), w)

abbrev insert_row : Bytes → Bytes → Bytes → Store → Result ErrorWithMessage ℕ × Store
insert_row u e h w =
    if username_taken str_eq u w.rows
    then (err (message_of u (codes "'users.username'")), w)
    else if email_taken str_eq e w.rows
    then (err (message_of e (codes "'users.email'")), w)
    else if any (λ row. same_id row.id (pos (length w.rows))) w.rows
    then (err (no_message (foreign 0)), w)
    else stored_row u e h w (fits_int64 (pos (length w.rows))) refl

abbrev execute : List Param → Store → Result ErrorWithMessage ℕ × Store
execute (text u ∷ text e ∷ text h ∷ []) w = insert_row u e h w
execute _ w = (ok 0, w)

abbrev auth_users : List Param → List Row → Result ErrorWithMessage (List AuthUser)
auth_users (text email ∷ []) t = ok (map auth_user (matching (λ row. str_eq row.email email) t))
auth_users _ t = ok []

abbrev users : List Param → List Row → Result ErrorWithMessage (List User)
users (number id ∷ []) t = ok (map user (matching (λ row. same_id row.id id) t))
users _ t = ok []

abbrev pairs : List Param → List Row → Result ErrorWithMessage (List (ℤ × Bytes))
pairs (numbers ids ∷ []) t = ok (map named (matching (λ row. contains row.id ids) t))
pairs _ t = ok []

abbrev pub pool : MysqlPool Store
pool = record {
  is_dup_entry = is_dup;
  async_get_connection = λ w. (ok tt, w);
  async_execute = λ code params w. execute params w;
  async_execute_auth_users = λ code params w. (auth_users params w.rows, w);
  async_execute_users = λ code params w. (users params w.rows, w);
  async_execute_pairs = λ code params w. (pairs params w.rows, w);
  return_without_reset = λ w. w;
  async_connect = λ params w. (ok tt, w);
  async_close = λ w. w;
  async_wait = λ w. (none, w);
}

abbrev Stores : Bytes → Bytes → Bytes → Store → Result ErrorWithMessage ℕ × Store → Type 0
Stores u e h w out = Inserts pool str_eq (λ w. w.rows) u e h w out.0 out.1

stored_row-Stores :
    (u e h : Bytes) (w : Store) (b : Bool) (is : fits_int64 (pos (length w.rows)) ≡ b)
    → username_taken str_eq u w.rows ≡ false
    → email_taken str_eq e w.rows ≡ false
    → any (λ row. same_id row.id (pos (length w.rows))) w.rows ≡ false
    → Stores u e h w (stored_row u e h w b is)
stored_row-Stores u e h w true is no_u no_e no_id =
    inserted (length w.rows) _ (ltb→lt (length w.rows) (2 ^ 63) is) no_u no_e no_id refl
stored_row-Stores u e h w false is no_u no_e no_id =
    Table.Inserts.fails (no_message (foreign 0)) w refl λ code. cc

pub insert_row-Stores : (u e h : Bytes) (w : Store) → Stores u e h w (insert_row u e h w)
insert_row-Stores u e h w = elim (Bool-cases (username_taken str_eq u w.rows)) [
  | inl taken ↦ rw taken (duplicates_username dup_entry u w refl taken refl)
  | inr no_u ↦ rw no_u (elim (Bool-cases (email_taken str_eq e w.rows)) [
    | inl taken ↦ rw taken (duplicates_email dup_entry e w refl taken refl)
    | inr no_e ↦
        rw no_e (elim (Bool-cases (any (λ row. same_id row.id (pos (length w.rows))) w.rows)) [
          | inl taken ↦ rw taken (Table.Inserts.fails (no_message (foreign 0)) w refl λ code. cc)
          | inr no_id ↦ rw no_id (stored_row-Stores u e h w _ refl no_u no_e no_id)
        ])
  ])
]

abbrev pub sql : SqlLaws pool
sql = record {
  table = λ w. w.rows;
  same = str_eq;
  same_refl = str_eq_refl;
  connection = λ w. answer tt tt;
  connection-table = λ w. refl;
  insert = λ u e h w. insert_row-Stores u e h w;
  by_email = λ email w. (answer _ refl, refl);
  by_id = λ id w. (answer _ refl, refl);
  by_ids = λ id ids w. (answer _ refl, refl);
}

abbrev pub username : Bytes
username = codes "user"

abbrev pub email : Bytes
email = codes "a@b.io"

abbrev row : Row
row = record { id = pos 0; username = username; email = email; password = stored_hash }

abbrev known : AuthUser
known = record { id = pos 0; hashed_password = stored_hash }

abbrev pub one_user : Store
one_user = record start { rows = row ∷ []; fit = (refl, tt) }

create_user-Creates_example :
    Creates str_eq username email stored_hash []
      (create_user pool username email stored_hash start).0
      (create_user pool username email stored_hash start).1.rows
create_user-Creates_example = create_user-Creates pool sql username email stored_hash start

stored : create_user pool username email stored_hash start ≡ (ok (pos 0), one_user)
unfolding create_user insertion to_int64
stored = refl

looked_up :
    (get_user_by_email pool email (create_user pool username email stored_hash start).1).0
    ≡ ok known
unfolding create_user get_user_by_email insertion str_eq
looked_up = refl

create_user-found_example :
    Finds auth_user
      (some row)
      (get_user_by_email pool email (create_user pool username email stored_hash start).1).0
    × Finds user
        (some row)
        (get_user_by_id pool (pos 0) (create_user pool username email stored_hash start).1).0
create_user-found_example =
    create_user-found pool sql username email stored_hash start (pos 0) (ap (λ x. x.0) stored)

verify_password-create_user_example :
    (known.id ≡ pos 0) × (verify_password ssl password known.hashed_password ≡ ok true)
verify_password-create_user_example =
    verify_password-create_user pool sql ssl ssl_writes username email password salt stored_hash
      start (pos 0) known salt_bytes hashes (ap (λ x. x.0) stored) looked_up
