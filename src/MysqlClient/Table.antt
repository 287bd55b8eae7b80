-- ===== src/MysqlClient/Table.antt =====
-- The table of users, what create_user and the lookups promise of it, and what they rely on of the
-- server: each statement does what SQL says, and errors have the codes and texts of MySQL's.
use servertech_chat.Prelude.{
  ℕ, ◌<◌, ◌^◌, ◌||◌, Bool, true, false, Bytes, codes, List, [], ◌∷◌, ◌++◌, map, Option, none, some,
  if◌then◌else◌, ◌≡◌, ◌≢◌,
}
use servertech_chat.Prelude.Decimal.{ℤ, pos}
use servertech_chat.Error.{
  ErrorCode, ErrorWithMessage, chat, Errc, not_found, no_message, Result, ok, err,
}
use servertech_chat.BusinessTypes.{User, AuthUser}
use servertech_chat.RoomHistoryService.{same_id, contains}
use servertech_chat.MysqlClient.Pool.{text, number, numbers, MysqlPool}
use servertech_chat.MysqlClient.Client.{insert_code, by_email_code, by_id_code, usernames_code}

-- A row of `users`.
pub record Row : Type 0 where
  pub id : ℤ
  pub username : Bytes
  pub email : Bytes
  pub password : Bytes

abbrev pub any : (Row → Bool) → List Row → Bool
any p [] = false
any p (row ∷ rows) = p row || any p rows

abbrev pub matching : (Row → Bool) → List Row → List Row
matching p [] = []
matching p (row ∷ rows) = let rest = matching p rows in if p row then row ∷ rest else rest

abbrev pub first : List Row → Option Row
first [] = none
first (row ∷ rows) = some row

abbrev pub auth_user : Row → AuthUser
auth_user row = record { id = row.id; hashed_password = row.password }

abbrev pub user : Row → User
user row = record { id = row.id; username = row.username }

-- The username of the first row of a user.
abbrev pub name_in : List Row → ℤ → Bytes
name_in [] id = []
name_in (row ∷ rows) id =
    let later = name_in rows id in if same_id row.id id then row.username else later

abbrev pub named : Row → ℤ × Bytes
named row = (row.id, row.username)

-- Not an error code of this program.
abbrev pub IsForeign : ErrorCode → Type 0
IsForeign e = (code : Errc) → e ≢ chat code

module _ (same : Bytes → Bytes → Bool) where
  abbrev pub username_taken : Bytes → List Row → Bool
  username_taken username = any (λ row. same row.username username)

  abbrev pub email_taken : Bytes → List Row → Bool
  email_taken email = any (λ row. same row.email email)

  -- What create_user promises: the result, and the table behind it.
  pub data Creates (username email password : Bytes) (t : List Row)
      : Result ErrorWithMessage ℤ → List Row → Type 0 where
    created :
        (id : ℤ)
        → username_taken username t ≡ false
        → email_taken email t ≡ false
        → any (λ row. same_id row.id id) t ≡ false
        → Creates username email password t
            (ok id)
            (record { id = id; username = username; email = email; password = password } ∷ t)
    username_exists :
        username_taken username t ≡ true
        → Creates username email password t (err (no_message (chat Errc.username_exists))) t
    email_exists :
        email_taken email t ≡ true
        → Creates username email password t (err (no_message (chat Errc.email_exists))) t
    fails :
        (e : ErrorWithMessage) (t' : List Row)
        → IsForeign e.ec
        → Creates username email password t (err e) t'

-- What a lookup promises, from the row that it is about.
pub data Finds {ℓ} {A : Type ℓ} (of_row : Row → A)
    : Option Row → Result ErrorWithMessage A → Type ℓ where
  found : (row : Row) → Finds of_row (some row) (ok (of_row row))
  absent : Finds of_row none (err (no_message (chat not_found)))
  fails : (o : Option Row) (e : ErrorWithMessage) → IsForeign e.ec → Finds of_row o (err e)

-- The end of an operation that has no result of its own, or fails.
pub data Answers {ℓ} {A : Type ℓ} (P : A → Type 0) : Result ErrorWithMessage A → Type ℓ where
  answer : (a : A) → P a → Answers P (ok a)
  fails : (e : ErrorWithMessage) → IsForeign e.ec → Answers P (err e)

module _ {World : Type 0} (pool : MysqlPool World) where
  open pool use {
    is_dup_entry, async_get_connection, async_execute, async_execute_auth_users,
    async_execute_users, async_execute_pairs,
  }

  -- "Duplicate entry '...' for key '...'"
  abbrev pub duplicate : ErrorCode → Bytes → Bytes → ErrorWithMessage
  duplicate ec entry key = record { ec = ec; msg = entry ++ (codes " for key " ++ key) }

  pub data Inserts (same : Bytes → Bytes → Bool) (table : World → List Row)
      (username email password : Bytes) (w : World)
      : Result ErrorWithMessage ℕ → World → Type 0 where
    inserted :
        (n : ℕ) (w' : World)
        → n < 2 ^ 63
        → username_taken same username (table w) ≡ false
        → email_taken same email (table w) ≡ false
        → any (λ row. same_id row.id (pos n)) (table w) ≡ false
        → table w'
          ≡ record { id = pos n; username = username; email = email; password = password } ∷ table w
        → Inserts same table username email password w (ok n) w'
    duplicates_username :
        (ec : ErrorCode) (entry : Bytes) (w' : World)
        → is_dup_entry ec ≡ true
        → username_taken same username (table w) ≡ true
        → table w' ≡ table w
        → Inserts same table username email password w
            (err (duplicate ec entry (codes "'users.username'")))
            w'
    duplicates_email :
        (ec : ErrorCode) (entry : Bytes) (w' : World)
        → is_dup_entry ec ≡ true
        → email_taken same email (table w) ≡ true
        → table w' ≡ table w
        → Inserts same table username email password w
            (err (duplicate ec entry (codes "'users.email'")))
            w'
    -- The server may have stored the row before the connection failed.
    fails :
        (e : ErrorWithMessage) (w' : World)
        → is_dup_entry e.ec ≡ false
        → IsForeign e.ec
        → Inserts same table username email password w (err e) w'

  pub record SqlLaws : Type 0 where
    pub table : World → List Row
    -- How the server compares texts.
    pub same : Bytes → Bytes → Bool
    pub same_refl : (s : Bytes) → same s s ≡ true
    pub connection : (w : World) → Answers (λ conn. Unit {0}) (async_get_connection w).0
    pub connection-table : (w : World) → table (async_get_connection w).1 ≡ table w
    pub insert :
        (username email password : Bytes) (w : World)
        → let (r, w') =
            async_execute insert_code (text username ∷ text email ∷ text password ∷ []) w in
          Inserts same table username email password w r w'
    pub by_email :
        (email : Bytes) (w : World)
        → let (r, w') = async_execute_auth_users by_email_code (text email ∷ []) w in
          Answers
            (λ rows. rows ≡ map auth_user (matching (λ row. same row.email email) (table w)))
            r
          × (table w' ≡ table w)
    pub by_id :
        (id : ℤ) (w : World)
        → let (r, w') = async_execute_users by_id_code (number id ∷ []) w in
          Answers (λ rows. rows ≡ map user (matching (λ row. same_id row.id id) (table w))) r
          × (table w' ≡ table w)
    pub by_ids :
        (id : ℤ) (ids : List ℤ) (w : World)
        → let (r, w') = async_execute_pairs usernames_code (numbers (id ∷ ids) ∷ []) w in
          Answers
            (λ rows. rows ≡ map named (matching (λ row. contains row.id (id ∷ ids)) (table w)))
            r
          × (table w' ≡ table w)
