-- ===== src/SharedState/Laws.antt =====
-- What the endpoints together rely on of the libraries: Redis and the random generators leave the
-- table of users alone.
use servertech_chat.Prelude.{
  ℕ, zero, suc, ◌≡◌, refl, arith, ◌∙◌, ap, subst, sym, Bool-cases, inl, inr, Bytes, Bool, true, All,
  IsByte, List, [], ◌∷◌, Option, none, some,
}
use servertech_chat.Prelude.Decimal.{ℤ, fits_int64, print_int}
use servertech_chat.Error.{ErrorWithMessage, Result, ok, err, throws, undefined}
use servertech_chat.BusinessTypes.{AuthUser}
use servertech_chat.Scrypt.Verify.{WritesBytes}
use servertech_chat.RedisClient.{set_command, set_nonexisting_key}
use servertech_chat.SessionStore.{
  session_id_size, get_redis_key, Round, again, returns, generate_identifier, round, generate_loop,
  try_identifier, generate_session_id,
}
use servertech_chat.SessionStore.Laws.{SessionLaws}
use servertech_chat.CookieAuthService.{session_duration, generate_session_cookie, with_cookie}
use servertech_chat.MysqlClient.Client.{create_user}
use servertech_chat.MysqlClient.Table.{
  Row, auth_user, matching, first, SqlLaws, Finds, found, absent,
}
use servertech_chat.MysqlClient.Table
use servertech_chat.MysqlClient.Refines.{Creates-row, create_user-Creates, get_user_by_email-Finds}
use servertech_chat.Auth.Cookies.{BigintIds}
use servertech_chat.SharedState.{Libraries, shared_state, auth_services}

pub record LibraryLaws (libs : Libraries) : Type 0 where
  pub sessions : SessionLaws libs.random
  pub sql : SqlLaws libs.pool
  pub writes : WritesBytes libs.ssl
  pub rand_priv_bytes-IsByte :
      (n : ℕ) (w : libs.World) (bs : Bytes) → (libs.rand_priv_bytes n w).0 ≡ some bs → All IsByte bs
  -- The id column is a BIGINT.
  pub ids_fit : (w : libs.World) → All (λ row. fits_int64 row.id ≡ true) (sql.table w)
  pub rand_priv_bytes-table :
      (n : ℕ) (w : libs.World) → sql.table (libs.rand_priv_bytes n w).1 ≡ sql.table w
  pub rand_bytes-table : (n : ℕ) (w : libs.World) → sql.table (libs.rand_bytes n w).1 ≡ sql.table w
  pub redis-table :
      (command : List Bytes) (w : libs.World)
      → sql.table (libs.async_exec_string command w).1 ≡ sql.table w
  pub redis_int-table :
      (command : List Bytes) (w : libs.World)
      → sql.table (libs.async_exec_int command w).1 ≡ sql.table w

abbrev Fits : Row → Type 0
Fits row = fits_int64 row.id ≡ true

matching-Fits : (p : Row → Bool) (t : List Row) → All Fits t → All Fits (matching p t)
matching-Fits p [] fit = tt
matching-Fits p (row ∷ rows) (f, fit) = elim (Bool-cases (p row)) [
  | inl hit ↦ rw hit (f, matching-Fits p rows fit)
  | inr miss ↦ rw miss (matching-Fits p rows fit)
]

abbrev FirstFits : Option Row → Type 0
FirstFits none = Unit {0}
FirstFits (some row) = Fits row

first-Fits : (t : List Row) → All Fits t → FirstFits (first t)
first-Fits [] fit = tt
first-Fits (row ∷ rows) (f, fit) = f

Finds-fits :
    (o : Option Row) (r : Result ErrorWithMessage AuthUser) (user : AuthUser)
    → FirstFits o
    → Finds auth_user o r
    → r ≡ ok user
    → fits_int64 user.id ≡ true
Finds-fits o r user fit (found row) e =
    let same : auth_user row ≡ user = cc e in subst (λ u. fits_int64 u.id ≡ true) same fit
Finds-fits o r user fit absent e = cc e
Finds-fits o r user fit (Table.Finds.fails _ x foreign) e = cc e

module _ (libs : Libraries) (laws : LibraryLaws libs) where
  open libs use {World, random, pool, redis, rand_bytes, async_exec_string}
  open laws use {sql, ids_fit, rand_bytes-table, redis-table}
  open sql use {table}

  set_nonexisting_key-table :
      (key val : Bytes) (ttl : ℕ) (w : World)
      → table (set_nonexisting_key redis key val ttl w).1 ≡ table w
  unfolding set_nonexisting_key
  set_nonexisting_key-table key val ttl w =
      ap table unmoved ∙ redis-table (set_command key val ttl) w
    where
      unmoved :
          (set_nonexisting_key redis key val ttl w).1
          ≡ (async_exec_string (set_command key val ttl) w).1
      unmoved = ground arith

  try_identifier-table :
      (val : Bytes) (ttl : ℕ) (id : Result ErrorWithMessage Bytes) (w : World)
      → table (try_identifier random val ttl id w).1 ≡ table w
  try_identifier-table val ttl (ok id) w = set_nonexisting_key-table (get_redis_key id) val ttl w
  try_identifier-table val ttl (err e) w = refl
  try_identifier-table val ttl (throws what) w = refl
  try_identifier-table val ttl undefined w = refl

  round-table : (val : Bytes) (ttl : ℕ) (w : World) → table (round random val ttl w).1 ≡ table w
  unfolding round generate_identifier
  round-table val ttl w =
      try_identifier-table val ttl _ (rand_bytes session_id_size w).1
      ∙ rand_bytes-table session_id_size w

  generate_loop-table :
      (fuel : ℕ) (val : Bytes) (ttl : ℕ) (w w' : World) (res : Result ErrorWithMessage Bytes)
      → generate_loop random fuel val ttl w ≡ some (res, w')
      → table w' ≡ table w
  unfolding generate_loop
  generate_loop-table zero val ttl w w' res e = cc e
  generate_loop-table (suc fuel) val ttl w w' res e =
      next (round random val ttl w).0 (generate_loop-table fuel val ttl w1 w' res) e
      ∙ round-table val ttl w
    where
      w1 : World
      w1 = (round random val ttl w).1

      next :
          (rd : Round)
          → (generate_loop random fuel val ttl w1 ≡ some (res, w') → table w' ≡ table w1)
          → elim rd [ again ↦ generate_loop random fuel val ttl w1 | returns out ↦ some (out, w1) ]
            ≡ some (res, w')
          → table w' ≡ table w1
      next again later h = later h
      next (returns out) later h = let same : w1 ≡ w' = cc h in ap table (sym same)

  -- Making a session cookie leaves the table of users alone.
  pub generate_session_cookie-table :
      (fuel : ℕ) (user_id : ℤ) (w w' : World) (header : Bytes)
      → generate_session_cookie random fuel user_id w ≡ some (ok header, w')
      → table w' ≡ table w
  unfolding generate_session_cookie generate_session_id
  generate_session_cookie-table fuel user_id w w' header e =
      drawn (generate_loop random fuel (print_int user_id) session_duration w) refl e
    where
      drawn :
          (out : Option (Result ErrorWithMessage Bytes × World))
          → generate_loop random fuel (print_int user_id) session_duration w ≡ out
          → with_cookie random out ≡ some (ok header, w')
          → table w' ≡ table w
      drawn none is h = cc h
      drawn (some (id, w1)) is h =
          let same : w1 ≡ w' = cc h in
          ap table (sym same)
          ∙ generate_loop-table fuel (print_int user_id) session_duration w w1 id is

  -- The numbers of the users fit, those that are made and those that are found.
  pub auth_services-BigintIds :
      (doc_root : Bytes) → BigintIds (auth_services libs (shared_state libs doc_root))
  auth_services-BigintIds doc_root = record {
    created_fits = λ username email hash w id e.
        let w' = (create_user pool username email hash w).1 in
        let row =
          Creates-row pool sql username email hash (table w) (table w') _ id
            (create_user-Creates pool sql username email hash w) e in
        (subst (All (λ row. fits_int64 row.id ≡ true)) row (ids_fit w')).0;
    found_fits = λ email w user e.
        Finds-fits _ _ user
          (first-Fits _ (matching-Fits (λ row. sql.same row.email email) (table w) (ids_fit w)))
          (get_user_by_email-Finds pool sql email w).0 e;
  }
