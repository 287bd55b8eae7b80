-- ===== src/Auth/Registered.antt =====
-- From the creation of an account to a login, over the client of the database.
use servertech_chat.Prelude.{◌≡◌, sym, true, Bytes, All, IsByte, some, ap, subst}
use servertech_chat.Prelude.Decimal.{ℤ}
use servertech_chat.Error.{Result, ok, ErrorWithMessage}
use servertech_chat.BusinessTypes.{AuthUser}
use servertech_chat.Scrypt.{hash_password, verify_password}
use servertech_chat.Scrypt.OpenSsl.{Ssl}
use servertech_chat.Scrypt.Verify.{WritesBytes, verify_password-hash_password}
use servertech_chat.MysqlClient.Pool.{MysqlPool}
use servertech_chat.MysqlClient.Client.{create_user, get_user_by_email}
use servertech_chat.MysqlClient.Table.{Row, auth_user, SqlLaws, Finds, found}
use servertech_chat.MysqlClient.Table
use servertech_chat.MysqlClient.Refines.{create_user-found}

-- The row, and no other, is what a lookup finds.
found_row :
    {A : Type 0} (of_row : Row → A) (row : Row) (r : Result ErrorWithMessage A) (a : A)
    → Finds of_row (some row) r
    → r ≡ ok a
    → of_row row ≡ a
found_row of_row row r a (found _) same = cc
found_row of_row row r a (Table.Finds.fails _ x foreign) same = cc

module _ {World : Type 0} (pool : MysqlPool World) (laws : SqlLaws pool) (ssl : Ssl) where
  -- Over a server that keeps SqlLaws and an OpenSSL that writes bytes: once create_user has stored
  -- the hash that hash_password made of a password under a salt of bytes and returned a number, a
  -- user that get_user_by_email finds for the email has that number, and a stored hash against
  -- which the password is verified.
  pub verify_password-create_user :
      WritesBytes ssl
      → (username email password salt hashed_password : Bytes) (w : World) (id : ℤ)
        (user : AuthUser)
      → All IsByte salt
      → hash_password ssl (some salt) password ≡ ok hashed_password
      → (create_user pool username email hashed_password w).0 ≡ ok id
      → (get_user_by_email pool email (create_user pool username email hashed_password w).1).0
        ≡ ok user
      → (user.id ≡ id) × (verify_password ssl password user.hashed_password ≡ ok true)
  verify_password-create_user writes u e password salt h w id user bytes hashed stored got =
      let (by_email, _) = create_user-found pool laws u e h w id stored in
      let same = found_row auth_user _ _ user by_email got in
      (
        sym (ap (λ x. x.id) same),
        subst (λ x. verify_password ssl password x.hashed_password ≡ ok true) same
            (verify_password-hash_password ssl writes salt password h bytes hashed),
      )
