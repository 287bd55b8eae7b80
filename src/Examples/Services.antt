-- ===== src/Examples/Services.antt =====
-- A database of one user, and a hash function, for the handlers.
use servertech_chat.Prelude.{
  ◌%◌, ◌≡◌, true, All, IsByte, length, Bytes, codes, [], some, refl, arith, subst,
}
use servertech_chat.Prelude.Decimal.{ℤ, pos, fits_int64}
use servertech_chat.Error.{ok}
use servertech_chat.BusinessTypes.{AuthUser}
use servertech_chat.MysqlClient.{MysqlClient}
use servertech_chat.RequestContext.{RequestContext, response_builder}
use servertech_chat.Scrypt.{default_params, scrypt_phc_serialize, salt_size, hash_size}
use servertech_chat.Scrypt.OpenSsl.{Ssl}
use servertech_chat.Scrypt.Verify.{WritesBytes}
use servertech_chat.Auth.Services.{AuthServices, CreateAccountRequest, LoginRequest}
use servertech_chat.Auth.Cookies.{BigintIds}
use servertech_chat.Examples.Backend.{Store, fill, fill-IsByte}
use servertech_chat.Examples.Server.{random}

abbrev pub ssl : Ssl
ssl = record {
  evp_pbe_scrypt = λ passwd salt n r p memory size. some (fill size (length passwd % 256));
}

pub ssl_writes : WritesBytes ssl
ssl_writes passwd salt n r p memory size key e =
    let same : fill size (length passwd % 256) ≡ key = cc e in
    subst (All IsByte) same (fill-IsByte size (length passwd % 256) (omega arith))

abbrev pub password : Bytes
password = codes "correct horse"

abbrev pub salt : Bytes
salt = fill salt_size 1

abbrev pub stored_hash : Bytes
stored_hash = scrypt_phc_serialize default_params salt (fill hash_size (length password % 256))

abbrev pub known : AuthUser
known = record { id = pos 7; hashed_password = stored_hash }

abbrev pub mysql : MysqlClient Store
mysql = record {
  create_user = λ username email hash w. (ok (pos 7), w);
  get_user_by_email = λ email w. (ok known, w);
  get_user_by_id = λ id w. (ok (record { id = id; username = codes "user" }), w);
  get_usernames = λ ids w. (ok [], w);
}

abbrev pub login_request : LoginRequest
login_request = record { email = codes "a@b.io"; password = password }

abbrev pub account_request : CreateAccountRequest
account_request = record { username = codes "user"; email = codes "a@b.io"; password = password }

abbrev pub services : AuthServices
services = record {
  random = random;
  mysql = mysql;
  ssl = ssl;
  rand_priv_bytes = λ n w. (some salt, w);
  is_email = λ email. true;
  create_account_from_json = λ text. ok account_request;
  login_from_json = λ text. ok login_request;
}

fits_known : (id : ℤ) → pos 7 ≡ id → fits_int64 id ≡ true
fits_known id e = subst (λ x. fits_int64 x ≡ true) e refl

pub ids : BigintIds services
ids = record {
  created_fits = λ username email hash w id e. fits_known id (cc e);
  found_fits = λ email w user e.
      let same : known ≡ user = cc e in subst (λ u. fits_int64 u.id ≡ true) same refl;
}

abbrev pub request : RequestContext
request = record {
  request_content_type = some (codes "application/json");
  request_body = codes "{}";
  response = response_builder true;
}
