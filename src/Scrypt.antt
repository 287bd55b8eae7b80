-- ===== src/Scrypt.antt =====
-- server/src/util/scrypt.cpp and server/src/util/password_hash.cpp. The hash function itself is
-- OpenSSL's, a parameter.
pub mod OpenSsl
pub mod Numbers
pub mod Split
pub mod Fields
pub mod Phc
pub mod Verify
use servertech_chat.Prelude.{
  ℕ, ◌+◌, ◌*◌, ◌^◌, Bool, true, false, ◌&&◌, ltb, leb, ◌==◌, Bytes, codes, List, [], ◌∷◌, ◌++◌,
  Option, none, some, str_eq, length, if◌then◌else◌,
}
use servertech_chat.Prelude.Decimal.{print_uint}
use servertech_chat.Error.{
  ErrorCode, chat, invalid_password_hash, invalid_argument, result_out_of_range, Result, ok, err,
  throws, undefined, guard, with_error, ◌>>=◌, ◌>>◌,
}
use servertech_chat.Base64.{base64_encode, base64_decode}
use OpenSsl.{Ssl}
use Numbers.{digit_run, value_of}
use Split.{split, pieces}

abbrev pub salt_size : ℕ
salt_size = 32

abbrev pub hash_size : ℕ
hash_size = 32

-- struct scrypt_params
pub record ScryptParams : Type 0 where
  pub ln : ℕ
  pub r : ℕ
  pub p : ℕ

abbrev pub default_params : ScryptParams
default_params = record { ln = 14; r = 8; p = 1 }

-- struct scrypt_data
pub record ScryptData : Type 0 where
  pub params : ScryptParams
  pub salt : Bytes
  pub hash : Bytes

abbrev pub malformed : ErrorCode
malformed = chat invalid_password_hash

abbrev pub is_nil : Bytes → Bool
is_nil [] = true
is_nil (c ∷ cs) = false

-- parse_int, with std::from_chars written out: the digits at the front, which must be there and
-- have a value that fits, and the rest of the text.
unfoldable pub parse_int : Bytes → Result ErrorCode ℕ
unfolding digit_run value_of
parse_int from =
    let (ds, rest) = digit_run from in
    let value = value_of 0 ds in
    if is_nil ds
    then err invalid_argument
    else if leb (2 ^ 64) value
    then err result_out_of_range
    else if is_nil rest
    then ok value
    else err malformed

-- The three branches of the loop of parse_phc_params that know their parameter.
unfoldable pub set_ln : ScryptParams → Bytes → Result ErrorCode ScryptParams
unfolding parse_int
set_ln res value_str = do
  value ← with_error malformed (parse_int value_str)
  guard (leb 2 value && leb value 20) malformed >> ok (record res { ln = value })

unfoldable pub set_r : ScryptParams → Bytes → Result ErrorCode ScryptParams
unfolding parse_int
set_r res value_str = do
  value ← parse_int value_str
  guard (leb 1 value && leb value 20) malformed >> ok (record res { r = value })

unfoldable pub set_p : ScryptParams → Bytes → Result ErrorCode ScryptParams
unfolding parse_int
set_p res value_str = do
  value ← with_error malformed (parse_int value_str)
  guard (value == 1) malformed >> ok (record res { p = value })

abbrev pub set_named : ScryptParams → Option (Bytes × Bytes) → Result ErrorCode ScryptParams
set_named res none = err malformed
set_named res (some (name, value_str)) =
    if str_eq name (codes "ln")
    then set_ln res value_str
    else if str_eq name (codes "r")
    then set_r res value_str
    else if str_eq name (codes "p")
    then set_p res value_str
    else ok res

-- A pass of the loop, for the text up to a comma.
unfoldable pub set_param : ScryptParams → Bytes → Result ErrorCode ScryptParams
unfolding set_ln set_r set_p split
set_param res serialized_param = set_named res (split b'=' serialized_param)

unfoldable pub set_params : ScryptParams → List Bytes → Result ErrorCode ScryptParams
set_params res [] = ok res
set_params res (param ∷ params) = do next ← set_param res param; set_params next params

unfoldable pub parse_phc_params : Bytes → Result ErrorCode ScryptParams
unfolding set_params pieces
parse_phc_params from = set_params default_params (pieces b',' from)

abbrev pub must_be_found : Option (Bytes × Bytes) → Result ErrorCode (Bytes × Bytes)
must_be_found none = err malformed
must_be_found (some found) = ok found

-- `from.find('$')`, which must not be npos: the field before it, and what is behind.
unfoldable pub field : Bytes → Result ErrorCode (Bytes × Bytes)
unfolding split
field from = must_be_found (split b'$' from)

abbrev pub first_identifier : Bytes → Result ErrorCode Bytes
first_identifier [] = err malformed
first_identifier (c ∷ from) = if c == b'$' then ok from else err malformed

-- scrypt_phc_parse, from its end: the hash, which is the rest of the string,
unfoldable pub with_salt : ScryptParams → Bytes → Bytes → Result ErrorCode ScryptData
unfolding base64_decode
with_salt params salt from = do
  hash ← with_error malformed (base64_decode from false)
  ok (record { params = params; salt = salt; hash = hash })

-- the salt,
unfoldable pub with_params : ScryptParams → Bytes → Result ErrorCode ScryptData
unfolding field base64_decode with_salt
with_params params from = do
  (b64_salt, behind) ← field from
  salt ← with_error malformed (base64_decode b64_salt false)
  with_salt params salt behind

-- the parameters,
unfoldable pub with_algorithm : Bytes → Result ErrorCode ScryptData
unfolding field parse_phc_params with_params
with_algorithm from = do
  (serialized_params, behind) ← field from
  params ← parse_phc_params serialized_params
  with_params params behind

-- and the algorithm.
unfoldable pub with_identifier : Bytes → Result ErrorCode ScryptData
unfolding field with_algorithm
with_identifier from = do
  (algo_id, behind) ← field from
  guard (str_eq algo_id (codes "scrypt")) malformed >> with_algorithm behind

unfoldable pub scrypt_phc_parse : Bytes → Result ErrorCode ScryptData
unfolding with_identifier
scrypt_phc_parse from = first_identifier from >>= with_identifier

unfoldable pub print_params : ScryptParams → Bytes
unfolding print_uint
print_params params =
    codes "ln="
    ++ (print_uint params.ln
        ++ (codes ",r=" ++ (print_uint params.r ++ (codes ",p=" ++ print_uint params.p))))

unfoldable pub scrypt_phc_serialize : ScryptParams → Bytes → Bytes → Bytes
unfolding print_params base64_encode
scrypt_phc_serialize params salt hash =
    b'$'
    ∷ (codes "scrypt"
        ++ (b'$'
            ∷ (print_params params
                ++ (b'$' ∷ (base64_encode salt false ++ (b'$' ∷ base64_encode hash false))))))

-- 32 << 20
abbrev pub max_memory : ℕ
max_memory = 32 * 2 ^ 20

abbrev pub hashed : Option Bytes → Result ErrorCode Bytes
hashed none = throws (codes "ERR_error_string_n")
hashed (some res) = ok res

-- CRYPTO_memcmp of as many bytes as both have.
unfoldable pub same_bytes : Bytes → Bytes → Bool
same_bytes [] s2 = true
same_bytes (x ∷ s1) [] = true
same_bytes (x ∷ s1) (y ∷ s2) = let rest = same_bytes s1 s2 in x == y && rest

unfoldable pub time_safe_equals : Bytes → Bytes → Bool
unfolding same_bytes
time_safe_equals s1 s2 = same_bytes s1 s2 && length s1 == length s2

module _ (ssl : Ssl) where
  unfoldable pub scrypt_generate_hash : Bytes → ScryptParams → Bytes → Result ErrorCode Bytes
  scrypt_generate_hash passwd params salt =
      hashed (ssl.evp_pbe_scrypt passwd salt (2 ^ params.ln) params.r params.p max_memory hash_size)

  -- The salt is the answer of RAND_priv_bytes, `none` for a result that is not positive.
  unfoldable pub hash_password : Option Bytes → Bytes → Result ErrorCode Bytes
  unfolding scrypt_generate_hash scrypt_phc_serialize
  hash_password none passwd = throws (codes "Hashing password: RAND_priv_bytes")
  hash_password (some salt) passwd = do
    hash ← scrypt_generate_hash passwd default_params salt
    ok (scrypt_phc_serialize default_params salt hash)

  abbrev pub check_password : Bytes → ScryptData → Result ErrorCode Bool
  check_password passwd stored_data = do
    incoming_hash ← scrypt_generate_hash passwd stored_data.params stored_data.salt
    ok (time_safe_equals stored_data.hash incoming_hash)

  abbrev pub checked : Bytes → Result ErrorCode ScryptData → Result ErrorCode Bool
  checked passwd (ok stored_data) = check_password passwd stored_data
  checked passwd (err e) = ok false
  checked passwd (throws what) = throws what
  checked passwd undefined = undefined

  unfoldable pub verify_password : Bytes → Bytes → Result ErrorCode Bool
  unfolding scrypt_generate_hash time_safe_equals scrypt_phc_parse
  verify_password passwd hashed_passwd = checked passwd (scrypt_phc_parse hashed_passwd)
