-- ===== src/SessionStore.antt =====
-- server/include/services/session_store.hpp and server/src/services/session_store.cpp.
pub mod Backend
pub mod Laws
pub mod Unique
pub mod Sessions
use servertech_chat.Prelude.{
  ℕ, zero, suc, Bool, true, false, Bytes, codes, List, [], ◌∷◌, ◌++◌, Option, none, some,
  if◌then◌else◌,
}
use servertech_chat.Prelude.Decimal.{ℤ, print_int}
use servertech_chat.Error.{
  ErrorCode, ErrorWithMessage, chat, already_exists, Errc, Result, ok, err, throws, undefined,
}
use servertech_chat.Exec.{Exec, ◌>>=◌, pure, lift}
use servertech_chat.Base64.{base64_encode}
use servertech_chat.RedisClient.{set_nonexisting_key, get_int_key}
use Backend.{Random}

abbrev pub session_id_size : ℕ
session_id_size = 16

unfoldable pub get_redis_key : Bytes → Bytes
get_redis_key session_id = codes "session_" ++ session_id

-- `err.ec != errc::already_exists`, the other way round.
abbrev pub is_already_exists : ErrorCode → Bool
is_already_exists (chat already_exists) = true
is_already_exists _ = false

-- How a round of the loop of generate_session_id ends.
pub data Round : Type 0 where
  again : Round
  returns : Result ErrorWithMessage Bytes → Round

-- `if (ec <= 0) throw ...; return base64_encode(sid);`
abbrev pub identifier_of : Option Bytes → Result ErrorWithMessage Bytes
identifier_of none = throws (codes "Generating session ID: RAND_bytes")
identifier_of (some sid) = ok (base64_encode sid true)

-- `if (!err.ec) return id; else if (err.ec != errc::already_exists) return err;`
abbrev pub outcome : Bytes → Result ErrorWithMessage (Unit {0}) → Round
outcome id (ok _) = returns (ok id)
outcome id (err e) = if is_already_exists e.ec then again else returns (err e)
outcome id (throws what) = returns (throws what)
outcome id undefined = returns undefined

module _ (r : Random) where
  open r use {World, redis, rand_bytes}

  unfoldable pub generate_identifier : Exec World Bytes
  generate_identifier w = let (sid, w') = rand_bytes session_id_size w in (identifier_of sid, w')

  -- The rest of a round, with the identifier.
  abbrev pub try_identifier : Bytes → ℕ → Result ErrorWithMessage Bytes → World → Round × World
  try_identifier user_id_str ttl (ok id) w =
      let (res, w') = set_nonexisting_key redis (get_redis_key id) user_id_str ttl w in
      (outcome id res, w')
  try_identifier user_id_str ttl (err e) w = (returns (err e), w)
  try_identifier user_id_str ttl (throws what) w = (returns (throws what), w)
  try_identifier user_id_str ttl undefined w = (returns undefined, w)

  unfoldable pub round : Bytes → ℕ → World → Round × World
  unfolding generate_identifier
  round user_id_str ttl w =
      let (id, w') = generate_identifier w in try_identifier user_id_str ttl id w'

  -- `while (true)`; `none` means that the fuel has run out.
  unfoldable pub generate_loop :
      ℕ → Bytes → ℕ → World → Option (Result ErrorWithMessage Bytes × World)
  generate_loop zero user_id_str ttl w = none
  generate_loop (suc fuel) user_id_str ttl w = elim (round user_id_str ttl w).0 [
    | again ↦ generate_loop fuel user_id_str ttl (round user_id_str ttl w).1
    | returns res ↦ some (res, (round user_id_str ttl w).1)
  ]

  unfoldable pub generate_session_id :
      ℕ → ℤ → ℕ → World → Option (Result ErrorWithMessage Bytes × World)
  unfolding generate_loop print_int
  generate_session_id fuel user_id session_duration w =
      generate_loop fuel (print_int user_id) session_duration w

  unfoldable pub get_user_by_session : Bytes → Exec World ℤ
  get_user_by_session session_id = get_int_key redis (get_redis_key session_id)
