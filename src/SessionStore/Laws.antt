-- ===== src/SessionStore/Laws.antt =====
-- What the session store relies on of Redis and of the random generator. `lookup` is the value that
-- a key has in the server; expiry and other clients do not interfere during a call.
use servertech_chat.Prelude.{
  ℕ, true, false, Bytes, Option, none, some, str_eq, All, length, IsByte, ◌≡◌, ◌≢◌, if◌then◌else◌,
}
use servertech_chat.Prelude.Decimal.{ℤ, print_int, fits_int64}
use servertech_chat.Error.{ErrorCode, Result, ok, err}
use servertech_chat.RedisClient.{set_command, get_command}
use servertech_chat.RedisClient.Connection.{Adapted, value, redis_error}
use servertech_chat.SessionStore.{session_id_size, is_already_exists}
use servertech_chat.SessionStore.Backend.{Random}

module _ (r : Random) where
  open r use {World, rand_bytes, async_exec_string, async_exec_int}

  -- How SET key val NX EX ttl can go: the key exists, and nothing changes; it does not exist, and
  -- now has the value; or the call fails, and whether the key was set is not known.
  pub data SetAnswer (lookup : World → Bytes → Option Bytes) (key val : Bytes) (w w' : World)
      : Result ErrorCode (Adapted (Option Bytes)) → Type 0 where
    taken :
        lookup w key ≢ none
        → ((k : Bytes) → lookup w' k ≡ lookup w k)
        → SetAnswer lookup key val w w' (ok (value none))
    created :
        (reply : Bytes)
        → lookup w key ≡ none
        → ((k : Bytes) → lookup w' k ≡ (if str_eq key k then some val else lookup w k))
        → SetAnswer lookup key val w w' (ok (value (some reply)))
    rejected :
        (diagnostic : Bytes)
        → ((k : Bytes) → lookup w k ≢ none → lookup w' k ≡ lookup w k)
        → SetAnswer lookup key val w w' (ok (redis_error diagnostic))
    failed :
        (e : ErrorCode)
        → is_already_exists e ≡ false
        → ((k : Bytes) → lookup w k ≢ none → lookup w' k ≡ lookup w k)
        → SetAnswer lookup key val w w' (err e)

  pub record SessionLaws : Type 0 where
    pub lookup : World → Bytes → Option Bytes
    pub lookup-rand_bytes :
        (n : ℕ) (w : World) (k : Bytes) → lookup (rand_bytes n w).1 k ≡ lookup w k
    pub rand_bytes-IsByte :
        (w : World) (bs : Bytes) → (rand_bytes session_id_size w).0 ≡ some bs → All IsByte bs
    pub length-rand_bytes :
        (w : World) (bs : Bytes)
        → (rand_bytes session_id_size w).0 ≡ some bs
        → length bs ≡ session_id_size
    pub set_answer :
        (key val : Bytes) (ttl : ℕ) (w : World)
        → SetAnswer lookup key val w
            (async_exec_string (set_command key val ttl) w).1
            (async_exec_string (set_command key val ttl) w).0
    -- A server that is reached answers GET of a 64-bit number with the number.
    pub get_answer :
        (key : Bytes) (n : ℤ) (w : World)
        → fits_int64 n ≡ true
        → lookup w key ≡ some (print_int n)
        → (async_exec_int (get_command key) w).0 ≡ ok (value (some n))
    pub get_absent :
        (key : Bytes) (w : World)
        → lookup w key ≡ none
        → (async_exec_int (get_command key) w).0 ≡ ok (value none)
