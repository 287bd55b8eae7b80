-- ===== src/SessionStore/Backend.antt =====
-- The outside of the session store: the Redis connection, and the random generator of OpenSSL.
use servertech_chat.Prelude.{ℕ, Bytes, Option}
use servertech_chat.RedisClient.Connection.{RedisConnection}

pub record Random : Type 1 where
  pub redis : RedisConnection
  pub open redis use *
  -- RAND_bytes: `none` is a result that is not positive.
  pub rand_bytes : ℕ → World → Option Bytes × World
