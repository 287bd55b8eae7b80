-- ===== src/RedisClient/Running.antt =====
-- server/src/services/redis_client.cpp: start_run and cancel, which drive the connection.
use servertech_chat.Prelude.{ℕ, Bytes, codes, Option, none, some}

-- boost::redis::config, as far as it is set.
pub record RedisConfig : Type 0 where
  pub host : Bytes
  -- In seconds; zero disables the checks.
  pub health_check_interval : ℕ

abbrev pub get_redis_host : Option Bytes → Bytes
get_redis_host none = codes "localhost"
get_redis_host (some host) = host

-- The answer of getenv("REDIS_HOST") is the argument.
unfoldable pub redis_config : Option Bytes → RedisConfig
redis_config env = record { host = get_redis_host env; health_check_interval = 0 }
