-- ===== src/MysqlClient/Retries.antt =====
-- The connection that setup_db waits for.
use servertech_chat.Prelude.{ℕ, zero, suc, ◌<◌, Bytes, Option, none, some, ◌≡◌, refl, arith}
use servertech_chat.Error.{ErrorWithMessage, ok, err}
use servertech_chat.MysqlClient.Pool.{MysqlPool}
use servertech_chat.MysqlClient.Client.{get_setup_params, get_connection_with_retries}

module _ {World : Type 0} (pool : MysqlPool World) where
  -- Attempts to connect that fail, each followed by a wait.
  pub data Tries (env : Option Bytes) : ℕ → World → World → Type 0 where
    none_yet : (w : World) → Tries env 0 w w
    one_more :
        (n : ℕ) (e : ErrorWithMessage) (w w' w'' w''' : World)
        → pool.async_connect (get_setup_params env) w ≡ (err e, w')
        → pool.async_wait w' ≡ (none, w'')
        → Tries env n w'' w'''
        → Tries env (suc n) w w'''

  -- When the server can be connected to after n attempts that fail, each with a wait that does not,
  -- get_connection_with_retries returns that connection, with any fuel of more than n.
  get_connection_with_retries-Tries :
      (env : Option Bytes) (n : ℕ) (w w' w'' : World)
      → Tries env n w w'
      → pool.async_connect (get_setup_params env) w' ≡ (ok tt, w'')
      → (fuel : ℕ) → n < fuel
      → get_connection_with_retries pool env fuel w ≡ some (ok tt, w'')
  unfolding get_connection_with_retries
  get_connection_with_retries-Tries env n w w' w'' (none_yet _) up zero h =
      absurd (omega (arith, h))
  get_connection_with_retries-Tries env n w w' w'' (none_yet _) up (suc fuel) h = rw up refl
  get_connection_with_retries-Tries env n w w' w'' (one_more k e _ _ w1 _ down waits rest) up zero
        h =
      absurd (omega (arith, h))
  get_connection_with_retries-Tries env n w w' w'' (one_more k e _ _ w1 _ down waits rest) up
        (suc fuel) h =
      rw (down, waits)
        (get_connection_with_retries-Tries env k w1 w' w'' rest up fuel (omega (arith, h)))
