-- ===== src/Main.antt =====
-- server/src/main.cpp.
pub mod Port
pub mod Outcome
use servertech_chat.Prelude.{
  ℕ, ◌-◌, ◌%◌, ◌^◌, ltb, leb, ◌==◌, ◌||◌, ◌&&◌, Bool, Bytes, codes, List, [], ◌∷◌, Option, none,
  some, if◌then◌else◌,
}
use servertech_chat.Prelude.Decimal.{ℤ, pos, negsuc, neg}
use servertech_chat.Error.{ErrorCode, Result, ok, err, throws, undefined}
use servertech_chat.Scrypt.Numbers.{digit_run, value_of}
use servertech_chat.RedisClient.Running.{RedisConfig, redis_config}
use servertech_chat.MysqlClient.Pool.{MysqlPool}
use servertech_chat.Listener.Sockets.{Tcp}
use servertech_chat.Listener.{launch_http_listener}

-- std::isspace, and std::atoi: `none` is a value outside of int, which has no meaning.
abbrev pub is_space : ℕ → Bool
is_space c = c == b' ' || leb 9 c && leb c 13

abbrev pub positive : ℕ → Option ℤ
positive n = if ltb n (2 ^ 31) then some (pos n) else none

abbrev pub negative : ℕ → Option ℤ
negative n = if leb n (2 ^ 31) then some (neg n) else none

abbrev pub digits_value : Bytes → ℕ
digits_value from = value_of 0 (digit_run from).0

unfoldable pub signed : Bytes → Option ℤ
unfolding digit_run value_of
signed [] = positive 0
signed (c ∷ from) =
    if c == b'-'
    then negative (digits_value from)
    else if c == b'+'
    then positive (digits_value from)
    else positive (digits_value (c ∷ from))

unfoldable pub atoi : Bytes → Option ℤ
unfolding signed
atoi [] = signed []
atoi (c ∷ from) = let rest = atoi from in if is_space c then rest else signed (c ∷ from)

-- static_cast<unsigned short>
abbrev pub to_unsigned_short : ℤ → ℕ
to_unsigned_short (pos n) = n % 2 ^ 16
to_unsigned_short (negsuc n) = 2 ^ 16 - 1 - n % 2 ^ 16

abbrev pub converted : Option ℤ → Option ℕ
converted none = none
converted (some n) = some (to_unsigned_short n)

unfoldable pub port_of : Bytes → Option ℕ
unfolding atoi
port_of text = converted (atoi text)

-- What main uses of Boost.Asio and of the two clients.
pub record Host {World : Type 0} (tcp : Tcp World) : Type 1 where
  pub Address : Type 0
  -- boost::asio::ip::make_address, which throws.
  pub make_address : Bytes → Result ErrorCode Address
  pub endpoint : Address → ℕ → tcp.Endpoint
  -- async_run of the connection to Redis, and the spawn of a coroutine with that of the pool.
  pub redis_async_run : RedisConfig → World → World
  pub pool_async_run : World → World
  pub redis_cancel : World → World
  pub pool_cancel : World → World
  pub stop : World → World
  -- io_context::run, with the handler of the signals that has been set. An exception of a coroutine
  -- leaves it.
  pub run : (World → World) → World → Result ErrorCode (Unit {0}) × World

-- How main ends: EXIT_FAILURE with the usage, or behind a listener that is not launched, and
-- EXIT_SUCCESS.
pub data Exit : Type 0 where
  usage : Exit
  not_launched : ErrorCode → Exit
  success : Exit

module _ {World : Type 0} (pool : MysqlPool World) (tcp : Tcp World) (host : Host tcp) where
  open host use {
    Address, make_address, endpoint, redis_async_run, pool_async_run, redis_cancel, pool_cancel,
    stop, run,
  }

  -- The handler of SIGINT and SIGTERM.
  unfoldable pub on_signal : World → World
  on_signal w = stop (pool_cancel (redis_cancel w))

  -- start_run of the clients of Redis and of MySQL.
  unfoldable pub start_run : Option Bytes → World → World
  unfolding redis_config
  start_run env w = pool_async_run (redis_async_run (redis_config env) w)

  -- From the end of run on,
  abbrev pub with_run : Result ErrorCode (Unit {0}) × World → Result ErrorCode Exit × World
  with_run (ok done, w) = (ok success, w)
  with_run (err e, w) = (err e, w)
  with_run (throws what, w) = (throws what, w)
  with_run (undefined, w) = (undefined, w)

  -- from the answer of launch_http_listener on,
  abbrev pub with_listener : Option ErrorCode × World → Result ErrorCode Exit × World
  with_listener (some ec, w) = (ok (not_launched ec), w)
  with_listener (none, w) = with_run (run on_signal w)

  -- from the address on,
  abbrev pub with_address :
      Option Bytes → ℕ → Result ErrorCode Address → World → Result ErrorCode Exit × World
  with_address env port (ok address) w =
      with_listener (launch_http_listener pool tcp (endpoint address port) (start_run env w))
  with_address env port (err e) w = (err e, w)
  with_address env port (throws what) w = (throws what, w)
  with_address env port undefined w = (undefined, w)

  -- from the port on,
  abbrev pub with_port : Option Bytes → Bytes → Option ℕ → World → Result ErrorCode Exit × World
  with_port env ip none w = (undefined, w)
  with_port env ip (some port) w = with_address env port (make_address ip) w

  -- and from the arguments on, of which the first is the name of the program.
  unfoldable pub main : Option Bytes → List Bytes → World → Result ErrorCode Exit × World
  unfolding port_of launch_http_listener on_signal start_run
  main env (name ∷ ip ∷ port ∷ doc_root ∷ []) w = with_port env ip (port_of port) w
  main env _ w = (ok usage, w)
