-- ===== src/Listener/Sockets.antt =====
-- What the listener uses of Boost.Asio. There is one acceptor, which is of the outside.
use servertech_chat.Prelude.{Option}
use servertech_chat.Error.{ErrorCode, Result}

pub record Tcp (World : Type 0) : Type 1 where
  pub Protocol : Type 0
  pub Endpoint : Type 0
  pub Socket : Type 0
  pub protocol : Endpoint → Protocol
  pub open_acceptor : Protocol → World → Option ErrorCode × World
  pub reuse_address : World → Option ErrorCode × World
  pub bind : Endpoint → World → Option ErrorCode × World
  pub listen : World → Option ErrorCode × World
  -- async_accept: an exception is what cancels the coroutine when the io_context is destroyed.
  pub async_accept : World → Result ErrorCode Socket × World
  -- spawn of a coroutine with run_http_session, and of one with accept_loop.
  pub spawn_session : Socket → World → World
  pub spawn_accept_loop : World → World
