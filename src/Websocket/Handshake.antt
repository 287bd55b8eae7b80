-- ===== src/Websocket/Handshake.antt =====
-- server/src/util/websocket.cpp: accept and close.
use servertech_chat.Prelude.{ℕ, Bytes, codes, ◌++◌, Option}
use servertech_chat.Error.{ErrorCode}

-- What they use of the stream of Boost.Beast. The request of the handshake is part of the stream.
pub record WebsocketStream (World : Type 0) : Type 0 where
  -- BOOST_BEAST_VERSION_STRING
  pub version : Bytes
  pub set_suggested_timeout : World → World
  -- The Server field of the response.
  pub set_decorator : Bytes → World → World
  pub async_accept : World → Option ErrorCode × World
  pub async_close : ℕ → World → Option ErrorCode × World

module _ {World : Type 0} (ws : WebsocketStream World) where
  open ws use {version, set_suggested_timeout, set_decorator, async_accept, async_close}

  unfoldable pub accept : World → Option ErrorCode × World
  accept w =
      async_accept
        (set_decorator (version ++ codes " websocket-chat-multi") (set_suggested_timeout w))

  unfoldable pub close : ℕ → World → Option ErrorCode × World
  close close_code w = async_close close_code w
