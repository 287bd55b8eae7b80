-- ===== src/Lib.antt =====
-- Verification of the ServerTech chat server (server/).
--
-- The server keeps chat rooms. A user creates an account or logs in over HTTP, gets a session
-- cookie, and opens a websocket over which messages are exchanged; MySQL holds the users, Redis the
-- sessions and the messages. The parts, and the files that model them:
--
--   server/include/error.hpp, src/error.cpp       Error
--   server/include/timestamp.hpp                  Timestamp
--   server/include/business_types.hpp             BusinessTypes
--   server/src/util/base64.cpp                    Base64 and the files below it
--   server/src/util/cookie.cpp                    Cookie
--   server/src/util/scrypt.cpp, password_hash.cpp Scrypt
--   server/src/util/email.cpp                     Email
--   server/include/util/async_mutex.hpp           AsyncMutex
--   server/src/services/redis_serialization.cpp   RedisSerialization
--   server/src/services/redis_client.cpp          RedisClient
--   server/src/services/session_store.cpp         SessionStore
--   server/src/services/cookie_auth_service.cpp   CookieAuthService
--   server/src/services/room_history_service.cpp  RoomHistoryService
--   server/src/services/pubsub_service.cpp        PubsubService
--   server/src/services/mysql_client.cpp          MysqlClient
--   server/src/api/api_types.cpp                  ApiTypes
--   server/src/util/websocket.cpp                 Websocket
--   server/src/api/chat_websocket.cpp             ChatWebsocket, ChatRoom
--   server/src/request_context.cpp                RequestContext
--   server/src/static_files.cpp                   StaticFiles
--   server/src/api/auth.cpp                       Auth
--   server/src/http_session.cpp                   HttpSession
--   server/src/shared_state.cpp                   SharedState
--   server/src/listener.cpp                       Listener
--   server/src/main.cpp                           Main
--
-- Prelude holds the names, tests and lemmas that all of them share, and Exec the composition of
-- operations that talk to the outside. Examples runs the development on concrete inputs.
--
-- A definition has the name of the function that it models, in this notation. Where a function is
-- long it is cut at its returns, and the pieces say in a comment where they begin. Bytes are
-- natural numbers, a std::string is a list of them, and a pointer into a buffer is the rest of the
-- list. A signed integer is a ℤ of Prelude/Decimal, with `fits_int64` where the width matters. A
-- result of Boost.System is a Result, which has two more cases: an exception that is thrown, and an
-- access that C++ leaves undefined. The outside (Redis, MySQL, the random generator) is a state
-- `World` that an operation takes and returns, also where it fails. A header field that a request
-- may lack is an Option.
--
-- A chat session is modelled twice. ChatWebsocket/Handlers has run and the handlers of the events
-- as functions of the outside that one session sees; ChatWebsocket/Session has the same run as
-- steps between two suspensions, interleaved with the calls of on_message that other sessions
-- start, which is where the order of the writes to one websocket is decided. A websocket there is
-- its mutex with the calls of write that wait and the frames that the stream was given. ChatRoom puts
-- all the sessions of the server together: they share the publish-subscribe service, and the calls
-- of on_message that it has started run in any order.
--
-- SharedState puts the endpoints over one outside: the same state holds the sessions of Redis and
-- the table of users, so that what one request leaves behind is what a later one finds.
--
-- Loops over text and lists are structural. Some run on fuel: cookie_list takes two more than the
-- length of the header, which Cookie/Parse shows to be enough; and generate_session_id, which draws
-- identifiers until one is new and has no bound in the source, says `none` when its fuel is used
-- up, which SessionStore/Sessions shows to happen only if every identifier drawn existed. The
-- retries of get_connection_with_retries have no bound in the source either, and
-- MysqlClient/Retries says how many are enough; the loop of a chat session ends with its client,
-- and its fuel is the number of events, that of run_http_session the number of requests, and that of
-- the accept loop the number of connections.
--
-- Parameters, with what is relied on: the Redis connection and its JSON (RedisClient/Connection,
-- SessionStore/Laws: SET NX, GET, random bytes of the size asked for), the channel of Boost.Asio
-- (AsyncMutex/Waiters), the multi-index container (PubsubService/Index), OpenSSL's scrypt
-- (Scrypt/OpenSsl), the statements of Boost.MySQL (MysqlClient/Pool, MysqlClient/Table: what SQL
-- says of the table of users, and the codes and texts of MySQL's errors), the values of Boost.JSON
-- (ApiTypes/Json, ApiTypes/Incoming), the streams of Boost.Beast (HttpSession/Session), the
-- acceptor and the io_context of Boost.Asio (Listener/Sockets, Main), Boost.URL, the file system,
-- and what a white space is for ICU (Email). SharedState/Laws has what the endpoints together rely on.
-- Examples/Server, Examples/Database and Examples/Services have instances of those that the
-- examples need.
--
-- Not modelled: what a user agent makes of the attributes of a cookie, of which the theorems take the
-- name and the value alone; the reconnection of the clients of Redis and MySQL, which is Boost's; the
-- flag that a response builder asserts to be used once; the logs of requests and messages; and the
-- web client.
pub mod Prelude
pub mod Error
pub mod Base64
pub mod Cookie
pub mod Timestamp
pub mod BusinessTypes
pub mod RedisSerialization
pub mod ApiTypes
pub mod AsyncMutex
pub mod PubsubService
pub mod Exec
pub mod RedisClient
pub mod SessionStore
pub mod MysqlClient
pub mod CookieAuthService
pub mod Scrypt
pub mod Email
pub mod RequestContext
pub mod Auth
pub mod SharedState
pub mod RoomHistoryService
pub mod StaticFiles
pub mod HttpSession
pub mod Listener
pub mod Main
pub mod Websocket
pub mod ChatWebsocket
pub mod ChatRoom
pub mod Examples
