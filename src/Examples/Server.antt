-- ===== src/Examples/Server.antt =====
-- The server of the examples fulfils the laws that the theorems ask for.
use servertech_chat.Prelude.{◌≡◌, true, Bytes, codes, [], ◌∷◌, Option, none, some, refl}
use servertech_chat.Prelude.Decimal.{ℤ, pos, fits_int64, print_int}
use servertech_chat.Error.{ok}
use servertech_chat.RedisSerialization.{RedisWireMessage}
use servertech_chat.RedisSerialization.Grammar.{Response, nodes_of}
use servertech_chat.RedisClient.{set_command, get_command}
use servertech_chat.RedisClient.Connection.{value, RedisConnection}
use servertech_chat.SessionStore.{
  session_id_size, get_redis_key, generate_session_id, generate_loop, round, generate_identifier,
}
use servertech_chat.RedisClient.{set_nonexisting_key}
use servertech_chat.Base64.{base64_encode, encode}
use servertech_chat.Base64.Tables.{forward}
use servertech_chat.CookieAuthService.{session_duration}
use servertech_chat.SessionStore.Backend.{Random}
use servertech_chat.SessionStore.Laws.{SessionLaws, SetAnswer, taken, created}
use servertech_chat.Examples.Backend.{
  Store, fill, draw, exec_string, exec_int, set_if_absent, number_of, read_int-print_int,
  drawn_size, drawn_bytes,
}

abbrev pub wire : RedisWireMessage
wire = record { content = codes "hello"; timestamp = pos 1000; user_id = pos 7 }

abbrev pub stream : Response
stream = record {
  entries =
      record {
        id = codes "1-0";
        payload = codes "{}";
        id_size = 1;
        key_size = 1;
        payload_size = 1;
        entry_text = [];
        list_text = [];
      }
      ∷ [];
  size = 1;
  text = [];
}

abbrev pub connection : RedisConnection
connection = record {
  World = Store;
  async_exec = λ commands w. (ok (value (nodes_of (stream ∷ []))), w);
  async_exec_string = exec_string;
  async_exec_int = exec_int;
  parse_payload = λ text. ok wire;
  json_of = λ msg. codes "{}";
}

abbrev pub random : Random
random = record { redis = connection; rand_bytes = draw }

set_answer :
    (key val : Bytes) (w : Store) (o : Option Bytes)
    → w.keys key ≡ o
    → SetAnswer random
        (λ w. w.keys)
        key
        val
        w
        (set_if_absent key val w o).1
        (set_if_absent key val w o).0
set_answer key val w none e = created (codes "OK") e λ k. refl
set_answer key val w (some old) e = taken (λ absent. cc (e, absent)) λ k. refl

get_answer :
    (key : Bytes) (n : ℤ) (w : Store)
    → fits_int64 n ≡ true
    → w.keys key ≡ some (print_int n)
    → (exec_int (codes "GET" ∷ key ∷ []) w).0 ≡ ok (value (some n))
get_answer key n w f h = rw (h, number_of, read_int-print_int n f) refl

get_absent :
    (key : Bytes) (w : Store)
    → w.keys key ≡ none
    → (exec_int (codes "GET" ∷ key ∷ []) w).0 ≡ ok (value none)
get_absent key w h = rw h refl

pub laws : SessionLaws random
unfolding set_command get_command
laws = record {
  lookup = λ w. w.keys;
  lookup-rand_bytes = λ n w k. refl;
  rand_bytes-IsByte = λ w bs e. drawn_bytes w bs e;
  length-rand_bytes = λ w bs e. drawn_size w bs e;
  set_answer = λ key val ttl w. set_answer key val w (w.keys key) refl;
  get_answer = λ key n w f h. get_answer key n w f h;
  get_absent = λ key w h. get_absent key w h;
}

-- The session that the examples draw first, in a server that holds no key.
abbrev pub start : Store
start = record { keys = λ k. none; counter = 0; rows = []; fit = tt }

abbrev pub first_id : Bytes
first_id = base64_encode (fill session_id_size 0) true

abbrev pub after : Bytes → Store
after val = (set_if_absent (get_redis_key first_id) val (draw session_id_size start).1 none).1

pub first_session :
    generate_session_id random 1 (pos 7) session_duration start
    ≡ some (ok first_id, after (print_int (pos 7)))
unfolding generate_session_id generate_loop round generate_identifier base64_encode encode fill
    forward set_nonexisting_key set_command
first_session = refl

pub start_empty : (k : Bytes) → laws.lookup start k ≡ none
unfolding laws
start_empty k = refl
