-- ===== src/Examples/Startup.antt =====
-- Emails, error codes, reads, and the start of the program, on concrete inputs.
use servertech_chat.Prelude.{
  ◌==◌, ◌≡◌, ◌↔◌, true, false, all, arith, codes, map, Bytes, List, [], ◌∷◌, ◌++◌, none, some, refl,
  Bool, ℕ, if◌then◌else◌,
}
use servertech_chat.Prelude.Decimal.{print_uint}
use servertech_chat.Error.{foreign, ok, err}
use servertech_chat.Email.{is_email, email_regex, local_part, domain}
use servertech_chat.Email.Expressions.{Matches, matches, derive, nullable}
use servertech_chat.Email.Described.{IsEmail, is_email-IsEmail}
use servertech_chat.Email.Shape.{is_email_lem, is_domain_byte}
use servertech_chat.Websocket.Reads.{Received, expected, reader, reads, reads_lem}
use servertech_chat.MysqlClient.Client.{setup_db, get_connection_with_retries}
use servertech_chat.Listener.Sockets.{Tcp}
use servertech_chat.Listener.{returned, accept_loop, accept_connections, launch_http_listener}
use servertech_chat.Listener.Sessions.{Served, accept_loop_iff}
use servertech_chat.Main.{Host, success, port_of, main, atoi, signed, on_signal, start_run}
use servertech_chat.Main.Port.{port_of-print_uint}
use servertech_chat.Scrypt.Numbers.{digit_run, value_of}
use servertech_chat.Examples.Backend.{Store}
use servertech_chat.Examples.Server.{start}
use servertech_chat.Examples.Database.{pool}

abbrev spaces : ℕ → Bool
spaces c = c == b' '

-- Cases that the tests of the repository list.
abbrev valid_emails : List Bytes
valid_emails =
    codes "email@example.com"
    ∷ codes "firstname.lastname@example.com"
    ∷ codes "\"email\"@example.com"
    ∷ codes "email@example-one.com"
    ∷ codes "email@example.co.jp"
    ∷ []

abbrev invalid_emails : List Bytes
invalid_emails =
    codes "plainaddress"
    ∷ codes "@example.com"
    ∷ codes "email.example.com"
    ∷ codes "email@example@example.com"
    ∷ codes ".email@example.com"
    ∷ codes "email..email@example.com"
    ∷ codes "email@example"
    ∷ codes "email@example..com"
    ∷ []

accepted : map (is_email spaces) valid_emails ≡ map (λ text. true) valid_emails
unfolding is_email email_regex matches derive nullable
accepted = refl

rejected : map (is_email spaces) invalid_emails ≡ map (λ text. false) invalid_emails
unfolding is_email email_regex matches derive nullable
rejected = refl

abbrev email : Bytes
email = codes "a@b.io"

valid : is_email spaces email ≡ true
unfolding is_email email_regex matches derive nullable
valid = refl

is_email-IsEmail_example : (is_email spaces email ≡ true) ↔ IsEmail spaces email
is_email-IsEmail_example = is_email-IsEmail spaces email

is_email_lem_example :
    (local : Bytes) × (host : Bytes) × (email ≡ local ++ b'@' ∷ host)
    × Matches (local_part spaces) local
    × Matches (domain spaces) host
    × (all is_domain_byte host ≡ true)
is_email_lem_example = is_email_lem spaces email valid

abbrev received : List Received
received =
    record { ec = none; payload = codes "one" }
    ∷ record { ec = none; payload = codes "two" }
    ∷ record { ec = some (foreign 1); payload = codes "th" }
    ∷ []

reads_lem_example :
    ((reads received (reader (codes "rest"))).0 ≡ map expected received)
    × ((reads received (reader (codes "rest"))).1.reading ≡ false)
reads_lem_example = reads_lem (codes "rest") received

-- An acceptor of which the first accept gives a connection, and the second one fails.
abbrev tcp : Tcp Store
tcp = record {
  Protocol = ℕ;
  Endpoint = ℕ;
  Socket = ℕ;
  protocol = λ port. 4;
  open_acceptor = λ p w. (none, w);
  reuse_address = λ w. (none, w);
  bind = λ port w. (none, w);
  listen = λ w. (none, w);
  async_accept =
      λ w. if w.counter == 0 then (ok 7, record w { counter = 1 }) else (err (foreign 24), w);
  spawn_session = λ sock w. w;
  spawn_accept_loop = λ w. w;
}

abbrev served : Store
served = record start { counter = 1 }

accept_loop_iff_example :
    (accept_loop pool tcp none 1 2 start ≡ some (returned (foreign 24), served)) ↔ (
      (w1 : Store) × (setup_db pool none 1 start ≡ some (ok tt, w1))
      × Served pool tcp 2 w1 (foreign 24) served)
accept_loop_iff_example = accept_loop_iff pool tcp none 1 2 start (foreign 24) served

returns : accept_loop pool tcp none 1 2 start ≡ some (returned (foreign 24), served)
unfolding accept_loop accept_connections setup_db get_connection_with_retries
returns = refl

abbrev host : Host tcp
host = record {
  Address = ℕ;
  make_address = λ text. ok 1;
  endpoint = λ address port. port;
  redis_async_run = λ config w. w;
  pool_async_run = λ w. w;
  redis_cancel = λ w. w;
  pool_cancel = λ w. w;
  stop = λ w. w;
  run = λ handler w. (ok tt, handler w);
}

abbrev arguments : List Bytes
arguments = codes "main" ∷ codes "0.0.0.0" ∷ codes "8080" ∷ codes "." ∷ []

succeeds : main pool tcp host none arguments start ≡ (ok success, start)
unfolding main port_of atoi signed digit_run value_of launch_http_listener on_signal start_run
succeeds = refl

port_of-print_uint_example : port_of (print_uint 65616) ≡ some 80
port_of-print_uint_example = port_of-print_uint 65616 (omega arith)
