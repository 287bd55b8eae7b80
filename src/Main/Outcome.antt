-- ===== src/Main/Outcome.antt =====
-- How the program ends.
use servertech_chat.Prelude.{ℕ, ◌≡◌, ◌↔◌, refl, ap, ◌∙◌, Bytes, List, [], ◌∷◌, Option, none, some}
use servertech_chat.Error.{ErrorCode, Result, ok, err, throws, undefined}
use servertech_chat.MysqlClient.Pool.{MysqlPool}
use servertech_chat.Listener.Sockets.{Tcp}
use servertech_chat.Listener.{launch_http_listener}
use servertech_chat.Main.{
  Host, success, port_of, on_signal, start_run, with_run, with_listener, with_port, main,
}

module _ {World : Type 0} (pool : MysqlPool World) (tcp : Tcp World) (host : Host tcp)
    (env : Option Bytes) where
  open host use {Address, make_address, endpoint, run}

  abbrev launch : Address → ℕ → World → Option ErrorCode × World
  launch address port w =
      launch_http_listener pool tcp (endpoint address port) (start_run pool tcp host env w)

  -- The program has started: three arguments, of which two are an address and a port that the
  -- listener is launched at, behind the start of the clients of Redis and MySQL. From there, the
  -- io_context has run to its end.
  pub record Starts (args : List Bytes) (w w' : World) : Type 0 where
    pub name : Bytes
    pub ip : Bytes
    pub port_text : Bytes
    pub doc_root : Bytes
    pub given : args ≡ name ∷ ip ∷ port_text ∷ doc_root ∷ []
    pub port : ℕ
    pub has_port : port_of port_text ≡ some port
    pub address : host.Address
    pub has_address : make_address ip ≡ ok address
    pub launched : (launch address port w).0 ≡ none
    pub runs : run (on_signal pool tcp host) (launch address port w).1 ≡ (ok tt, w')

  ended :
      (out : Result ErrorCode (Unit {0}) × World) (w' : World)
      → with_run pool tcp host out ≡ (ok success, w')
      → out ≡ (ok tt, w')
  ended (ok done, w) w' h = ap (λ x. (ok tt, x.1)) h
  ended (err e, w) w' h = cc h
  ended (throws what, w) w' h = cc h
  ended (undefined, w) w' h = cc h

  launched_of :
      (out : Option ErrorCode × World) (w' : World)
      → with_listener pool tcp host out ≡ (ok success, w')
      → (out.0 ≡ none) × (run (on_signal pool tcp host) out.1 ≡ (ok tt, w'))
  launched_of (some ec, w) w' h = cc h
  launched_of (none, w) w' h = (refl, ended (run (on_signal pool tcp host) w) w' h)

  listened :
      (out : Option ErrorCode × World) (w' : World)
      → out.0 ≡ none
      → run (on_signal pool tcp host) out.1 ≡ (ok tt, w')
      → with_listener pool tcp host out ≡ (ok success, w')
  listened (some ec, w) w' h k = cc h
  listened (none, w) w' h k = ap (with_run pool tcp host) k

  given_four :
      (name ip port_text doc_root : Bytes) (w w' : World) (port : Option ℕ)
      (address : Result ErrorCode Address)
      → port_of port_text ≡ port
      → make_address ip ≡ address
      → with_port pool tcp host env ip port w ≡ (ok success, w')
      → Starts (name ∷ ip ∷ port_text ∷ doc_root ∷ []) w w'
  given_four name ip port_text doc_root w w' none address e k h = cc h
  given_four name ip port_text doc_root w w' (some port) (ok address) e k h =
      let (launched, runs) = launched_of (launch address port w) w' (rw k at h) in
      record {
        name = name;
        ip = ip;
        port_text = port_text;
        doc_root = doc_root;
        given = refl;
        port = port;
        has_port = e;
        address = address;
        has_address = k;
        launched = launched;
        runs = runs;
      }
  given_four name ip port_text doc_root w w' (some port) (err x) e k h = cc (rw k at h)
  given_four name ip port_text doc_root w w' (some port) (throws x) e k h = cc (rw k at h)
  given_four name ip port_text doc_root w w' (some port) undefined e k h = cc (rw k at h)

  -- main ends with EXIT_SUCCESS exactly if it was given three arguments, of which two are an address
  -- and a port that the listener is launched at, behind the start of the clients of Redis and MySQL,
  -- and the io_context, with the handler of the signals, has then run to its end.
  main_iff :
      (args : List Bytes) (w w' : World)
      → (main pool tcp host env args w ≡ (ok success, w')) ↔ Starts args w w'
  unfolding main
  main_iff args w w' = (
    only args,
    λ s.
        ap (λ x. main pool tcp host env x w) s.given
        ∙ (rw (s.has_port, s.has_address)
            (listened (launch s.address s.port w) w' s.launched s.runs)),
  )
    where
      only :
          (args : List Bytes) → main pool tcp host env args w ≡ (ok success, w') → Starts args w w'
      only [] h = cc h
      only (a ∷ []) h = cc h
      only (a ∷ b ∷ []) h = cc h
      only (a ∷ b ∷ c ∷ []) h = cc h
      only (a ∷ b ∷ c ∷ d ∷ e ∷ rest) h = cc h
      only (name ∷ ip ∷ port_text ∷ doc_root ∷ []) h =
          given_four name ip port_text doc_root w w' (port_of port_text) (make_address ip) refl refl
            h
