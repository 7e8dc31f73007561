-- ===== src/Server.antt =====
-- class WebsocketServer (prototype/WebsocketServer.cpp and WebsocketServer.h), for any handlers
-- onRead and onDisconnect of a derived class over its state. What boost answers to each call is an
-- argument.
pub mod Service
pub mod Object
pub mod Class
use fio_relic.Base.{Bool, true, false, not, ◌&&◌, List, [], ◌∷◌, Option, none, some, if◌then◌else◌}
use fio_relic.Base.Int.{ℤ}
use fio_relic.Base.Bytes.{Bytes, codes, bytes_eq}
use fio_relic.Base.Exec.{
  Exec, Outcome, done, thrown, Fault, bad_address, socket_open, socket_set_option, socket_bind,
  socket_listen, socket_accept, socket_handshake, socket_close, fix_me, modify, pure, throw,
  from_outcome, ◌>>=◌, ◌>>◌,
}

-- The ip and the port that are given, the texts that make_address takes for an address, the ports that
-- bind takes, and whether open, set_option and listen of the acceptor succeed.
pub record Setup : Type 0 where
  pub ip : Bytes
  pub port : ℤ
  pub is_address : Bytes → Bool
  pub opens : Bool
  pub sets_option : Bool
  pub binds : ℤ → Bool
  pub listens : Bool

-- if (ec) THROW_SocketException2(action, ec)
unfoldable pub or_socket_error : Bool → Fault → Outcome (Unit {0})
or_socket_error true e = done tt
or_socket_error false e = thrown e

is_empty : Bytes → Bool
is_empty [] = true
is_empty (b ∷ bs) = false

-- The address of the endpoint: any for an empty text and for that of INADDR_ANY.
unfoldable pub endpoint_address : Bytes → Option Bytes
unfolding is_empty
endpoint_address ip = if not (is_empty ip) && not (bytes_eq ip (codes "0")) then some ip else none

-- endpoint.address(net::ip::make_address(ip)), which throws for a text that is no address.
unfoldable pub make_address : Setup → Outcome (Unit {0})
unfolding endpoint_address or_socket_error
make_address a = elim (endpoint_address a.ip) [
  | none ↦ done tt
  | some ip ↦ or_socket_error (a.is_address ip) bad_address
]

-- A connection as the loop of `read` sees it: whether the handshake succeeds, and what is read until
-- a read fails.
pub record Connection (M : Type 0) : Type 0 where
  pub handshake : Bool
  pub messages : List M

module _ {S M : Type 0} (attach : S → S) (on_read : M → Exec S (Unit {0}))
    (on_disconnect : Exec S (Unit {0})) where
  -- WebsocketServer::initialize
  unfoldable pub initialize : Setup → Exec S (Unit {0})
  unfolding make_address or_socket_error
  initialize a = do
    from_outcome (make_address a)
    from_outcome (or_socket_error a.opens socket_open)
    from_outcome (or_socket_error a.sets_option socket_set_option)
    from_outcome (or_socket_error (a.binds a.port) socket_bind)
    from_outcome (or_socket_error a.listens socket_listen)

  -- WebsocketServer::acceptAsync: its first statement throws.
  unfoldable pub accept_async : Exec S (Unit {0})
  accept_async = throw fix_me

  -- The endless loop of WebsocketServer::read; the list ends where a read fails.
  unfoldable pub read_loop : List M → Exec S (Unit {0})
  unfolding accept_async
  read_loop [] = do on_disconnect; accept_async
  read_loop (m ∷ ms) = let rest = read_loop ms in (do on_read m; rest)

  -- WebsocketServer::read; `attach` is what `websocket = new …` does to the state.
  unfoldable pub read : Connection M → Exec S (Unit {0})
  unfolding read_loop or_socket_error
  read c = do
    modify attach
    from_outcome (or_socket_error c.handshake socket_handshake)
    read_loop c.messages

  -- WebsocketServer::onAccept
  unfoldable pub on_accept : Bool → Connection M → Exec S (Unit {0})
  unfolding read
  on_accept ok c = do from_outcome (or_socket_error ok socket_accept); read c

  -- The loop of WebsocketServer::Run; `none` is an accept that fails, and at the end of the list the
  -- server waits.
  unfoldable pub serve : List (Option (Connection M)) → Exec S (Unit {0})
  unfolding read
  serve [] = pure tt
  serve (none ∷ cs) = throw socket_accept
  serve (some c ∷ cs) = let rest = serve cs in (do read c; rest)

  -- WebsocketServer::Run
  unfoldable pub run : Setup → List (Option (Connection M)) → Exec S (Unit {0})
  unfolding initialize serve
  run a cs = do initialize a; serve cs

  -- WebsocketServer::RunAsync
  unfoldable pub run_async : Setup → Exec S (Unit {0})
  unfolding initialize accept_async
  run_async a = do initialize a; accept_async

-- WebsocketServer::Close: `none` is no acceptor or no stream, and the Boolean says whether closing
-- succeeds.
unfoldable pub close : Option Bool → Option Bool → Outcome (Unit {0})
unfolding or_socket_error
close none none = done tt
close none (some ok) = or_socket_error ok socket_close
close (some false) stream = thrown socket_close
close (some true) none = done tt
close (some true) (some ok) = or_socket_error ok socket_close
