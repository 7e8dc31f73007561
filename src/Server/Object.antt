-- ===== src/Server/Object.antt =====
-- The object of class WebsocketServer (prototype/WebsocketServer.h): the acceptor and the stream that
-- it points to, and what its operations do to them. Whether boost closes, or writes, is an argument.
use fio_relic.Base.{◌≡◌, List, [], ◌∷◌, ◌++◌, Bool, true, false, if◌then◌else◌, arith}
use fio_relic.Base.Bytes.{Bytes}
use fio_relic.Base.Exec.{
  Exec, Outcome, done, thrown, socket_open, socket_set_option, socket_bind, socket_listen,
  socket_close, socket_write, no_connection, from_outcome, modify, ◌>>◌,
}
use fio_relic.Writer.State.{Writer, Env}
use fio_relic.Writer.{write_ack}
use fio_relic.Server.{Setup, make_address, or_socket_error}

-- A pointer is true where it is not NULL.
pub record WebsocketServer : Type 0 where
  pub acceptor : Bool
  pub websocket : Bool
  pub binary : Bool
  pub auto_fragment : Bool
  pub written : List Bytes

abbrev pub new_server : WebsocketServer
new_server = record {
  acceptor = false;
  websocket = false;
  binary = true;
  auto_fragment = true;
  written = [];
}

-- The statements behind the address: the acceptor is there from the first statement on that may fail.
unfoldable pub open_acceptor : Setup → Exec WebsocketServer (Unit {0})
unfolding or_socket_error
open_acceptor a = do
  modify (λ s. record s { acceptor = true })
  from_outcome (or_socket_error a.opens socket_open)
  from_outcome (or_socket_error a.sets_option socket_set_option)
  from_outcome (or_socket_error (a.binds a.port) socket_bind)
  from_outcome (or_socket_error a.listens socket_listen)

-- WebsocketServer::initialize
unfoldable pub start : Setup → Exec WebsocketServer (Unit {0})
unfolding make_address open_acceptor
start a = do from_outcome (make_address a); open_acceptor a

-- websocket = new websocket::stream(…)
unfoldable pub attach : WebsocketServer → WebsocketServer
attach s = record s { websocket = true }

-- if (pointer) pointer->close(ec); if (ec) …
unfoldable pub close_answer : Bool → Bool → Outcome (Unit {0})
unfolding or_socket_error
close_answer false closes = done tt
close_answer true closes = or_socket_error closes socket_close

-- WebsocketServer::Close, which leaves the pointers.
unfoldable pub close_object : Bool → Bool → Exec WebsocketServer (Unit {0})
unfolding close_answer
close_object acceptor_closes stream_closes s =
    (do
      from_outcome (close_answer s.acceptor acceptor_closes)
      from_outcome (close_answer s.websocket stream_closes))
      s

-- WebsocketServer::Write
unfoldable pub write_object : Bool → Bytes → Exec WebsocketServer (Unit {0})
write_object writes text s =
    if s.websocket
    then (if writes
        then (done tt, record s { written = s.written ++ text ∷ [] })
        else (thrown socket_write, s))
    else (thrown no_connection, s)

-- The destructor, which catches what Close throws.
unfoldable pub destroy_object : Bool → Bool → WebsocketServer → WebsocketServer
unfolding close_object
destroy_object acceptor_closes stream_closes s = (close_object acceptor_closes stream_closes s).1

-- The stream and what was written to it are those of the writer.
pub record IsServerOf (s : WebsocketServer) (w : Writer) : Type 0 where
  pub stream : s.websocket ≡ w.has_websocket
  pub texts : s.written ≡ w.sent

-- Writer's acknowledgement is Write of its server: both end alike, and the server stays that of the
-- writer.
pub write_object_lem :
    (env : Env) (text : Bytes) (s : WebsocketServer) (w : Writer)
    → IsServerOf s w
    → ((write_object env.writes text s).0 ≡ (write_ack env text w).0)
      × IsServerOf (write_object env.writes text s).1 (write_ack env text w).1
unfolding write_object write_ack
write_object_lem env text s w h = ground arith
