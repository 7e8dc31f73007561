-- ===== src/Server/Class.antt =====
-- class WebsocketServer as a whole (prototype/WebsocketServer.cpp): the functions that its header
-- declares, for the object of Server/Object and the handlers of a derived class.
use fio_relic.Base.{List, Bool, Option}
use fio_relic.Base.Bytes.{Bytes}
use fio_relic.Base.Exec.{Exec, ◌>>◌}
use fio_relic.Server
use fio_relic.Server.{Setup, Connection, make_address, or_socket_error}
use fio_relic.Server.Object.{WebsocketServer, start, attach, close_object, write_object}

-- The virtual functions of the derived class, for messages M.
pub record Virtual (S M : Type 0) : Type 0 where
  pub on_read : M → Exec S (Unit {0})
  pub on_disconnect : Exec S (Unit {0})

-- The functions, in the order of the source.
pub record ServerClass (S M : Type 0) : Type 0 where
  pub initialize : Setup → Exec S (Unit {0})
  pub run_async : Setup → Exec S (Unit {0})
  pub accept_async : Exec S (Unit {0})
  pub on_accept : Bool → Connection M → Exec S (Unit {0})
  pub read : Connection M → Exec S (Unit {0})
  pub run : Setup → List (Option (Connection M)) → Exec S (Unit {0})
  pub close : Bool → Bool → Exec S (Unit {0})
  pub write : Bool → Bytes → Exec S (Unit {0})

module _ {M : Type 0} (v : Virtual WebsocketServer M) where
  abbrev pub server_class : ServerClass WebsocketServer M
  server_class = record {
    initialize = start;
    run_async = λ a. (do start a; Server.accept_async attach v.on_read v.on_disconnect);
    accept_async = Server.accept_async attach v.on_read v.on_disconnect;
    on_accept = Server.on_accept attach v.on_read v.on_disconnect;
    read = Server.read attach v.on_read v.on_disconnect;
    run = λ a cs. (do start a; Server.serve attach v.on_read v.on_disconnect cs);
    close = close_object;
    write = write_object;
  }
