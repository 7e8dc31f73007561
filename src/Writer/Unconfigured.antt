-- ===== src/Writer/Unconfigured.antt =====
-- Writer::Run where getOptions returned false (prototype/Writer.cpp): initialize returns without a
-- connection, and the server is started all the same.
use fio_relic.Base.{false, ◌≡◌, refl, List, ◌∷◌, true, Option, none, some}
use fio_relic.Base.Int.{pos}
use fio_relic.Base.Bytes.{codes, bytes_eq}
use fio_relic.Base.Exec.{thrown, null_pointer}
use fio_relic.External.{Rapidjson, ResultSets}
use fio_relic.Server
use fio_relic.Server.{Setup, Connection}
use fio_relic.Tables.{Tables}
use fio_relic.Writer.{on_read, process_data, ensure_connection, verify_master}
use fio_relic.Writer.Startup
use fio_relic.Writer.Startup.{new_writer}
use fio_relic.Writer.Class.{Message, lifecycle}

-- Any address, and every call of the acceptor succeeds.
abbrev pub listening : Setup
listening = record {
  ip = codes "0";
  port = pos 0;
  is_address = λ text. false;
  opens = true;
  sets_option = true;
  binds = λ port. true;
  listens = true;
}

-- A writer whose options cannot be parsed still listens, and the first message of its first
-- connection, whatever it is, ends it with the use of a null connection.
pub run-unconfigured :
    (rs : ResultSets) (J : Rapidjson) (driver : Option Tables) (message : Message)
    (messages : List Message) (connections : List (Option (Connection Message))) (nothing : Tables)
    → ((lifecycle rs J).run none driver listening
        (some (record { handshake = true; messages = message ∷ messages }) ∷ connections)
        (new_writer nothing)).0
      ≡ thrown null_pointer
unfolding Startup.run Startup.initialize Startup.get_options Server.run Server.initialize
    Server.make_address bytes_eq Server.or_socket_error Server.serve Server.read Server.read_loop
    on_read process_data ensure_connection verify_master
run-unconfigured rs J driver (rounds, env, buffer) messages connections nothing = refl
