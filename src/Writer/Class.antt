-- ===== src/Writer/Class.antt =====
-- class Writer as a whole (prototype/Writer.cpp): the functions that its header declares, in the order
-- of the source and in three groups.
use fio_relic.Base.{ℕ, List, Bool, Option}
use fio_relic.Base.Int.{ℤ}
use fio_relic.Base.Bytes.{Bytes}
use fio_relic.Base.Exec.{Exec, Outcome}
use fio_relic.External.{Rapidjson, ResultSets}
use fio_relic.Options.Parsing.{Spec, ProgramOptions}
use fio_relic.Server.{Setup, Connection}
use fio_relic.Tables.{Tables}
use fio_relic.Writer.State.{Writer, Env}
use fio_relic.Writer.Messages.{get_block_time}
use fio_relic.Writer.Batch.{fork_traces, save_trace, send_traces_batch}
use fio_relic.Writer.{on_read, on_disconnect, process_data}
use fio_relic.Writer.Startup
use fio_relic.Writer.Startup.{Options}
use fio_relic.Writer.Configuration.{Settings, writer_options, parse_options}

-- A message with what is met while it is processed.
abbrev pub Message : Type 0
Message = ℕ × Env × Bytes

-- The functions for incoming messages and for the end of a connection.
pub record Handlers (Value : Type 0) : Type 0 where
  pub on_read : Message → Exec Writer (Unit {0})
  pub on_disconnect : Exec Writer (Unit {0})
  pub close : Option Bool → Option Bool → Bool → Exec Writer (Unit {0})
  pub get_block_time : Value → Outcome Bytes
  pub process_data : Message → Exec Writer ℤ

-- The functions for the start.
pub record Lifecycle : Type 0 where
  pub get_options_description : List Spec
  pub get_options : ProgramOptions → List Bytes → Bytes → Settings → Bool × Settings
  pub sanity_check : Exec Writer (Unit {0})
  pub initialize : Option Options → Option Tables → Exec Writer (Unit {0})
  pub run :
      Option Options
      → Option Tables
      → Setup
      → List (Option (Connection Message))
      → Exec Writer (Unit {0})
  pub run_async : Option Options → Option Tables → Setup → Exec Writer (Unit {0})

-- The functions for the queues of traces.
pub record TraceQueues (Value : Type 0) : Type 0 where
  pub fork_traces : ℤ → Writer → Writer
  pub save_trace : ℕ → ℤ → Bytes → Value → Bytes → Exec Writer (Unit {0})
  pub send_traces_batch : Writer → Writer

module _ (rs : ResultSets) (J : Rapidjson) where
  abbrev pub handlers : Handlers J.Value
  handlers = record {
    on_read = λ (rounds, env, buffer). on_read rs J rounds env buffer;
    on_disconnect = on_disconnect;
    close = Startup.close;
    get_block_time = get_block_time J;
    process_data = λ (rounds, env, buffer). process_data rs J rounds env buffer;
  }

  abbrev pub lifecycle : Lifecycle
  lifecycle = record {
    get_options_description = writer_options;
    get_options = parse_options;
    sanity_check = Startup.sanity_check rs;
    initialize = Startup.initialize rs;
    run = Startup.run rs handlers.on_read handlers.on_disconnect;
    run_async = Startup.run_async rs handlers.on_read handlers.on_disconnect;
  }

  abbrev pub trace_queues : TraceQueues J.Value
  trace_queues = record {
    fork_traces = fork_traces;
    save_trace = save_trace J;
    send_traces_batch = send_traces_batch;
  }
