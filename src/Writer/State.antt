-- ===== src/Writer/State.antt =====
-- The object of class Writer (prototype/Writer.h) with what it inherits from class Database and
-- class WebsocketServer, and its transactions on the database. An int64_t, long or int of the
-- source is an integer; the conversions to int are written out.
use fio_relic.Base.{ℕ, Bool, List, Option}
use fio_relic.Base.Int.{ℤ}
use fio_relic.Base.Bytes.{Bytes}
use fio_relic.Tables.{Tables, Trace, Transaction, Receipt}

pub record Writer : Type 0 where
  -- class Database: the connection, and what its open transaction has written
  pub connected : Bool
  pub committed : Tables
  pub working : Tables
  -- class WebsocketServer: whether a stream is there, and the acknowledgements written to it
  pub has_websocket : Bool
  pub sent : List Bytes
  -- the options
  pub source_id : ℤ
  pub no_traces : Bool
  pub ack_every : ℤ
  pub keep_blocks : ℤ
  -- the writer's own state
  pub i_am_master : Bool
  pub just_committed : Bool
  pub retired_time : ℕ
  pub log_id : ℤ
  pub confirmed_block : ℤ
  pub irreversible : ℤ
  pub unconfirmed_block : ℤ
  pub trx_counter : ℕ
  pub blocks_counter : ℕ
  pub counter_start : ℕ
  pub insert_bkp_traces : List Trace
  pub insert_transactions : List Transaction
  pub insert_receipts : List Receipt
  pub upsert_recv_seq_max : List (Bytes × ℤ)

-- What one message meets outside: whether the connection is valid, the tables that a new session
-- sees where reconnecting succeeds, the clock in nanoseconds, the database's in seconds, and whether
-- a write to the websocket succeeds.
pub record Env : Type 0 where
  pub valid : Bool
  pub reconnects : Option Tables
  pub now : ℕ
  pub db_now : ℕ
  pub writes : Bool

-- connection->commit(), and connection->rollback()
unfoldable pub commit : Writer → Writer
commit w = record w { committed = w.working }

unfoldable pub rollback : Writer → Writer
rollback w = record w { working = w.committed }
