-- ===== src/Writer/Startup.antt =====
-- The start of a Writer: getOptions, sanityCheck, initialize and Run of prototype/Writer.cpp, with
-- Database::Initialize and Database::Close (prototype/Database.cpp) and Writer::Close.
use fio_relic.Base.{
  ◌≡◌, arith, List, [], ◌∷◌, Bool, true, false, not, ◌&&◌, ◌||◌, Option, none, some, if◌then◌else◌,
  keep_if,
}
use fio_relic.Base.Int.{ℤ, pos, negsuc, eqb_ℤ, to_int32}
use fio_relic.Base.Bytes.{Bytes}
use fio_relic.Base.Exec.{
  Exec, Outcome, done, thrown, no_master, many_masters, many_slaves, source_not_defined,
  master_not_started, sql_error, from_outcome, from_option, or_throw, modify, continue, ◌>>=◌, ◌>>◌,
}
use fio_relic.External.{ResultSets}
use fio_relic.Tables.{Tables, SyncRow, has_source}
use fio_relic.Cleaner.{kept_blocks}
use fio_relic.Server
use fio_relic.Server.{Setup, Connection}
use fio_relic.Writer.State.{Writer, commit}

-- The values that getOptions stores, as the option parser gives them.
pub record Options : Type 0 where
  pub db_user : Bytes
  pub db_password : Bytes
  pub db_url : Bytes
  pub source_id : ℤ
  pub websocket_server_port : ℤ
  pub websocket_server_ip : Bytes
  pub ack_every : ℤ
  pub keep_days : ℤ
  pub no_traces : Bool

-- A constructed Writer: the initial values of Writer.h. It has no connection; the tables stand for
-- nothing before it has one.
abbrev pub new_writer : Tables → Writer
new_writer t = record {
  connected = false;
  committed = t;
  working = t;
  has_websocket = false;
  sent = [];
  source_id = pos 1;
  no_traces = false;
  ack_every = pos 100;
  keep_blocks = negsuc 0;
  i_am_master = false;
  just_committed = false;
  retired_time = 0;
  log_id = negsuc 0;
  confirmed_block = negsuc 0;
  irreversible = negsuc 0;
  unconfirmed_block = negsuc 0;
  trx_counter = 0;
  blocks_counter = 0;
  counter_start = 0;
  insert_bkp_traces = [];
  insert_transactions = [];
  insert_receipts = [];
  upsert_recv_seq_max = [];
}

-- getOptions: false, with nothing stored, where the parser throws.
unfoldable pub get_options : Option Options → Writer → Bool × Writer
get_options none w = (false, w)
get_options (some o) w = (
  true,
  record w {
    source_id = o.source_id;
    ack_every = o.ack_every;
    keep_blocks = kept_blocks o.keep_days w.keep_blocks;
    no_traces = o.no_traces;
  },
)

abbrev pub is_master_row : SyncRow → Bool
is_master_row r = eqb_ℤ r.is_master (pos 1)

abbrev pub is_slave_row : SyncRow → Bool
is_slave_row r = eqb_ℤ r.is_master (pos 0)

-- The tests on the count of masters.
unfoldable pub check_masters : List SyncRow → Outcome (Unit {0})
check_masters [] = thrown no_master
check_masters (m ∷ []) = done tt
check_masters (m ∷ n ∷ rest) = thrown many_masters

-- The test on the count of slaves.
unfoldable pub check_slaves : List SyncRow → Outcome (Unit {0})
check_slaves [] = done tt
check_slaves (s ∷ []) = done tt
check_slaves (s ∷ t ∷ rest) = thrown many_slaves

-- The state that the last row fetched sets.
unfoldable pub load_row : SyncRow → Writer → Writer
load_row r w = record w {
  confirmed_block = r.block_num;
  unconfirmed_block = r.block_num;
  irreversible = r.irreversible;
  i_am_master = not (eqb_ℤ r.is_master (pos 0));
}

-- The last test: a slave wants a master that has started.
unfoldable pub check_started : SyncRow → Exec Writer (Unit {0})
check_started master w =
    if not w.i_am_master
      && (eqb_ℤ (to_int32 master.block_num) (pos 0) || eqb_ℤ (to_int32 master.irreversible) (pos 0))
    then (thrown master_not_started, w)
    else (done tt, w)

-- Database::Initialize: the driver's connect throws, or the session sees the given tables.
unfoldable pub connect : Option Tables → Exec Writer (Unit {0})
connect none w = (thrown sql_error, w)
connect (some t) w = (done tt, record w { connected = true; committed = t; working = t })

-- The arguments of WebsocketServer::Run and RunAsync: the port and the ip of the options; where there
-- are none, the empty text of the field, and whatever the port, which nothing has set, holds.
abbrev pub listen_at : Option Options → Setup → Setup
listen_at none setup = record setup { ip = [] }
listen_at (some o) setup = record setup {
  ip = o.websocket_server_ip;
  port = o.websocket_server_port;
}

module _ (rs : ResultSets) where
  -- r->next(); if (r->isAfterLast()) …; the row is read by getInt64 and getInt.
  unfoldable pub fetch_source : List SyncRow → Outcome SyncRow
  fetch_source mine =
      let c = rs.next (rs.execute mine) in
      if rs.is_after_last c then thrown source_not_defined else from_option (rs.row c) sql_error

  -- The tests of sanityCheck on the answers to its three queries.
  unfoldable pub check_rows : List SyncRow → List SyncRow → List SyncRow → Exec Writer (Unit {0})
  unfolding check_masters check_slaves fetch_source check_started
  check_rows masters slaves mine = do
    from_outcome (check_masters masters)
    master ← or_throw (rs.row (rs.first (rs.execute masters))) sql_error
    from_outcome (check_slaves slaves)
    r ← from_outcome (fetch_source mine)
    modify (load_row r)
    check_started master

  -- Writer::sanityCheck
  unfoldable pub sanity_check : Exec Writer (Unit {0})
  sanity_check w =
      check_rows (keep_if is_master_row w.working.sync) (keep_if is_slave_row w.working.sync)
        (keep_if (has_source w.source_id) w.working.sync) w

  -- Writer::initialize from Database::Initialize on
  unfoldable pub start_session : Option Tables → Exec Writer (Unit {0})
  unfolding connect sanity_check commit
  start_session answer = do connect answer; sanity_check; modify commit

  -- Writer::initialize: without options it returns, and Run goes on.
  unfoldable pub initialize : Option Options → Option Tables → Exec Writer (Unit {0})
  unfolding get_options start_session
  initialize options answer w =
      let (parsed, w') = get_options options w in
      if parsed then start_session answer w' else (done tt, w')

  -- Writer::Run, with the server's loop over the connections.
  unfoldable pub run :
      {M : Type 0}
      → (M → Exec Writer (Unit {0}))
      → Exec Writer (Unit {0})
      → Option Options
      → Option Tables
      → Setup
      → List (Option (Connection M))
      → Exec Writer (Unit {0})
  unfolding initialize
  run on_read on_disconnect options answer setup connections = do
    initialize options answer
    Server.run (λ w. record w { has_websocket = true }) on_read on_disconnect
        (listen_at options setup) connections

  -- Writer::RunAsync
  unfoldable pub run_async :
      {M : Type 0}
      → (M → Exec Writer (Unit {0}))
      → Exec Writer (Unit {0})
      → Option Options
      → Option Tables
      → Setup
      → Exec Writer (Unit {0})
  unfolding initialize
  run_async on_read on_disconnect options answer setup = do
    initialize options answer
    Server.run_async (λ w. record w { has_websocket = true }) on_read on_disconnect
        (listen_at options setup)

-- Database::Close, for whether the driver's close succeeds: the connection is closed and forgotten,
-- or an exception leaves it; without a connection it does nothing.
unfoldable pub close_database : Bool → Exec Writer (Unit {0})
close_database closes w =
    if w.connected
    then (if closes
        then (done tt, record w { connected = false; working = w.committed })
        else (thrown sql_error, w))
    else (done tt, w)

-- Writer::Close: if closing the server throws, the connection is left to the destructor of Database.
unfoldable pub close : Option Bool → Option Bool → Bool → Exec Writer (Unit {0})
unfolding close_database
close acceptor stream closes = do from_outcome (Server.close acceptor stream); close_database closes

-- The destructors of Writer, Database and WebsocketServer, which catch what Close throws; `closes` and
-- `again` say whether the driver's close succeeds in the first two. The second Close of the server
-- changes nothing of the state.
unfoldable pub destroy : Option Bool → Option Bool → Bool → Bool → Writer → Writer
unfolding close close_database
destroy acceptor stream closes again w = (close_database again (close acceptor stream closes w).1).1

-- Whatever closing the acceptor, the stream and first the connection answers, a writer whose
-- destructor of Database closes holds no connection, what it had committed stays, and what a connected
-- one had not committed is lost.
destroy_lem :
    (acceptor stream : Option Bool) (closes : Bool) (w : Writer)
    → let w' = destroy acceptor stream closes true w in
      (w'.connected ≡ false)
      × (w'.committed ≡ w.committed)
      × (w'.working ≡ (if w.connected then w.committed else w.working))
unfolding destroy
destroy_lem acceptor stream closes w = destroyed (Server.close acceptor stream)
  where
    destroyed :
        (o : Outcome (Unit {0}))
        → let w' = (close_database true (continue o (λ _. close_database closes) w).1).1 in
          (w'.connected ≡ false)
          × (w'.committed ≡ w.committed)
          × (w'.working ≡ (if w.connected then w.committed else w.working))
    destroyed (done a) = ground arith
    destroyed (thrown e) = ground arith
