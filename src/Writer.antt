-- ===== src/Writer.antt =====
-- class Writer of prototype/Writer.cpp: the dispatch of a message, onRead and onDisconnect. The
-- cases of the dispatch are in the modules below.
pub mod State
pub mod Batch
pub mod Messages
pub mod Block
pub mod Takeover
pub mod Fork
pub mod Queues
pub mod Replay
pub mod Durable
pub mod Faults
pub mod Division
pub mod Endings
pub mod Answers
pub mod Reply
pub mod Succession
pub mod Unconfigured
pub mod Backup
pub mod Configuration
pub mod Class
pub mod Rules
pub mod KeptByBlocks
pub mod Kept
pub mod Runs
pub mod Checked
pub mod Header
pub mod Traces
pub mod Growth
pub mod Store
pub mod Chain
pub mod Settled
pub mod History
pub mod Sequence
pub mod Ignored
pub mod Buffers
pub mod Wire
pub mod Served
pub mod Stream
pub mod Repeated
pub mod Started
pub mod Resumed
pub mod Undone
pub mod Chapters
pub mod Rewritten
pub mod Slave
pub mod Cut
pub mod Whole
pub mod Forked
pub mod Sanity
pub mod Startup
pub mod Progress
pub mod Acks
pub mod Absorb
pub mod Health
use fio_relic.Base.{
  ℕ, ◌+◌, ◌*◌, List, [], ◌∷◌, ◌++◌, Bool, true, false, not, ◌&&◌, Option, none, some, if◌then◌else◌,
  ltb, ◌==◌, length, drop, get_elem?, any, keep_if,
}
use fio_relic.Base.Int.{ℤ, pos, negsuc, ◌-ℤ◌, ltb_ℤ, leb_ℤ, eqb_ℤ, to_int32}
use fio_relic.Base.Bytes.{Bytes, c_str}
use fio_relic.Base.Exec.{
  Exec, Outcome, done, thrown, null_pointer, no_reconnect, no_connection, socket_write, bad_read,
  json_error, and_then, from_option, from_outcome, or_throw, modify, pure, throw, ◌>>=◌, ◌>>◌,
}
use fio_relic.Base.Decimal.{to_string}
use fio_relic.External.{Rapidjson, ResultSets}
use fio_relic.Tables.{SyncRow, has_source}
use State.{Writer, Env, rollback}
use Batch.{string_at}
use Messages.{long_at, get_block_time, on_fork, on_trace}
use Block.{count_block, absorb_block, confirm, report}
use Takeover.{check_master}

-- memcpy of four bytes: a read past the terminating NUL of the string is a fault. The machine is
-- little-endian.
unfoldable pub read_int32_little_endian : Bytes → Option ℕ
read_int32_little_endian (a ∷ b ∷ c ∷ d ∷ rest) = some (a + 256 * (b + 256 * (c + 256 * d)))
read_int32_little_endian _ = none

-- The header of a message: the type, the options, and the JSON text as a C string from byte 8 on.
unfoldable pub split_message : Bytes → Outcome (ℕ × ℕ × Bytes)
unfolding read_int32_little_endian
split_message buffer =
    if ltb (length buffer) 8
    then thrown bad_read
    else and_then (from_option (read_int32_little_endian buffer) bad_read) λ msg_type.
      and_then (from_option (read_int32_little_endian (drop 4 buffer)) bad_read)
        λ opts. done (msg_type, opts, c_str (drop 8 buffer))

-- connection->isValid() and connection->reconnect(): the state of an open transaction is lost with
-- its session, and the new session sees the tables that the environment gives.
unfoldable pub ensure_connection : Env → Exec Writer (Unit {0})
ensure_connection env w =
    if w.connected
    then (if env.valid then (done tt, w) else elim env.reconnects [
      | none ↦ (thrown no_reconnect, w)
      | some tables ↦ (done tt, record w { committed = tables; working = tables })
    ])
    else (thrown null_pointer, w)

-- `!r->first() || !r->getByte(1)` is the negation of this, for sth_am_i_master:
-- first says whether the answer has a row.
unfoldable pub still_master : ℤ → List SyncRow → Bool
still_master source_id rows = elim (keep_if (has_source source_id) rows) [
  | [] ↦ false
  | r ∷ rest ↦ not (eqb_ℤ r.is_master (pos 0))
]

-- The first statement of onRead.
unfoldable pub verify_master : Env → Writer → Writer
verify_master env w =
    if w.i_am_master && w.just_committed
    then (if still_master w.source_id w.working.sync
        then record w { just_committed = false }
        else record w {
          i_am_master = false;
          retired_time = env.now;
          log_id = negsuc 0;
          just_committed = false;
        })
    else w

-- WebsocketServer::Write of the bytes of a text.
unfoldable pub write_ack : Env → Bytes → Exec Writer (Unit {0})
write_ack env ack w =
    if w.has_websocket
    then (if env.writes
        then (done tt, record w { sent = w.sent ++ ack ∷ [] })
        else (thrown socket_write, w))
    else (thrown no_connection, w)

-- default: the answer -1, and nothing else.
abbrev pub skip_message : Exec Writer ℤ
skip_message = pure (negsuc 0)

module _ (rs : ResultSets) (J : Rapidjson) where
  -- The case 1010 from the commit of the block on.
  unfoldable pub confirm_block : ℕ → Env → ℤ → ℤ → J.Value → Exec Writer ℤ
  confirm_block rounds env block_num last_irreversible json = do
    id ← from_outcome (string_at J json "block_id")
    modify confirm
    check_master rs J rounds block_num last_irreversible env
    report env.now

  -- The two tests that may return.
  unfoldable pub settle_block : ℕ → Env → ℤ → ℤ → J.Value → Exec Writer ℤ
  settle_block rounds env block_num last_irreversible json w =
      if leb_ℤ w.unconfirmed_block w.confirmed_block
      then (done (to_int32 w.unconfirmed_block), w)
      else if ltb_ℤ (w.unconfirmed_block -ℤ w.confirmed_block) w.ack_every
      then (done (negsuc 0), w)
      else confirm_block rounds env block_num last_irreversible json w

  -- The case once the numbers are read.
  unfoldable pub block_at : ℕ → Env → ℤ → ℤ → J.Value → Exec Writer ℤ
  block_at rounds env block_num last_irreversible json w =
      settle_block rounds env block_num last_irreversible json
        (absorb_block block_num last_irreversible w)

  -- case 1010
  unfoldable pub on_block : ℕ → Env → J.Value → Exec Writer ℤ
  on_block rounds env json = do
    modify count_block
    block_time ← from_outcome (get_block_time J json)
    last_irreversible ← from_outcome (long_at J json "last_irreversible")
    block_num ← from_outcome (long_at J json "block_num")
    block_at rounds env block_num last_irreversible json

  -- The switch.
  unfoldable pub dispatch : ℕ → Env → ℕ → J.Value → Bytes → Exec Writer ℤ
  dispatch rounds env msg_type json json_str =
      if msg_type == 1001
      then on_fork J json
      else if msg_type == 1003
      then on_trace J json json_str
      else if msg_type == 1010
      then on_block rounds env json
      else skip_message

  -- Writer::processData
  unfoldable pub process_data : ℕ → Env → Bytes → Exec Writer ℤ
  process_data rounds env buffer = do
    ensure_connection env
    (msg_type, opts, json_str) ← from_outcome (split_message buffer)
    json ← or_throw (J.parse json_str) json_error
    dispatch rounds env msg_type json json_str

  -- Writer::onRead
  unfoldable pub on_read : ℕ → Env → Bytes → Exec Writer (Unit {0})
  on_read rounds env buffer = do
    modify (verify_master env)
    ack ← process_data rounds env buffer
    if leb_ℤ (pos 0) ack then write_ack env (to_string ack) else pure tt

-- Writer::onDisconnect
unfoldable pub on_disconnect : Exec Writer (Unit {0})
on_disconnect w = if w.connected then (done tt, rollback w) else (thrown null_pointer, w)
