-- ===== src/Tests.antt =====
-- Concrete messages, tables and writers, and the theorems applied to them. A result set is a list and
-- a position, and a JSON document is a node with its members.
mod Restart
mod Messages
mod Stream
mod Blocks
mod Parts
mod Configured
mod Programs
mod Replies
use fio_relic.Base.{
  ℕ, zero, suc, List, [], ◌∷◌, ◌++◌, Bool, true, false, ◌≡◌, refl, Option, none, some, String,
  if◌then◌else◌, length, ◌≢◌, arith,
}
use fio_relic.Base.Int.{ℤ, pos, negsuc, ◌<ℤ◌, ◌≤ℤ◌, ◌-ℤ◌}
use fio_relic.Base.Bytes.{Bytes, codes, bytes_eq}
use fio_relic.Base.Exec.{Outcome, done, thrown, Keeps}
use fio_relic.External.{Rapidjson, positions, positions-IsDocumented}
use fio_relic.Tables.{Tables, SyncRow, Trace, Receipt}
use fio_relic.Writer.State.{Writer, Env}
use fio_relic.Base.{keep_if}
use fio_relic.Base.Bytes.{stol}
use fio_relic.Writer.{on_block, block_at, settle_block, confirm_block}
use fio_relic.Writer.Startup.{Options, new_writer, sanity_check, check_rows, load_row}
use fio_relic.Writer.Sanity.{restart_forgets, run_blocks, sanity_check_lem}

-- The nodes of a document.
pub data Node : Type 0 where
  text : Bytes → Node
  block_message later_message trace_message trace items item receipt act : Node

abbrev pub fields : Node → List (Bytes × Node)
fields (text s) = []
fields block_message =
    (codes "block_num", text (codes "101"))
    ∷ (codes "last_irreversible", text (codes "100"))
    ∷ (codes "block_timestamp", text (codes "2021-03-01T00:00:00"))
    ∷ (codes "block_id", text (codes "0a"))
    ∷ []
fields later_message =
    (codes "block_num", text (codes "102"))
    ∷ (codes "last_irreversible", text (codes "101"))
    ∷ (codes "block_timestamp", text (codes "2021-03-01T00:00:00"))
    ∷ (codes "block_id", text (codes "0b"))
    ∷ []
fields trace_message =
    (codes "block_num", text (codes "101"))
    ∷ (codes "block_timestamp", text (codes "2021-03-01T00:00:00"))
    ∷ (codes "trace", trace)
    ∷ []
fields trace =
    (codes "status", text (codes "executed"))
    ∷ (codes "id", text (codes "1f"))
    ∷ (codes "action_traces", items)
    ∷ []
fields items = []
fields item = (codes "receipt", receipt) ∷ (codes "act", act) ∷ []
fields receipt =
    (codes "global_sequence", text (codes "5"))
    ∷ (codes "receiver", text (codes "alice"))
    ∷ (codes "recv_sequence", text (codes "3"))
    ∷ []
fields act =
    (codes "account", text (codes "fio.token")) ∷ (codes "name", text (codes "transfer")) ∷ []

abbrev pub lookup : Bytes → List (Bytes × Node) → Option Node
lookup key [] = none
lookup key ((name, v) ∷ rest) = if bytes_eq name key then some v else lookup key rest

abbrev pub text_of : Node → Option Bytes
text_of (text s) = some s
text_of _ = none

abbrev pub items_of : Node → Option (List Node)
items_of items = some (item ∷ [])
items_of _ = none

abbrev pub object_of : Node → Option Node
object_of (text s) = none
object_of items = none
object_of v = some v

abbrev pub json : Rapidjson
json = record {
  Value = Node;
  parse = λ s.
      if bytes_eq s (codes "block")
      then some block_message
      else if bytes_eq s (codes "trace")
      then some trace_message
      else if bytes_eq s (codes "later")
      then some later_message
      else none;
  member = λ v key. lookup (codes key) (fields v);
  get_string = text_of;
  get_array = items_of;
  get_object = object_of;
}

abbrev pub master_row : SyncRow
master_row = record {
  source_id = pos 1;
  block_num = pos 100;
  block_time = [];
  block_id = [];
  irreversible = pos 90;
  is_master = pos 1;
  last_updated = 0;
}

abbrev pub slave_row : SyncRow
slave_row = record master_row { source_id = pos 2; is_master = pos 0 }

abbrev pub tables : Tables
tables = record {
  sync = master_row ∷ slave_row ∷ [];
  transactions = [];
  receipts = [];
  recv_sequence_max = [];
  bkp_traces = [];
}

abbrev pub master : Writer
master = record (new_writer tables) {
  connected = true;
  has_websocket = true;
  i_am_master = true;
  confirmed_block = pos 100;
  unconfirmed_block = pos 100;
  irreversible = pos 90;
  ack_every = pos 1;
}

abbrev pub slave : Writer
slave = record master { source_id = pos 2; i_am_master = false }

abbrev pub env : Env
env = record { valid = true; reconnects = none; now = 5; db_now = 5; writes = true }

abbrev pub configured : Options
configured = record {
  db_user = codes "relic";
  db_password = codes "secret";
  db_url = codes "db";
  source_id = pos 1;
  websocket_server_port = pos 8800;
  websocket_server_ip = codes "0";
  ack_every = pos 1;
  keep_days = negsuc 0;
  no_traces = false;
}
