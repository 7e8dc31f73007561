-- ===== src/Tests/Stream.antt =====
-- Two blocks as bytes: the first with a transaction that comes twice and a message that is dropped,
-- the other with none.
mod Reading
use fio_relic.Base.{some, none, inl, inr, keep_if, ◌≡◌, [], ◌∷◌, refl, arith}
use fio_relic.Base.Int.{pos}
use fio_relic.Base.Bytes.{codes, stol, stoul, bytes_eq, same_ignoring_case}
use fio_relic.Base.Exec.{done, ◌>>◌}
use fio_relic.External.{positions, positions-IsDocumented}
use fio_relic.Writer.Batch.{string_at, object_at, array_at, member, read_receipt}
use fio_relic.Writer.Messages.{get_block_time, long_at, trx_seq_of}
use fio_relic.Writer.Traces.{read_receipts}
use fio_relic.Writer.Store.{TraceMessage}
use fio_relic.Writer.Settled.{BlockMessage}
use fio_relic.Writer.History.{IsAscending}
use fio_relic.Writer.{still_master, on_disconnect}
use fio_relic.Writer.Cut.{IsCut, read_stream-IsCut}
use fio_relic.Writer.Header.{split_message_lem, int32_bytes}
use fio_relic.Writer.Buffers.{TraceBuffer}
use fio_relic.Writer.Served.{BlockBuffers}
use fio_relic.Writer.Sequence.{read_stream}
use fio_relic.Writer.Stream.{IsServedByMaster, read_stream-IsServed}
use fio_relic.Writer.Startup.{new_writer}
use fio_relic.Writer.Resumed.{IsResumed, resume, read_stream-IsResumed}
use fio_relic.Writer.Slave.Standby.{IsServedBySlave, read_stream-IsMirrored}
use fio_relic.Writer.Undone.{ForkBuffer}
use fio_relic.Writer.Chapters.{Chapter}
use fio_relic.Tests.{
  block_message, later_message, trace_message, trace, item, json, master, slave, env,
}
use fio_relic.Tests.Messages.{block_time, receipt_row}

abbrev pub message : TraceMessage json (pos 101)
unfolding object_at string_at array_at member get_block_time long_at trx_seq_of stol stoul bytes_eq
    same_ignoring_case read_receipts read_receipt
message = record {
  json = trace_message;
  text = codes "trace";
  trace = trace;
  first = item;
  others = [];
  status = codes "executed";
  id = codes "1f";
  time = block_time;
  seq = 5;
  receipts = receipt_row ∷ [];
  has_block = refl;
  has_trace = refl;
  has_status = refl;
  executed = refl;
  has_items = refl;
  has_time = refl;
  has_seq = refl;
  has_id = refl;
  has_receipts = refl;
}

abbrev pub first_block : BlockMessage json
unfolding get_block_time long_at string_at stol bytes_eq
first_block = record {
  number = pos 101;
  traces = message ∷ message ∷ [];
  json = block_message;
  env = env;
  irreversible = pos 100;
  time = block_time;
  id = codes "0a";
  has_time = refl;
  has_irreversible = refl;
  has_number = refl;
  has_id = refl;
}

abbrev pub later_block : BlockMessage json
unfolding get_block_time long_at string_at stol bytes_eq
later_block = record {
  number = pos 102;
  traces = [];
  json = later_message;
  env = env;
  irreversible = pos 101;
  time = block_time;
  id = codes "0b";
  has_time = refl;
  has_irreversible = refl;
  has_number = refl;
  has_id = refl;
}

abbrev pub message_buffer : TraceBuffer json (pos 101)
unfolding bytes_eq message
message_buffer = record {
  message = some message;
  buffer = int32_bytes 1003 (int32_bytes 0 (codes "trace"));
  msg_type = 1003;
  opts = 0;
  text = codes "trace";
  json = trace_message;
  env = env;
  valid = refl;
  writes = refl;
  header = split_message_lem 1003 0 (codes "trace") (omega arith) (omega arith) (omega arith);
  parsed = refl;
  says = (refl, refl, refl);
}

-- A message of a type that is dropped.
abbrev pub other_buffer : TraceBuffer json (pos 101)
unfolding bytes_eq
other_buffer = record {
  message = none;
  buffer = int32_bytes 1013 (int32_bytes 0 (codes "trace"));
  msg_type = 1013;
  opts = 0;
  text = codes "trace";
  json = trace_message;
  env = env;
  valid = refl;
  writes = refl;
  header = split_message_lem 1013 0 (codes "trace") (omega arith) (omega arith) (omega arith);
  parsed = refl;
  says = inl (omega arith, omega arith, omega arith);
}

abbrev pub first_buffers : BlockBuffers json
unfolding bytes_eq first_block message_buffer other_buffer
first_buffers = record {
  block = first_block;
  traces = message_buffer ∷ other_buffer ∷ message_buffer ∷ [];
  same = refl;
  buffer = int32_bytes 1010 (int32_bytes 0 (codes "block"));
  opts = 0;
  text = codes "block";
  valid = refl;
  writes = refl;
  header = split_message_lem 1010 0 (codes "block") (omega arith) (omega arith) (omega arith);
  parsed = refl;
}

-- The first block once more, at another time.
abbrev pub first_again : BlockMessage json
unfolding get_block_time long_at string_at stol bytes_eq
first_again = record {
  number = pos 101;
  traces = message ∷ message ∷ [];
  json = block_message;
  env = record env { now = 900; db_now = 901 };
  irreversible = pos 100;
  time = block_time;
  id = codes "0a";
  has_time = refl;
  has_irreversible = refl;
  has_number = refl;
  has_id = refl;
}

abbrev pub first_buffers_again : BlockBuffers json
unfolding bytes_eq first_again message_buffer
first_buffers_again = record {
  block = first_again;
  traces = message_buffer ∷ message_buffer ∷ [];
  same = refl;
  buffer = int32_bytes 1010 (int32_bytes 0 (codes "block"));
  opts = 0;
  text = codes "block";
  valid = refl;
  writes = refl;
  header = split_message_lem 1010 0 (codes "block") (omega arith) (omega arith) (omega arith);
  parsed = refl;
}

abbrev pub later_buffers : BlockBuffers json
unfolding bytes_eq later_block
later_buffers = record {
  block = later_block;
  traces = [];
  same = refl;
  buffer = int32_bytes 1010 (int32_bytes 0 (codes "later"));
  opts = 0;
  text = codes "later";
  valid = refl;
  writes = refl;
  header = split_message_lem 1010 0 (codes "later") (omega arith) (omega arith) (omega arith);
  parsed = refl;
}

-- A fork at the first block, and the chapter that it ends.
abbrev pub fork_buffer : ForkBuffer json
unfolding long_at string_at stol bytes_eq
fork_buffer = record {
  number = pos 101;
  json = block_message;
  env = env;
  buffer = int32_bytes 1001 (int32_bytes 0 (codes "block"));
  opts = 0;
  text = codes "block";
  valid = refl;
  writes = refl;
  header = split_message_lem 1001 0 (codes "block") (omega arith) (omega arith) (omega arith);
  parsed = refl;
  has_number = refl;
}

abbrev pub chapter : Chapter json
unfolding first_buffers fork_buffer
chapter = record { blocks = first_buffers ∷ []; fork = fork_buffer }
