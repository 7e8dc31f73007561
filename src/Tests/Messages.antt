-- ===== src/Tests/Messages.antt =====
-- Messages that a master and a slave read.
use fio_relic.Base.{any, [], ◌∷◌, ◌≡◌, refl, arith, All}
use fio_relic.Base.Int.{pos, negsuc, ◌-ℤ◌, ◌<ℤ◌, to_int32}
use fio_relic.Base.Bytes.{Bytes, stol, stoul, bytes_eq, codes, same_ignoring_case}
use fio_relic.Base.Exec.{done, thrown, sync_corrupted, Keeps, ◌>>◌}
use fio_relic.External.{positions, positions-IsDocumented}
use fio_relic.Tables.{Trace, Receipt}
use fio_relic.Writer.State.{Writer, Env}
use fio_relic.Writer.Batch.{
  string_at, object_at, array_at, member, send_traces_batch, read_receipt, push_receipt,
  push_transaction,
}
use fio_relic.Writer.Messages.{get_block_time, long_at, fork_at, trace_at, trx_seq_of, count_trx}
use fio_relic.Writer.Block.{
  confirm, absorb_block, note_reversible, note_irreversible, flush_queues, set_unconfirmed, report,
  trx_per_block,
}
use fio_relic.Writer.Takeover.{must_check, check_master}
use fio_relic.Writer.{
  settle_block, on_block, on_read, on_disconnect, block_at, confirm_block, split_message,
}
use fio_relic.Writer.Fork.{AfterFork, fork_at_lem}
use fio_relic.Writer.Growth.{push_trace, push_trace-IsQueued, push_receipts}
use fio_relic.Tables.{insert_traces, insert_receipts}
use fio_relic.Writer.Forked.{fork_at-forgets}
use fio_relic.Writer.Queues.{IsQueued, HasEmptyQueues-IsQueued, AfterBatch, send_traces_batch_lem}
use fio_relic.Writer.Runs.{here, next, reads, drops, Reach-IsQueued}
use fio_relic.Writer.Progress.{IsSlave, SyncIs, on_block-SyncIs, Reach-IsSlave}
use fio_relic.Writer.Acks.{IsWithinBatch, block_at-IsWithinBatch}
use fio_relic.Writer.Health.{confirm_block_corrupted}
use fio_relic.Writer.Header.{split_message_lem, int32_bytes}
use fio_relic.Writer.Traces.{trace_at_master, read_receipts, queued}
use fio_relic.Tests.{block_message, trace_message, trace, item, json, master, slave, tables, env}

abbrev pub block_time : Bytes
block_time = codes "2021-03-01 00:00:00"

abbrev pub trace_row : Trace
trace_row = queued 5 (pos 101) block_time (codes "1f") (codes "trace")

abbrev pub receipt_row : Receipt
receipt_row = record {
  seq = 5;
  block_num = pos 101;
  block_time = block_time;
  contract = codes "fio.token";
  action = codes "transfer";
  receiver = codes "alice";
  recv_sequence = pos 3;
}

-- A master with one transaction written.
abbrev busy : Writer
busy = record master {
  working = record tables { transactions = trace_row ∷ []; receipts = receipt_row ∷ [] };
}

-- The same, with the block counted that is to be confirmed.
abbrev counting : Writer
counting = record busy { blocks_counter = 1 }

fork_at_lem_example :
    let w' = (fork_at (pos 100) busy).1 in
    ((fork_at (pos 100) busy).0 ≡ done (pos 99))
    × AfterFork (pos 100) busy w'
    × All (λ (r : Trace). r.block_num <ℤ pos 100) w'.working.transactions
    × All (λ (r : Receipt). r.block_num <ℤ pos 100) w'.working.receipts
unfolding ◌-ℤ◌ to_int32
fork_at_lem_example = fork_at_lem (pos 100) busy (omega arith)

abbrev trace_buffer : Bytes
trace_buffer = int32_bytes 1003 (int32_bytes 0 (codes "trace"))

-- A master that has read a trace message.
abbrev loaded : Writer
loaded = (on_read positions json 3 env trace_buffer master).1

Reach-IsQueued_example : IsQueued (on_disconnect loaded).1
Reach-IsQueued_example =
    Reach-IsQueued positions json {w = master} {v = (on_disconnect loaded).1} (refl, refl, refl)
      (next (next here (reads 3 env trace_buffer)) drops)

loaded-IsQueued : IsQueued loaded
loaded-IsQueued =
    Reach-IsQueued positions json {w = master} {v = loaded} (refl, refl, refl)
      (next here (reads 3 env trace_buffer))

-- The same with the last irreversible block no lower than the confirmed one.
abbrev early : Writer
early = record master { irreversible = pos 100 }

abbrev early_loaded : Writer
early_loaded = push_trace trace_row (receipt_row ∷ []) early

early_loaded-IsQueued : IsQueued early_loaded
early_loaded-IsQueued =
    push_trace-IsQueued trace_row (receipt_row ∷ []) early
      (HasEmptyQueues-IsQueued early (refl, refl, refl))

fork_at-forgets_example :
    let x = (do fork_at (pos 101); on_block positions json 3 env block_message) early_loaded in
    (x.0 ≡ done (pos 101))
    × (x.1.committed.transactions
        ≡ insert_traces early_loaded.working.transactions early_loaded.insert_transactions)
    × (x.1.committed.receipts
        ≡ insert_receipts early_loaded.working.receipts early_loaded.insert_receipts)
unfolding get_block_time long_at string_at stol bytes_eq note_reversible to_int32 ◌-ℤ◌ push_trace
    push_receipts push_receipt push_transaction count_trx any
fork_at-forgets_example =
    fork_at-forgets positions json 3 env (pos 101) (pos 101) (pos 100) block_message block_time
      (codes "0a") early_loaded refl refl refl refl refl early_loaded-IsQueued (omega arith)
      (omega arith) (omega arith)

send_traces_batch_lem_example : AfterBatch loaded (send_traces_batch loaded)
send_traces_batch_lem_example = send_traces_batch_lem loaded loaded-IsQueued

Reach-IsSlave_example :
    IsSlave (on_disconnect (on_read positions json 3 env trace_buffer slave).1).1
Reach-IsSlave_example =
    Reach-IsSlave positions json positions-IsDocumented {w = slave}
      {v = (on_disconnect (on_read positions json 3 env trace_buffer slave).1).1} refl
      (next (next here (reads 3 env trace_buffer)) drops)

on_block-SyncIs_example : Keeps (SyncIs tables.sync) (on_block positions json 3 env block_message)
on_block-SyncIs_example =
    on_block-SyncIs positions json positions-IsDocumented 3 env block_message tables.sync

block_at-IsWithinBatch_example :
    IsWithinBatch (block_at positions json 3 env (pos 101) (pos 100) block_message counting).1
unfolding string_at block_at settle_block absorb_block note_reversible note_irreversible
    flush_queues send_traces_batch set_unconfirmed confirm_block confirm check_master must_check
    report trx_per_block to_int32 bytes_eq ◌-ℤ◌
block_at-IsWithinBatch_example =
    block_at-IsWithinBatch positions json 3 env (pos 101) (pos 100) block_message counting (pos 101)
      refl

abbrev late : Env
late = record env { now = 60000000001 }

confirm_block_corrupted_example :
    confirm_block positions json 3 late (pos 101) (pos 100) block_message slave
    ≡ (thrown sync_corrupted, confirm slave)
unfolding string_at must_check confirm bytes_eq
confirm_block_corrupted_example =
    confirm_block_corrupted positions positions-IsDocumented json 2 (pos 101) (pos 100) late
      block_message (codes "0a") slave refl refl

split_message_lem_example : split_message trace_buffer ≡ done (1003, 0, codes "trace")
split_message_lem_example =
    split_message_lem 1003 0 (codes "trace") (omega arith) (omega arith) (omega arith)

trace_at_master_example :
    let x = trace_at json (pos 101) trace_message (codes "trace") master in
    (x.0 ≡ done (negsuc 0))
    × (x.1.insert_transactions ≡ trace_row ∷ [])
    × (x.1.insert_receipts ≡ receipt_row ∷ [])
    × (x.1.trx_counter ≡ 1)
    × (x.1.working ≡ tables)
    × (x.1.committed ≡ tables)
unfolding object_at string_at array_at member get_block_time trx_seq_of stol stoul bytes_eq
    same_ignoring_case read_receipts read_receipt
trace_at_master_example =
    trace_at_master json (pos 101) trace_message trace item [] (codes "trace") (codes "executed")
      (codes "1f") block_time 5 master refl refl refl refl refl refl refl (omega arith)
      (receipt_row ∷ []) refl refl refl
