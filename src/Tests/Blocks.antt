-- ===== src/Tests/Blocks.antt =====
-- A master with one transaction queued that completes a block.
use fio_relic.Base.{◌≡◌, refl, [], ◌∷◌, arith}
use fio_relic.Base.Int.{pos, ◌-ℤ◌, to_int32}
use fio_relic.Base.Bytes.{codes, bytes_eq}
use fio_relic.Base.Exec.{done}
use fio_relic.External.{positions}
use fio_relic.Tables.Rows.{recv_seq_of}
use fio_relic.Writer.State.{Writer}
use fio_relic.Writer.Batch.{string_at}
use fio_relic.Writer.Block.{note_reversible}
use fio_relic.Writer.{block_at}
use fio_relic.Writer.Queues.{IsQueued, last_recv_seq}
use fio_relic.Writer.Durable.{IsConfirmed, block_at-IsConfirmed}
use fio_relic.Tests.{block_message, json, master, env}
use fio_relic.Tests.Messages.{trace_row, receipt_row}

abbrev waiting : Writer
waiting = record master {
  blocks_counter = 1;
  insert_transactions = trace_row ∷ [];
  insert_receipts = receipt_row ∷ [];
  upsert_recv_seq_max = (codes "alice", pos 3) ∷ [];
}

waiting-IsQueued : IsQueued waiting
unfolding recv_seq_of last_recv_seq
waiting-IsQueued = record {
  indexed = record { distinct = (refl, tt); latest = λ account. refl };
  together = λ e. absurd (ground arith);
}

block_at-IsConfirmed_example :
    let x = block_at positions json 3 env (pos 101) (pos 100) block_message waiting in
    (x.0 ≡ done (pos 101)) × IsConfirmed (pos 101) waiting x.1
unfolding string_at bytes_eq note_reversible ◌-ℤ◌ to_int32
block_at-IsConfirmed_example =
    block_at-IsConfirmed positions json 3 0 env (pos 101) (pos 100) block_message (codes "0a")
      waiting refl refl waiting-IsQueued refl (omega arith) (omega arith)
