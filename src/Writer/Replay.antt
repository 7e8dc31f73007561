-- ===== src/Writer/Replay.antt =====
-- Writer::sendTracesBatch for traces that are in the tables already (prototype/Writer.cpp).
use fio_relic.Base.{◌≡◌, refl, Option, List, [], ◌∷◌, none, some}
use fio_relic.Base.Int.{ℤ}
use fio_relic.Base.Bytes.{Bytes}
use fio_relic.Tables.{Tables, Transaction}
use fio_relic.Tables.Rows.{recv_seq_of, or_else, recv_seq_of-upsert_recv_seqs}
use fio_relic.Tables.Replay.{insert_traces-replay, insert_receipts-replay}
use fio_relic.Writer.State.{Writer}
use fio_relic.Writer.Batch.{send_traces_batch, send_queue, write_queues}
use fio_relic.Writer.Queues.{IsQueued, IsIndexed}

-- The writer with the same queues again, over the tables that the batch left.
abbrev queued_again : Writer → Writer
queued_again w = record w { working = (send_traces_batch w).working }

-- The second batch changes no row of TRANSACTIONS and RECEIPTS and no account's sequence number.
abbrev SameRows : Tables → Tables → Type 0
SameRows t t' =
    (t'.transactions ≡ t.transactions)
    × (t'.receipts ≡ t.receipts)
    × ((account : Bytes)
        → recv_seq_of account t'.recv_sequence_max ≡ recv_seq_of account t.recv_sequence_max)

or_else_idempotent : (a b : Option ℤ) → or_else a (or_else a b) ≡ or_else a b
or_else_idempotent none b = refl
or_else_idempotent (some n) b = refl

write_queues-SameRows :
    (w : Writer)
    → IsIndexed w
    → SameRows
        (write_queues w).working
        (write_queues (record w { working = (write_queues w).working })).working
unfolding write_queues
write_queues-SameRows w ix = (
  insert_traces-replay w.working.transactions w.insert_transactions,
  insert_receipts-replay w.working.receipts w.insert_receipts,
  λ account.
      let es = w.upsert_recv_seq_max in
      rw
        (
          recv_seq_of-upsert_recv_seqs account (write_queues w).working.recv_sequence_max es
              ix.distinct,
          recv_seq_of-upsert_recv_seqs account w.working.recv_sequence_max es ix.distinct,
        )
        (or_else_idempotent (recv_seq_of account es)
          (recv_seq_of account w.working.recv_sequence_max)),
)

send_queue-SameRows :
    (w : Writer) (ts : List Transaction)
    → IsIndexed w
    → SameRows
        (send_queue ts w).working
        (send_queue ts (record w { working = (send_queue ts w).working })).working
unfolding send_queue
send_queue-SameRows w [] ix = (refl, refl, λ account. refl)
send_queue-SameRows w (t ∷ ts) ix = write_queues-SameRows w ix

-- Traces that are sent again, as after a restart, do no harm: over the tables that a batch left, the
-- same queues, if they belong together, change no row of TRANSACTIONS and RECEIPTS and no account's
-- sequence number.
send_traces_batch-replay :
    (w : Writer)
    → IsQueued w
    → SameRows (send_traces_batch w).working (send_traces_batch (queued_again w)).working
unfolding send_traces_batch
send_traces_batch-replay w q = send_queue-SameRows w w.insert_transactions q.indexed
