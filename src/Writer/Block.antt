-- ===== src/Writer/Block.antt =====
-- The case CHRONICLE_MSGTYPE_BLOCK_COMPLETED of Writer::processData (prototype/Writer.cpp), up to
-- the check of the master, which is in Writer/Takeover.antt.
use fio_relic.Base.{ℕ, ◌+◌, ◌/◌, zero, suc, [], if◌then◌else◌}
use fio_relic.Base.Int.{ℤ, pos, ◌-ℤ◌, ltb_ℤ, leb_ℤ, to_int32}
use fio_relic.Base.Exec.{Exec, Outcome, done, thrown, division_by_zero}
use fio_relic.Tables.{clean_bkp, prune_traces, prune_receipts, insert_traces}
use fio_relic.Writer.State.{Writer}
use fio_relic.Writer.Batch.{send_traces_batch}
use fio_relic.Writer.Messages.{commit_now}

unfoldable pub count_block : Writer → Writer
count_block w = record w { blocks_counter = w.blocks_counter + 1 }

-- if (blockNum > lastIrreversible) ackEvery = 1;
unfoldable pub note_reversible : ℤ → ℤ → Writer → Writer
note_reversible block_num last_irreversible w =
    if ltb_ℤ last_irreversible block_num then record w { ack_every = pos 1 } else w

-- sth_clean_bkp, and the two statements that prune; setInt converts the block to int.
unfoldable pub prune_history : Writer → Writer
prune_history w =
    let cleaned = clean_bkp w.working.sync w.working.bkp_traces in
    let upto = to_int32 (w.irreversible -ℤ w.keep_blocks) in
    if leb_ℤ (pos 0) w.keep_blocks
    then record w {
      working = record w.working {
        bkp_traces = cleaned;
        receipts = prune_receipts upto w.working.receipts;
        transactions = prune_traces upto w.working.transactions;
      };
    }
    else record w { working = record w.working { bkp_traces = cleaned } }

-- if (lastIrreversible > irreversible) …
unfoldable pub note_irreversible : ℤ → Writer → Writer
unfolding prune_history
note_irreversible last_irreversible w =
    let moved = record w { irreversible = last_irreversible } in
    if ltb_ℤ w.irreversible last_irreversible
    then (if w.i_am_master then moved else prune_history moved)
    else w

-- The slave's branch: its queue goes to the backup table.
unfoldable pub send_bkp_batch : Writer → Writer
send_bkp_batch w = record w {
  working = record w.working {
    bkp_traces = insert_traces w.working.bkp_traces w.insert_bkp_traces;
  };
  insert_bkp_traces = [];
}

unfoldable pub flush_queues : Writer → Writer
flush_queues w = if w.i_am_master then send_traces_batch w else send_bkp_batch w

unfoldable pub set_unconfirmed : ℤ → Writer → Writer
set_unconfirmed block_num w = record w { unconfirmed_block = block_num }

-- What the case does to the object before the first test that may return.
unfoldable pub absorb_block : ℤ → ℤ → Writer → Writer
absorb_block block_num last_irreversible w = set_unconfirmed block_num (
    flush_queues
      (note_irreversible last_irreversible (note_reversible block_num last_irreversible w)))

-- The parameters of sth_upd_sync_head are set and the statement is not executed: nothing is written
-- to SYNC here.
unfoldable pub confirm : Writer → Writer
unfolding commit_now
confirm w = let w' = commit_now w in record w' { confirmed_block = w'.unconfirmed_block }

-- The figures of the report divide by the count of blocks.
unfoldable pub trx_per_block : Writer → Outcome ℕ
trx_per_block w = elim w.blocks_counter [
  | zero ↦ thrown division_by_zero
  | suc n ↦ done (w.trx_counter / suc n)
]

unfoldable pub reset_counters : ℕ → Writer → Writer
reset_counters now w = record w { counter_start = now; blocks_counter = 0; trx_counter = 0 }

-- The end of the case: the report, the reset counters and the acknowledgement.
unfoldable pub report : ℕ → Exec Writer ℤ
report now w = elim (trx_per_block w) [
  | thrown e ↦ (thrown e, w)
  | done figure ↦ (done (to_int32 w.confirmed_block), reset_counters now w)
]
