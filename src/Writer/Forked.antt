-- ===== src/Writer/Forked.antt =====
-- A fork while the confirmed block is not above the last irreversible one, and the block that comes
-- next (the cases 1001 and 1010 of Writer::processData in prototype/Writer.cpp).
use fio_relic.Base.{ℕ, suc, true, ◌≡◌, refl, sym, ap, ◌∙◌, arith}
use fio_relic.Base.Int.{ℤ, ◌≤ℤ◌, ◌<ℤ◌, ◌-ℤ◌, to_int32}
use fio_relic.Base.Bytes.{Bytes}
use fio_relic.Base.Exec.{done, ◌>>◌}
use fio_relic.External.{Rapidjson, ResultSets}
use fio_relic.Tables.{Tables, insert_traces, insert_receipts}
use fio_relic.Tables.Rows.{insert_traces-append}
use fio_relic.Writer.State.{Writer, Env}
use fio_relic.Writer.Batch.{string_at}
use fio_relic.Writer.Messages.{long_at, get_block_time, fork_at, commit_now}
use fio_relic.Writer.Block.{count_block, note_reversible}
use fio_relic.Writer.{on_block}
use fio_relic.Writer.Fork.{fork_at_early}
use fio_relic.Writer.Queues.{IsQueued}
use fio_relic.Writer.Durable.{block_at-IsConfirmed}
use fio_relic.Writer.Chain.{count_block-IsQueued}

commit_now-IsQueued : (w : Writer) → IsQueued w → IsQueued (commit_now w)
unfolding commit_now
commit_now-IsQueued w q = record {
  indexed = record { distinct = q.indexed.distinct; latest = q.indexed.latest };
  together = q.together;
}

counted-early :
    (w : Writer)
    → let v = count_block (commit_now w) in
      (v.i_am_master ≡ w.i_am_master)
      × (v.confirmed_block ≡ w.confirmed_block)
      × (v.blocks_counter ≡ suc w.blocks_counter)
      × (insert_traces v.working.transactions v.insert_transactions
          ≡ insert_traces w.working.transactions w.insert_transactions)
      × (insert_receipts v.working.receipts v.insert_receipts
          ≡ insert_receipts w.working.receipts w.insert_receipts)
unfolding count_block commit_now
counted-early w = (refl, refl, omega arith, refl, refl)

note_reversible-early :
    (m l : ℤ) (w : Writer)
    → (note_reversible m l (count_block (commit_now w))).ack_every
      ≡ (note_reversible m l w).ack_every
unfolding count_block commit_now note_reversible
note_reversible-early m l w = ground arith

due_still : (m : ℤ) {c d a b : ℤ} → c ≡ d → a ≡ b → b ≤ℤ m -ℤ d → a ≤ℤ m -ℤ c
due_still m ec ea due = rw (ec, ea) due

module _ (rs : ResultSets) (J : Rapidjson) where
  -- On a fork while the confirmed block is not above the last irreversible one, what a master has
  -- queued, whose queues belong together, is not dropped: with the next completed block m above the
  -- confirmed one, whose parts can be read and which comes with at least the number of blocks for one
  -- acknowledgement, the answer is m as an int, and the committed rows of TRANSACTIONS and RECEIPTS are
  -- those of the session before the fork, followed by what INSERT IGNORE adds to them of the queued
  -- transactions and receipts, in their order.
  pub fork_at-forgets :
      (rounds : ℕ) (env : Env) (n m l : ℤ) (json : J.Value) (time id : Bytes) (w : Writer)
      → get_block_time J json ≡ done time
      → long_at J json "last_irreversible" ≡ done l
      → long_at J json "block_num" ≡ done m
      → string_at J json "block_id" ≡ done id
      → w.i_am_master ≡ true
      → IsQueued w
      → w.confirmed_block ≤ℤ w.irreversible
      → w.confirmed_block <ℤ m
      → (note_reversible m l w).ack_every ≤ℤ m -ℤ w.confirmed_block
      → let x = (do fork_at n; on_block rs J rounds env json) w in
        (x.0 ≡ done (to_int32 m))
        × (x.1.committed.transactions ≡ insert_traces w.working.transactions w.insert_transactions)
        × (x.1.committed.receipts ≡ insert_receipts w.working.receipts w.insert_receipts)
  unfolding on_block
  fork_at-forgets rounds env n m l json time id w has_time has_l has_m has_id master q early above
        due =
      let v = count_block (commit_now w) in
      let same = counted-early w in
      let stored =
        block_at-IsConfirmed rs J rounds w.blocks_counter env m l json id v has_id (same.0 ∙ master)
          (count_block-IsQueued _ (commit_now-IsQueued w q)) same.2 (rw same.1 above)
          (due_still m same.1 (note_reversible-early m l w) due) in
      let batch = stored.1.batch in
      rw (fork_at_early n w early, has_time, has_l, has_m)
        (
          stored.0,
          ap (λ (t : Tables). t.transactions) stored.1.durable
              ∙ batch.rows
              ∙ sym (insert_traces-append v.working.transactions v.insert_transactions)
              ∙ same.3,
          ap (λ (t : Tables). t.receipts) stored.1.durable ∙ batch.receipts ∙ same.4,
        )
