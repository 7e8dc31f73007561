-- ===== src/Writer/Fork.antt =====
-- What the fork message does (the case 1001 of Writer::processData in prototype/Writer.cpp).
use fio_relic.Base.{◌∙◌, List, [], ◌∷◌, Bool, true, false, ◌≡◌, refl, ap, All, arith, if◌then◌else◌}
use fio_relic.Base.Int.{ℤ, pos, ◌-ℤ◌, ◌<ℤ◌, ◌≤ℤ◌, to_int32, le→leb_ℤ, lt→leb_ℤ}
use fio_relic.Base.Exec.{done}
use fio_relic.Tables.{
  Tables, Trace, Receipt, SyncRow, delete_traces_from, delete_receipts_from, update_sync_fork,
  has_source,
}
use fio_relic.Tables.Rows.{delete_traces_from-All, delete_receipts_from-All}
use fio_relic.Writer.State.{Writer}
use fio_relic.Writer.Batch.{fork_traces}
use fio_relic.Writer.Messages.{
  apply_fork, fork_at, commit_now, write_sync_fork, fork_rows, fork_bkp, rewind,
}

-- Nothing is queued for the tables that the master writes.
abbrev pub HasEmptyQueues : Writer → Type 0
HasEmptyQueues w =
    (w.insert_transactions ≡ []) × (w.insert_receipts ≡ []) × (w.upsert_recv_seq_max ≡ [])

-- Each row of the given writer says that the given block was the last one.
abbrev pub SyncIsAt : ℤ → ℤ → List SyncRow → Type 0
SyncIsAt source_id block_num rows =
    All (λ (r : SyncRow). has_source source_id r ≡ true → r.block_num ≡ block_num) rows

SyncIsAt-update_sync_fork :
    (source_id block_num : ℤ) (rows : List SyncRow)
    → SyncIsAt source_id block_num (update_sync_fork block_num source_id rows)
unfolding update_sync_fork
SyncIsAt-update_sync_fork source_id block_num [] = tt
SyncIsAt-update_sync_fork source_id block_num (r ∷ rows) =
    (ground arith, SyncIsAt-update_sync_fork source_id block_num rows)

-- The state `w'` that a fork at block n leaves of the state `w`: the confirmed and the unconfirmed
-- block are n - 1, the master's queues are empty, everything is committed, and every row of this
-- writer in SYNC is at n - 1; a master deletes from TRANSACTIONS and RECEIPTS and does not touch
-- BKP_TRACES, and a slave deletes from BKP_TRACES and does not touch the others.
pub record AfterFork (n : ℤ) (w w' : Writer) : Type 0 where
  pub confirmed : w'.confirmed_block ≡ n -ℤ pos 1
  pub unconfirmed : w'.unconfirmed_block ≡ n -ℤ pos 1
  pub queues : HasEmptyQueues w'
  pub durable : w'.committed ≡ w'.working
  pub sync_row : SyncIsAt w.source_id (n -ℤ pos 1) w'.working.sync
  pub transactions : w'.working.transactions ≡ (
      if w.i_am_master then delete_traces_from n w.working.transactions else w.working.transactions)
  pub receipts :
      w'.working.receipts
      ≡ (if w.i_am_master then delete_receipts_from n w.working.receipts else w.working.receipts)
  pub bkp_traces :
      w'.working.bkp_traces
      ≡ (if w.i_am_master then w.working.bkp_traces else delete_traces_from n w.working.bkp_traces)

AfterFork-master :
    (n : ℤ) (w : Writer)
    → w.i_am_master ≡ true
    → AfterFork n w (commit_now (write_sync_fork (fork_rows true n (rewind n w))))
unfolding commit_now write_sync_fork fork_rows fork_traces rewind
AfterFork-master n w e = record {
  confirmed = refl;
  unconfirmed = refl;
  queues = (refl, refl, refl);
  durable = refl;
  sync_row = SyncIsAt-update_sync_fork w.source_id (n -ℤ pos 1) w.working.sync;
  transactions = ground arith;
  receipts = ground arith;
  bkp_traces = ground arith;
}

AfterFork-slave :
    (n : ℤ) (w : Writer)
    → w.i_am_master ≡ false
    → AfterFork n w (commit_now (write_sync_fork (fork_rows false n (rewind n w))))
unfolding commit_now write_sync_fork fork_rows fork_bkp rewind
AfterFork-slave n w e = record {
  confirmed = refl;
  unconfirmed = refl;
  queues = (refl, refl, refl);
  durable = refl;
  sync_row = SyncIsAt-update_sync_fork w.source_id (n -ℤ pos 1) w.working.sync;
  transactions = ground arith;
  receipts = ground arith;
  bkp_traces = ground arith;
}

AfterFork-fork_rows :
    (n : ℤ) (w : Writer) (b : Bool)
    → w.i_am_master ≡ b
    → AfterFork n w (commit_now (write_sync_fork (fork_rows b n (rewind n w))))
AfterFork-fork_rows n w true e = AfterFork-master n w e
AfterFork-fork_rows n w false e = AfterFork-slave n w e

pub AfterFork-apply_fork : (n : ℤ) (w : Writer) → AfterFork n w (apply_fork n (commit_now w))
unfolding apply_fork
AfterFork-apply_fork n w =
    let after = AfterFork-fork_rows n (commit_now w) w.i_am_master refl in
    record {
      confirmed = after.confirmed;
      unconfirmed = after.unconfirmed;
      queues = after.queues;
      durable = after.durable;
      sync_row = after.sync_row;
      transactions = after.transactions;
      receipts = after.receipts;
      bkp_traces = after.bkp_traces;
    }

-- The traces and the receipts in the tables from which a writer of this role deletes.
abbrev pub forked_traces : Bool → Tables → List Trace
forked_traces master t = if master then t.transactions else t.bkp_traces

abbrev pub forked_receipts : Bool → Tables → List Receipt
forked_receipts master t = if master then t.receipts else []

AfterFork-below :
    (n : ℤ) (w w' : Writer) (b : Bool)
    → w.i_am_master ≡ b
    → AfterFork n w w'
    → All (λ (r : Trace). r.block_num <ℤ n) (forked_traces b w'.working)
      × All (λ (r : Receipt). r.block_num <ℤ n) (forked_receipts b w'.working)
AfterFork-below n w w' true e after =
    let rows : w'.working.transactions ≡ delete_traces_from n w.working.transactions =
      after.transactions ∙ ground arith in
    let receipts : w'.working.receipts ≡ delete_receipts_from n w.working.receipts =
      after.receipts ∙ ground arith in
    (
      rw rows (delete_traces_from-All n w.working.transactions),
      rw receipts (delete_receipts_from-All n w.working.receipts),
    )
AfterFork-below n w w' false e after =
    let rows : w'.working.bkp_traces ≡ delete_traces_from n w.working.bkp_traces =
      after.bkp_traces ∙ ground arith in
    (rw rows (delete_traces_from-All n w.working.bkp_traces), tt)

-- On a fork at block n, when the last confirmed block lies above the last irreversible one, the
-- answer is n - 1 as an int; the state is the one that AfterFork describes; and in the tables from
-- which a writer of this role deletes, every row that is left lies below n.
pub fork_at_lem :
    (n : ℤ) (w : Writer)
    → w.irreversible <ℤ w.confirmed_block
    → let w' = (fork_at n w).1 in
      ((fork_at n w).0 ≡ done (to_int32 (n -ℤ pos 1)))
      × AfterFork n w w'
      × All (λ (r : Trace). r.block_num <ℤ n) (forked_traces w.i_am_master w'.working)
      × All (λ (r : Receipt). r.block_num <ℤ n) (forked_receipts w.i_am_master w'.working)
unfolding fork_at
fork_at_lem n w h =
    let late = lt→leb_ℤ w.confirmed_block w.irreversible h in
    let after = AfterFork-apply_fork n w in
    let below = AfterFork-below n w (apply_fork n (commit_now w)) w.i_am_master refl after in
    rw (late, fork_at) (ap (λ (b : ℤ). done (to_int32 b)) after.confirmed, after, below.0, below.1)

-- On a fork, when the last confirmed block does not lie above the last irreversible one, the answer
-- is n - 1 as an int too, but all that happens is a commit: no row is deleted, nothing queued is
-- dropped, and the confirmed block stays.
pub fork_at_early :
    (n : ℤ) (w : Writer)
    → w.confirmed_block ≤ℤ w.irreversible
    → fork_at n w ≡ (done (to_int32 (n -ℤ pos 1)), commit_now w)
unfolding fork_at
fork_at_early n w h = rw (le→leb_ℤ w.confirmed_block w.irreversible h, fork_at)
