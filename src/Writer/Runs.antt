-- ===== src/Writer/Runs.antt =====
-- Any history of a Writer (prototype/Writer.cpp): messages, disconnections, and what another process
-- writes to the database in between, as a step relation; and what holds in every state of it.
use fio_relic.Base.{ℕ, Bool, true, false, ◌≡◌, refl, if◌then◌else◌, arith}
use fio_relic.Base.Int.{ℤ}
use fio_relic.Base.Bytes.{Bytes}
use fio_relic.Base.Exec.{Keeps, throw, modify, null_pointer}
use fio_relic.External.{Rapidjson, ResultSets}
use fio_relic.Tables.{Tables}
use fio_relic.Writer.State.{Writer, Env, rollback}
use fio_relic.Writer.Batch.{fork_traces, send_traces_batch}
use fio_relic.Writer.Messages.{commit_now, push_bkp_trace, count_trx, fork_bkp}
use fio_relic.Writer.Block.{
  count_block, absorb_block, confirm, reset_counters, note_reversible, note_irreversible,
  flush_queues, send_bkp_batch, set_unconfirmed,
}
use fio_relic.Writer.Takeover.{check_master, become_master}
use fio_relic.Writer.{on_read, on_disconnect, verify_master}
use fio_relic.Writer.Fork.{HasEmptyQueues, AfterFork-apply_fork}
use fio_relic.Writer.Queues.{
  IsQueued, HasEmptyQueues-IsQueued, save_trace-IsQueued, send_traces_batch_lem,
}
use fio_relic.Writer.Checked.{check_master-kept}
use fio_relic.Writer.Rules.{Keeps-if}
use fio_relic.Writer.Kept.{IsKept, on_read-kept}

-- A property of the three queues passes to a state with the same queues.
requeue :
    (w w' : Writer)
    → w'.insert_transactions ≡ w.insert_transactions
    → w'.insert_receipts ≡ w.insert_receipts
    → w'.upsert_recv_seq_max ≡ w.upsert_recv_seq_max
    → IsQueued w
    → IsQueued w'
requeue w w' t r u q = record {
  indexed = record {
    distinct = rw u q.indexed.distinct;
    latest = λ account. rw (u, r) (q.indexed.latest account);
  };
  together = rw (t, r, u) q.together;
}

pub note_reversible-IsQueued :
    (n l : ℤ) (w : Writer) → IsQueued w → IsQueued (note_reversible n l w)
unfolding note_reversible
note_reversible-IsQueued n l w =
    requeue w (note_reversible n l w) (ground arith) (ground arith) (ground arith)

pub note_irreversible-IsQueued :
    (l : ℤ) (w : Writer) → IsQueued w → IsQueued (note_irreversible l w)
unfolding note_irreversible
note_irreversible-IsQueued l w =
    requeue w (note_irreversible l w) (ground arith) (ground arith) (ground arith)

send_traces_batch-IsQueued : (w : Writer) → IsQueued w → IsQueued (send_traces_batch w)
send_traces_batch-IsQueued w q = HasEmptyQueues-IsQueued _ (send_traces_batch_lem w q).queues

flush_queues-IsQueued : (w : Writer) → IsQueued w → IsQueued (flush_queues w)
unfolding flush_queues send_bkp_batch
flush_queues-IsQueued w q = go w.i_am_master
  where
    go : (b : Bool) → IsQueued (if b then send_traces_batch w else send_bkp_batch w)
    go true = send_traces_batch-IsQueued w q
    go false = requeue w (send_bkp_batch w) refl refl refl q

absorb_block-IsQueued : (n l : ℤ) (w : Writer) → IsQueued w → IsQueued (absorb_block n l w)
unfolding absorb_block set_unconfirmed
absorb_block-IsQueued n l w q =
    requeue _ _ refl refl refl
      (flush_queues-IsQueued _ (note_irreversible-IsQueued l _ (note_reversible-IsQueued n l w q)))

pub verify_master-IsQueued : (env : Env) (w : Writer) → IsQueued w → IsQueued (verify_master env w)
unfolding verify_master
verify_master-IsQueued env w =
    requeue w (verify_master env w) (ground arith) (ground arith) (ground arith)

module _ (rs : ResultSets) (J : Rapidjson) where
  check_master-IsQueued :
      (rounds : ℕ) (n l : ℤ) (env : Env) → Keeps IsQueued (check_master rs J rounds n l env)
  unfolding become_master fork_traces commit_now fork_bkp
  check_master-IsQueued rounds n l env =
      check_master-kept rs J IsQueued
        (record {
          becomes = λ w. requeue w _ refl refl refl;
          forks = λ n w. requeue w _ refl refl refl;
          saves = λ seq n time trace text. save_trace-IsQueued J seq n time trace text;
          sends = λ w q.
              requeue (send_traces_batch w) _ refl refl refl (send_traces_batch-IsQueued w q);
          cleans = λ n w. requeue w _ refl refl refl;
        })
        rounds n l env

  IsQueued-IsKept : IsKept rs J IsQueued
  unfolding commit_now push_bkp_trace count_trx count_block confirm reset_counters
  IsQueued-IsKept = record {
    reconnects = λ t w. requeue w _ refl refl refl;
    commits = λ w. requeue w _ refl refl refl;
    forks = λ n w _. HasEmptyQueues-IsQueued _ (AfterFork-apply_fork n w).queues;
    saves = λ seq n time trace text. save_trace-IsQueued J seq n time trace text;
    pushes = λ t w. requeue w _ refl refl refl;
    counts_trx = λ w. requeue w _ refl refl refl;
    blocks = record {
      counts_block = λ w. requeue w _ refl refl refl;
      absorbs = absorb_block-IsQueued;
      confirms = λ w. requeue w _ refl refl refl;
      checks = check_master-IsQueued;
      resets = λ now w. requeue w _ refl refl refl;
    };
    verifies = verify_master-IsQueued;
    sends = λ ack w. requeue w _ refl refl refl;
  }

  -- One step: a message read, a disconnection, or a write by another process.
  pub data Step (w : Writer) : Writer → Type 0 where
    reads : (rounds : ℕ) (env : Env) (buffer : Bytes) → Step w (on_read rs J rounds env buffer w).1
    drops : Step w (on_disconnect w).1
    others : (t : Tables) → Step w (record w { committed = t; working = t })

  pub data Reach (w : Writer) : Writer → Type 0 where
    here : Reach w w
    next : {u v : Writer} → Reach w u → Step u v → Reach w v

  on_disconnect-IsQueued : (w : Writer) → IsQueued w → IsQueued (on_disconnect w).1
  unfolding on_disconnect rollback
  on_disconnect-IsQueued w =
      (Keeps-if (λ (w : Writer). w.connected) (modify rollback) (throw null_pointer)
          (record { at = λ w. requeue w _ refl refl refl }) (record { at = λ w q. q })).at
        w

  Step-IsQueued : {u v : Writer} → Step u v → IsQueued u → IsQueued v
  Step-IsQueued {u} (reads rounds env buffer) q =
      (on_read-kept rs J IsQueued IsQueued-IsKept rounds env buffer).at u q
  Step-IsQueued {u} drops q = on_disconnect-IsQueued u q
  Step-IsQueued {u} (others t) q = requeue u _ refl refl refl q

  -- In every state that a writer reaches from one with empty queues, by any messages (well-formed or
  -- not), disconnections and writes of other processes: a queue without transactions has no receipts
  -- and no sequence numbers, and the map of sequence numbers holds for each account exactly the
  -- number of its last queued receipt.
  pub Reach-IsQueued : {w v : Writer} → HasEmptyQueues w → Reach w v → IsQueued v
  Reach-IsQueued {w} e here = HasEmptyQueues-IsQueued w e
  Reach-IsQueued e (next r s) = Step-IsQueued s (Reach-IsQueued e r)
