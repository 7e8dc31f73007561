-- ===== src/Writer/Slave/Retracted.antt =====
-- A fork message read by a slave (Writer::onRead and the case 1001 of Writer::processData in
-- prototype/Writer.cpp), beside a store that deletes the blocks from the fork on from the backup.
use fio_relic.Base.{ℕ, ◌++◌, false, ◌≡◌, refl, ◌∙◌}
use fio_relic.Base.Int.{ℤ, pos, ◌-ℤ◌, ◌<ℤ◌, to_int32, lt→leb_ℤ}
use fio_relic.Base.Exec.{done}
use fio_relic.External.{Rapidjson, ResultSets}
use fio_relic.Tables.{Tables, delete_traces_from, update_sync_fork}
use fio_relic.Writer.State.{Writer}
use fio_relic.Writer.Messages.{
  on_fork, fork_at, apply_fork, commit_now, write_sync_fork, fork_rows, fork_bkp, rewind,
}
use fio_relic.Writer.{on_read}
use fio_relic.Writer.Reply.{replies}
use fio_relic.Writer.Slave.Queued.{IsAttached, verify_master-slave}
use fio_relic.Writer.Undone.{ForkBuffer, on_read-on_fork}

-- The store without the blocks from n on in the backup, where the source's row of SYNC says so.
abbrev pub retract : ℤ → ℤ → Tables → Tables
retract source_id n t = record t {
  sync = update_sync_fork (n -ℤ pos 1) source_id t.sync;
  bkp_traces = delete_traces_from n t.bkp_traces;
}

-- A slave has read a fork at n: its tables are those of that store, everything is committed, and it
-- goes on from n; its queue is as it was.
pub record HasRetracted (n : ℤ) (w w' : Writer) : Type 0 where
  pub attached : IsAttached w'
  pub tables : w'.working ≡ retract w.source_id n w.working
  pub durable : w'.committed ≡ w'.working
  pub confirmed : w'.confirmed_block ≡ n -ℤ pos 1
  pub queue : w'.insert_bkp_traces ≡ w.insert_bkp_traces
  pub irreversible : w'.irreversible ≡ w.irreversible
  pub source : w'.source_id ≡ w.source_id
  pub keep : w'.keep_blocks ≡ w.keep_blocks
  pub retired : w'.retired_time ≡ w.retired_time
  pub sent : w'.sent ≡ w.sent ++ replies (to_int32 (n -ℤ pos 1))

-- The statements of a slave's fork.
retracted : ℤ → Writer → Writer
retracted n w = commit_now (write_sync_fork (fork_bkp n (rewind n (commit_now w))))

apply_fork-retracted :
    (n : ℤ) (w : Writer) → w.i_am_master ≡ false → apply_fork n (commit_now w) ≡ retracted n w
unfolding apply_fork fork_rows commit_now retracted
apply_fork-retracted n w slave = rw slave refl

retracted-HasRetracted :
    (n : ℤ) (w : Writer)
    → IsAttached w
    → HasRetracted n w (record (retracted n w) { sent = w.sent ++ replies (to_int32 (n -ℤ pos 1)) })
unfolding retracted commit_now write_sync_fork fork_bkp rewind
retracted-HasRetracted n w k = record {
  attached = record { slave = k.slave; connected = k.connected; has_websocket = k.has_websocket };
  tables = refl;
  durable = refl;
  confirmed = refl;
  queue = refl;
  irreversible = refl;
  source = refl;
  keep = refl;
  retired = refl;
  sent = refl;
}

retracted-link :
    (n : ℤ) (w : Writer)
    → ((retracted n w).has_websocket ≡ w.has_websocket)
      × ((retracted n w).confirmed_block ≡ n -ℤ pos 1)
      × ((retracted n w).sent ≡ w.sent)
unfolding retracted commit_now write_sync_fork fork_bkp rewind
retracted-link n w = (refl, refl, refl)

module _ (rs : ResultSets) (J : Rapidjson) (rounds : ℕ) where
  on_fork-retracted :
      (f : ForkBuffer J) (w : Writer)
      → w.i_am_master ≡ false
      → w.irreversible <ℤ w.confirmed_block
      → on_fork J f.json w ≡ (done (to_int32 (f.number -ℤ pos 1)), retracted f.number w)
  unfolding on_fork fork_at
  on_fork-retracted f w slave late =
      rw
        (
          f.has_number,
          lt→leb_ℤ w.confirmed_block w.irreversible late,
          apply_fork-retracted f.number w slave,
          (retracted-link f.number w).1,
        )
        refl

  -- The answer n - 1 is written, and HasRetracted holds.
  pub on_read-retracts :
      (f : ForkBuffer J) (w : Writer)
      → IsAttached w
      → w.irreversible <ℤ w.confirmed_block
      → let x = on_read rs J rounds f.env f.buffer w in
        (x.0 ≡ done tt) × HasRetracted f.number w x.1
  on_read-retracts f w k late =
      let link = retracted-link f.number w in
      let r = to_int32 (f.number -ℤ pos 1) in
      rw
        (
          on_read-on_fork rs J rounds f w w (retracted f.number w) r
              (verify_master-slave f.env w k.slave) k.connected (on_fork-retracted f w k.slave late)
              (link.0 ∙ k.has_websocket),
          link.2,
        )
        (refl, retracted-HasRetracted f.number w k)
