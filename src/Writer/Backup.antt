-- ===== src/Writer/Backup.antt =====
-- A slave that confirms an irreversible block (the case 1010 in prototype/Writer.cpp).
use fio_relic.Base.{ℕ, suc, ◌≡◌, refl, arith, true, false, List, [], All, All-map}
use fio_relic.Base.Int.{ℤ, ◌-ℤ◌, ◌<ℤ◌, ◌≤ℤ◌, le→ltb_ℤ, to_int32}
use fio_relic.Base.Bytes.{Bytes}
use fio_relic.Base.Exec.{done}
use fio_relic.External.{Rapidjson, ResultSets}
use fio_relic.Tables.{Trace, insert_traces}
use fio_relic.Tables.Rows.{has_seq, has_seq-insert_traces}
use fio_relic.Tables.Replay.{self_held}
use fio_relic.Writer.State.{Writer, Env}
use fio_relic.Writer.Batch.{string_at}
use fio_relic.Writer.Messages.{commit_now}
use fio_relic.Writer.Block.{absorb_block, note_reversible, confirm, reset_counters}
use fio_relic.Writer.Takeover.{must_check}
use fio_relic.Writer.{block_at}
use fio_relic.Writer.Slave.Mirror.{mirror, move_on, absorb_block-HasMirrored}
use fio_relic.Writer.Durable.{absorb_block-unconfirmed, block_at-answer}

not_due : (n l : ℤ) (now : ℕ) (w : Writer) → n ≤ℤ l → must_check n l now w ≡ false
unfolding must_check
not_due n l now w h = ground arith

-- Block n is confirmed by a slave in `w'` after `w`: everything is committed, its queue is empty,
-- and every trace that was queued is in the committed BKP_TRACES by its key.
pub record IsBackup (n : ℤ) (w w' : Writer) : Type 0 where
  pub confirmed : w'.confirmed_block ≡ n
  pub durable : w'.committed ≡ w'.working
  pub queue : w'.insert_bkp_traces ≡ []
  pub held : All (λ (t : Trace). has_seq t.seq w'.committed.bkp_traces ≡ true) w.insert_bkp_traces

inserted_held :
    (rows ts : List Trace) → All (λ (t : Trace). has_seq t.seq (insert_traces rows ts) ≡ true) ts
inserted_held rows ts =
    All-map (λ (t : Trace). has_seq t.seq ts ≡ true) _
      (λ t h. ground (arith, has_seq-insert_traces rows ts t.seq)) ts (self_held ts)

IsBackup-absorb_block :
    (n l : ℤ) (now : ℕ) (w : Writer)
    → w.i_am_master ≡ false
    → IsBackup n w (reset_counters now (confirm (absorb_block n l w)))
unfolding confirm commit_now reset_counters
IsBackup-absorb_block n l now w slave =
    let h = absorb_block-HasMirrored n l w slave in
    record {
      confirmed = absorb_block-unconfirmed n l w;
      durable = refl;
      queue = h.queue;
      held = rw h.tables (
          inserted_held (move_on w.keep_blocks l (mirror w)).tables.bkp_traces w.insert_bkp_traces);
    }

module _ (rs : ResultSets) (J : Rapidjson) where
  -- What a slave acknowledges is backed up: on a completed irreversible block n above the confirmed
  -- one, where at least the number of blocks for one acknowledgement have come since, with a block id
  -- that can be read, a slave that has counted the block answers n as an int, and IsBackup holds.
  block_at-IsBackup :
      (rounds k : ℕ) (env : Env) (n l : ℤ) (json : J.Value) (id : Bytes) (w : Writer)
      → string_at J json "block_id" ≡ done id
      → w.i_am_master ≡ false
      → n ≤ℤ l
      → w.blocks_counter ≡ suc k
      → w.confirmed_block <ℤ n
      → (note_reversible n l w).ack_every ≤ℤ n -ℤ w.confirmed_block
      → let x = block_at rs J rounds env n l json w in (x.0 ≡ done (to_int32 n)) × IsBackup n w x.1
  block_at-IsBackup rounds k env n l json id w has_id slave old counted above due =
      rw
        (
          block_at-answer rs J rounds k env n l json id w has_id
              (not_due n l env.now (confirm (absorb_block n l w)) old) counted above,
          le→ltb_ℤ (n -ℤ w.confirmed_block) (note_reversible n l w).ack_every due,
        )
        (refl, IsBackup-absorb_block n l env.now w slave)
