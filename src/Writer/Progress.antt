-- ===== src/Writer/Progress.antt =====
-- Which rows of SYNC record the writer's progress, and who is master, with result sets that behave
-- as documented (prototype/Writer.cpp).
use fio_relic.Base.{ℕ, zero, suc, List, false, ◌≡◌, ap, ◌∙◌, arith, Bool-cases, inl, inr}
use fio_relic.Base.Int.{ℤ}
use fio_relic.Base.Exec.{Keeps, Outcome}
use fio_relic.External.{Rapidjson, ResultSets, IsDocumented}
use fio_relic.Tables.{Tables, SyncRow}
use fio_relic.Writer.State.{Writer, Env, rollback}
use fio_relic.Writer.Batch.{push_receipt, push_transaction, fork_traces}
use fio_relic.Writer.Messages.{
  apply_fork, commit_now, fork_rows, rewind, write_sync_fork, fork_bkp, push_bkp_trace, count_trx,
}
use fio_relic.Writer.Block.{count_block, absorb_block, confirm, reset_counters}
use fio_relic.Writer.Takeover.{check_master, collect, must_check}
use fio_relic.Writer.{verify_master, on_block, on_disconnect}
use fio_relic.Writer.Absorb.{SameRole-absorb_block}
use fio_relic.Writer.Health.{check_master-due}
use fio_relic.Writer.Rules.{save_trace-kept}
use fio_relic.Writer.KeptByBlocks.{on_block-kept}
use fio_relic.Writer.Kept.{IsKept, on_read-kept}
use fio_relic.Writer.Runs.{Step, reads, drops, others, Reach, here, next}

-- SYNC as this session and as every other one sees it.
abbrev pub SyncIs : List SyncRow → Writer → Type 0
SyncIs rows w = (w.working.sync ≡ rows) × (w.committed.sync ≡ rows)

abbrev pub IsSlave : Writer → Type 0
IsSlave w = w.i_am_master ≡ false

module _ (rs : ResultSets) (J : Rapidjson) (d : IsDocumented rs) where
  -- With a documented result set the check never changes the state.
  pub check_master_same :
      (rounds : ℕ) (n l : ℤ) (env : Env) (w : Writer) → (check_master rs J rounds n l env w).1 ≡ w
  unfolding check_master collect
  check_master_same zero n l env w = ground arith
  check_master_same (suc rounds) n l env w = elim (Bool-cases (must_check n l env.now w)) [
    | inl due ↦
        ap (λ (x : Outcome (Unit {0}) × Writer). x.1) (check_master-due rs d J rounds n l env w due)
    | inr not_due ↦ rw not_due
  ]

  check_master-Keeps :
      (P : Writer → Type 0) (rounds : ℕ) (n l : ℤ) (env : Env)
      → Keeps P (check_master rs J rounds n l env)
  check_master-Keeps P rounds n l env = record {
    at = λ w h. rw (check_master_same rounds n l env w) h;
  }

  SyncIs-absorb_block :
      (rows : List SyncRow) (n l : ℤ) (w : Writer)
      → SyncIs rows w
      → SyncIs rows (absorb_block n l w)
  SyncIs-absorb_block rows n l w (h, c) =
      let s = SameRole-absorb_block n l w in (s.sync ∙ h, ap (λ (t : Tables). t.sync) s.durable ∙ c)

  -- With a documented result set no block message changes SYNC, however many blocks it confirms and
  -- acknowledges, and whether it returns or throws: neither in the session nor in what is
  -- committed.
  pub on_block-SyncIs :
      (rounds : ℕ) (env : Env) (json : J.Value) (rows : List SyncRow)
      → Keeps (SyncIs rows) (on_block rs J rounds env json)
  unfolding count_block confirm commit_now reset_counters
  on_block-SyncIs rounds env json rows =
      on_block-kept rs J (SyncIs rows)
        (record {
          counts_block = λ w h. h;
          absorbs = SyncIs-absorb_block rows;
          confirms = λ w h. (h.0, h.0);
          checks = λ rounds n l env. check_master-Keeps (SyncIs rows) rounds n l env;
          resets = λ now w h. h;
        })
        rounds env json

  IsSlave-verify_master : (env : Env) (w : Writer) → IsSlave w → IsSlave (verify_master env w)
  unfolding verify_master
  IsSlave-verify_master env w h = ground arith

  IsSlave-apply_fork : (n : ℤ) (w : Writer) → IsSlave w → IsSlave (apply_fork n (commit_now w))
  unfolding apply_fork commit_now write_sync_fork fork_rows fork_traces fork_bkp rewind
  IsSlave-apply_fork n w h = ground arith

  IsSlave-IsKept : IsKept rs J IsSlave
  unfolding commit_now push_bkp_trace count_trx count_block confirm reset_counters push_receipt
      push_transaction
  IsSlave-IsKept = record {
    reconnects = λ t w h. h;
    commits = λ w h. h;
    forks = IsSlave-apply_fork;
    saves = save_trace-kept J IsSlave (λ r w h. h) (λ t w h. h);
    pushes = λ t w h. h;
    counts_trx = λ w h. h;
    blocks = record {
      counts_block = λ w h. h;
      absorbs = λ n l w h. (SameRole-absorb_block n l w).master ∙ h;
      confirms = λ w h. h;
      checks = λ rounds n l env. check_master-Keeps IsSlave rounds n l env;
      resets = λ now w h. h;
    };
    verifies = IsSlave-verify_master;
    sends = λ ack w h. h;
  }

  Step-IsSlave : {u v : Writer} → Step rs J u v → IsSlave u → IsSlave v
  unfolding on_disconnect rollback
  Step-IsSlave {u} (reads rounds env buffer) h =
      (on_read-kept rs J IsSlave IsSlave-IsKept rounds env buffer).at u h
  Step-IsSlave {u} drops h = ground arith
  Step-IsSlave (others t) h = h

  -- With a documented result set a slave stays a slave: no history of messages, disconnections and
  -- writes of other processes makes it the master.
  pub Reach-IsSlave : {w v : Writer} → IsSlave w → Reach rs J w v → IsSlave v
  Reach-IsSlave h here = h
  Reach-IsSlave h (next r s) = Step-IsSlave s (Reach-IsSlave h r)
