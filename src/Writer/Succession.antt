-- ===== src/Writer/Succession.antt =====
-- What a takeover leaves (the end of the case 1010 in prototype/Writer.cpp).
use fio_relic.Base.{ℕ, suc, ◌≡◌, refl, List, [], ◌∷◌, true, All, if◌then◌else◌, arith}
use fio_relic.Base.Int.{ℤ, pos, ◌+ℤ◌, ◌<ℤ◌}
use fio_relic.Base.Exec.{done}
use fio_relic.External.{Rapidjson, ResultSets, IsDocumented}
use fio_relic.Tables.{SyncRow, Trace, Receipt, has_source, demote_others, promote}
use fio_relic.Tables.Rows.{delete_traces_from-All, delete_receipts_from-All}
use fio_relic.Writer.State.{Writer}
use fio_relic.Writer.Batch.{fork_traces, send_traces_batch, send_queue}
use fio_relic.Writer.Messages.{commit_now, fork_bkp}
use fio_relic.Writer.Takeover.{take_over, become_master, restore_rows, for_rows, fetch_bkp_traces}

-- The rows of the given writer, and only these, say that it is the master.
abbrev pub IsOnlyMaster : ℤ → List SyncRow → Type 0
IsOnlyMaster source_id rows =
    All (λ (r : SyncRow). r.is_master ≡ (if has_source source_id r then pos 1 else pos 0)) rows

promote-IsOnlyMaster :
    (source_id : ℤ) (rows : List SyncRow)
    → IsOnlyMaster source_id (promote source_id (demote_others source_id rows))
unfolding promote demote_others
promote-IsOnlyMaster source_id [] = tt
promote-IsOnlyMaster source_id (r ∷ rows) = (ground arith, promote-IsOnlyMaster source_id rows)

-- The state `w'` that a takeover leaves of the state `w`: the writer is the master, alone in SYNC,
-- everything is committed, and the tables of the traces and the backup table hold no row from the
-- given block on.
pub record AfterTakeover (start_block : ℤ) (w w' : Writer) : Type 0 where
  pub master : w'.i_am_master ≡ true
  pub sync : IsOnlyMaster w.source_id w'.working.sync
  pub durable : w'.committed ≡ w'.working
  pub transactions : All (λ (r : Trace). r.block_num <ℤ start_block) w'.working.transactions
  pub receipts : All (λ (r : Receipt). r.block_num <ℤ start_block) w'.working.receipts
  pub backup : All (λ (r : Trace). r.block_num <ℤ start_block) w'.working.bkp_traces

send_traces_batch-nothing : (w : Writer) → w.insert_transactions ≡ [] → send_traces_batch w ≡ w
unfolding send_traces_batch send_queue
send_traces_batch-nothing w empty = rw empty refl

-- The statements of the takeover without the copy of the backup.
taken : ℤ → Writer → Writer
taken start_block w = commit_now (
    fork_bkp start_block
      (commit_now (send_traces_batch (fork_traces start_block (become_master w)))))

AfterTakeover-taken :
    (start_block : ℤ) (w : Writer)
    → w.insert_transactions ≡ []
    → AfterTakeover start_block w (taken start_block w)
unfolding taken become_master commit_now fork_bkp fork_traces
AfterTakeover-taken start_block w empty =
    rw (send_traces_batch-nothing (fork_traces start_block (become_master w)) empty) (record {
      master = refl;
      sync = promote-IsOnlyMaster w.source_id w.working.sync;
      durable = refl;
      transactions = delete_traces_from-All start_block w.working.transactions;
      receipts = delete_receipts_from-All start_block w.working.receipts;
      backup = delete_traces_from-All start_block w.working.bkp_traces;
    })

module _ (rs : ResultSets) (J : Rapidjson) (d : IsDocumented rs) where
  restore_nothing :
      (rounds : ℕ) (start_block : ℤ) (w : Writer)
      → restore_rows rs J (suc rounds) start_block w ≡ (done tt, w)
  unfolding restore_rows for_rows
  restore_nothing rounds start_block w =
      rw (d.first_not_after (fetch_bkp_traces start_block w.working.bkp_traces)) refl

  -- With a documented result set and a round, a takeover by a writer without queued transactions
  -- returns; it is then the only master in SYNC, everything is committed, and neither the tables of the
  -- traces nor the backup table hold a row above the last irreversible block of the old master: what
  -- the backup held of them is deleted there and copied nowhere.
  pub take_over_lem :
      (rounds : ℕ) (master_irrev : ℤ) (w : Writer)
      → w.insert_transactions ≡ []
      → (w' : Writer) × (take_over rs J (suc rounds) master_irrev w ≡ (done tt, w'))
        × AfterTakeover (master_irrev +ℤ pos 1) w w'
  unfolding take_over taken
  take_over_lem rounds master_irrev w empty = (
    taken (master_irrev +ℤ pos 1) w,
    rw
        (restore_nothing rounds (master_irrev +ℤ pos 1)
          (fork_traces (master_irrev +ℤ pos 1) (become_master w)))
        refl,
    AfterTakeover-taken (master_irrev +ℤ pos 1) w empty,
  )
