-- ===== src/Writer/Takeover.antt =====
-- The check of the master at the end of CHRONICLE_MSGTYPE_BLOCK_COMPLETED, and the takeover
-- (prototype/Writer.cpp). The loops over an answer are `for (r->first(); r->isAfterLast();
-- r->next())`; they run for at most the given number of rounds.
use fio_relic.Base.{
  ℕ, zero, suc, ◌+◌, ◌*◌, ◌^◌, List, [], ◌∷◌, Bool, true, ◌&&◌, ◌||◌, not, if◌then◌else◌, ltb, leb,
}
use fio_relic.Base.Int.{ℤ, pos, negsuc, sub_ℕ, ◌-ℤ◌, ◌+ℤ◌, ltb_ℤ, eqb_ℤ}
use fio_relic.Base.Exec.{
  Exec, Outcome, done, thrown, sync_corrupted, sql_error, json_access, out_of_rounds, and_then,
  from_option, from_outcome, or_throw, modify, pure, throw, ◌>>=◌, ◌>>◌,
}
use fio_relic.External.{Rapidjson, ResultSets}
use fio_relic.Tables.{Trace, SyncRow, from_block, demote_others, promote}
use fio_relic.Writer.State.{Writer, Env, commit}
use fio_relic.Writer.Batch.{fork_traces, send_traces_batch, save_trace, object_at}
use fio_relic.Writer.Messages.{commit_now, fork_bkp}

-- The variables of the check, all -1 at first.
pub record Health : Type 0 where
  pub my_upd : ℤ
  pub my_irrev : ℤ
  pub master_upd : ℤ
  pub master_irrev : ℤ
  pub old_master : ℤ

abbrev pub unknown_health : Health
unknown_health = record {
  my_upd = negsuc 0;
  my_irrev = negsuc 0;
  master_upd = negsuc 0;
  master_irrev = negsuc 0;
  old_master = negsuc 0;
}

-- The body of the loop over SYNC; `upd` is the time since the row was updated, in seconds.
unfoldable pub note_row : ℤ → ℕ → SyncRow → Health → Health
note_row source_id db_now r h =
    if eqb_ℤ r.source_id source_id
    then record h { my_upd = sub_ℕ db_now r.last_updated; my_irrev = r.irreversible }
    else if eqb_ℤ r.is_master (pos 0)
    then h
    else record h {
      master_upd = sub_ℕ db_now r.last_updated;
      master_irrev = r.irreversible;
      old_master = r.source_id;
    }

-- The tests on the collected figures.
unfoldable pub is_corrupted : Health → Bool
is_corrupted h =
    ltb_ℤ h.my_upd (pos 0)
    || ltb_ℤ h.my_irrev (pos 0)
    || ltb_ℤ h.master_upd (pos 0)
    || ltb_ℤ h.master_irrev (pos 0)
    || ltb_ℤ h.old_master (pos 0)

unfoldable pub master_stopped : Health → Bool
master_stopped h =
    ltb_ℤ h.master_irrev (h.my_irrev -ℤ pos 120)
    && ltb_ℤ (h.my_upd +ℤ pos 120) h.master_upd
    && ltb_ℤ h.my_upd (pos 10)

insert_by_seq : Trace → List Trace → List Trace
insert_by_seq t [] = t ∷ []
insert_by_seq t (r ∷ rows) = if leb t.seq r.seq then t ∷ r ∷ rows else r ∷ insert_by_seq t rows

-- sth_fetch_bkp_traces: SELECT … WHERE block_num >= ? ORDER BY seq
unfoldable pub fetch_bkp_traces : ℤ → List Trace → List Trace
unfolding insert_by_seq
fetch_bkp_traces start_block [] = []
fetch_bkp_traces start_block (r ∷ rows) =
    let rest = fetch_bkp_traces start_block rows in
    if from_block start_block r.block_num then insert_by_seq r rest else rest

-- The two updates of SYNC, the commit, and iAmMaster = true
unfoldable pub become_master : Writer → Writer
unfolding commit
become_master w =
    record (commit (record w {
      working = record w.working {
        sync = promote w.source_id (demote_others w.source_id w.working.sync);
      };
    })) { i_am_master = true }

-- Is it time to check? The clock counts nanoseconds, and 60 seconds are added to it.
unfoldable pub must_check : ℤ → ℤ → ℕ → Writer → Bool
must_check block_num last_irreversible now w =
    not w.i_am_master && ltb_ℤ last_irreversible block_num && ltb (w.retired_time + 60 * 10 ^ 9) now

module _ (rs : ResultSets) where
  -- for (r->first(); r->isAfterLast(); r->next()) body, from a cursor already moved by first.
  unfoldable pub for_rows :
      {A : Type 0} → ℕ → rs.Cursor A → (A → Exec Writer (Unit {0})) → Exec Writer (Unit {0})
  for_rows zero c body = throw out_of_rounds
  for_rows (suc rounds) c body =
      let rest = for_rows rounds (rs.next c) body in
      if rs.is_after_last c then (do a ← or_throw (rs.row c) sql_error; body a; rest) else pure tt

  -- The loop that collects the figures, with the figures as its state.
  unfoldable pub collect : ℕ → ℤ → ℕ → rs.Cursor SyncRow → Health → Outcome Health
  collect zero source_id db_now c h = thrown out_of_rounds
  collect (suc rounds) source_id db_now c h =
      let rest = λ (h' : Health). collect rounds source_id db_now (rs.next c) h' in
      if rs.is_after_last c
      then and_then (from_option (rs.row c) sql_error) (λ r. rest (note_row source_id db_now r h))
      else done h

  module _ (J : Rapidjson) where
    -- The body of the loop over the backup; a parse error shows as a failed assertion.
    unfoldable pub restore_row : Trace → Exec Writer (Unit {0})
    restore_row r = do
      json ← or_throw (J.parse r.trace) json_access
      trace ← from_outcome (object_at J json "trace")
      save_trace J r.seq r.block_num r.block_time trace r.trace

    -- The copy of the backup's rows, in the order of seq.
    unfoldable pub restore_rows : ℕ → ℤ → Exec Writer (Unit {0})
    restore_rows rounds start_block w =
        for_rows rounds (rs.first (rs.execute (fetch_bkp_traces start_block w.working.bkp_traces)))
          restore_row w

    -- What follows the log lines of the takeover.
    unfoldable pub take_over : ℕ → ℤ → Exec Writer (Unit {0})
    take_over rounds master_irrev = do
      let start_block = master_irrev +ℤ pos 1
      modify become_master
      modify (fork_traces start_block)
      restore_rows rounds start_block
      modify (λ w. commit_now (send_traces_batch w))
      modify (λ w. commit_now (fork_bkp start_block w))

    -- The check on the collected figures.
    unfoldable pub judge : ℕ → Health → Exec Writer (Unit {0})
    judge rounds h =
        if is_corrupted h
        then throw sync_corrupted
        else if master_stopped h
        then take_over rounds h.master_irrev
        else pure tt

    -- The check of the master's health.
    unfoldable pub check_master : ℕ → ℤ → ℤ → Env → Exec Writer (Unit {0})
    check_master rounds block_num last_irreversible env w =
        if must_check block_num last_irreversible env.now w
        then (do
          h ← from_outcome (
              collect rounds w.source_id env.db_now (rs.first (rs.execute w.working.sync))
                unknown_health)
          judge rounds h)
            w
        else (done tt, w)
