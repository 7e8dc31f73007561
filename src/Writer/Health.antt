-- ===== src/Writer/Health.antt =====
-- The check of the master's health (the end of the case 1010 in prototype/Writer.cpp) with result
-- sets that behave as documented: its loop is `for (r->first(); r->isAfterLast(); r->next())`.
use fio_relic.Base.{ℕ, suc, List, true, ◌≡◌}
use fio_relic.Base.Int.{ℤ}
use fio_relic.Base.Bytes.{Bytes}
use fio_relic.Base.Exec.{done, thrown, sync_corrupted}
use fio_relic.External.{Rapidjson, ResultSets, IsDocumented}
use fio_relic.Tables.{SyncRow}
use fio_relic.Writer.State.{Writer, Env}
use fio_relic.Writer.Batch.{string_at}
use fio_relic.Writer.Block.{confirm}
use fio_relic.Writer.Takeover.{
  Health, unknown_health, collect, judge, is_corrupted, check_master, must_check,
}
use fio_relic.Writer.{confirm_block}

module _ (rs : ResultSets) (d : IsDocumented rs) where
  collect_nothing :
      (rounds : ℕ) (source_id : ℤ) (db_now : ℕ) (rows : List SyncRow) (h : Health)
      → collect rs (suc rounds) source_id db_now (rs.first (rs.execute rows)) h ≡ done h
  unfolding collect
  collect_nothing rounds source_id db_now rows h = rw (d.first_not_after rows)

  module _ (J : Rapidjson) where
    -- Whenever the check is due it ends in the exception about a corrupted SYNC table, whatever
    -- rows SYNC holds and however long the master has been silent, and changes nothing.
    pub check_master-due :
        (rounds : ℕ) (n l : ℤ) (env : Env) (w : Writer)
        → must_check n l env.now w ≡ true
        → check_master rs J (suc rounds) n l env w ≡ (thrown sync_corrupted, w)
    unfolding check_master judge is_corrupted
    check_master-due rounds n l env w due = rw (
      due,
      check_master,
      collect_nothing rounds w.source_id env.db_now w.working.sync unknown_health,
    )

    -- For every documented result set, every number of rounds above 0 and every content of SYNC: a
    -- slave that is to confirm a block above the last irreversible one, later than 60 seconds after
    -- it retired, with a block id that can be read, commits and marks the block as confirmed, and then
    -- stops with the exception that SYNC is corrupted.
    pub confirm_block_corrupted :
        (rounds : ℕ) (n l : ℤ) (env : Env) (json : J.Value) (id : Bytes) (w : Writer)
        → string_at J json "block_id" ≡ done id
        → must_check n l env.now (confirm w) ≡ true
        → confirm_block rs J (suc rounds) env n l json w ≡ (thrown sync_corrupted, confirm w)
    unfolding confirm_block
    confirm_block_corrupted rounds n l env json id w has_id due =
        rw (has_id, check_master-due rounds n l env (confirm w) due)
