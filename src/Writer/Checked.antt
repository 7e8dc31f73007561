-- ===== src/Writer/Checked.antt =====
-- The rule for the check of the master and the takeover (prototype/Writer.cpp): a property survives
-- them if the changes that they are made of keep it.
use fio_relic.Base.{ℕ, zero, suc}
use fio_relic.Base.Int.{ℤ, pos, ◌+ℤ◌}
use fio_relic.Base.Bytes.{Bytes}
use fio_relic.Base.Exec.{Exec, Keeps, or_throw, Keeps-bind, sql_error, json_access}
use fio_relic.External.{Rapidjson, ResultSets}
use fio_relic.Tables.{Trace}
use fio_relic.Writer.State.{Writer, Env}
use fio_relic.Writer.Batch.{fork_traces, send_traces_batch, object_at, save_trace}
use fio_relic.Writer.Messages.{commit_now, fork_bkp}
use fio_relic.Writer.Takeover.{
  check_master, take_over, restore_rows, restore_row, for_rows, judge, collect, become_master,
  fetch_bkp_traces, must_check, unknown_health, is_corrupted, master_stopped,
}
use fio_relic.Writer.Rules.{
  Keeps-then, Keeps-modify, Keeps-change, Keeps-if, Keeps-choose, Keeps-done, or_throw-Keeps,
}

module _ (rs : ResultSets) (J : Rapidjson) (P : Writer → Type 0) where
  -- Each change of the takeover keeps the property.
  pub record IsKeptByTakeover : Type 0 where
    pub becomes : (w : Writer) → P w → P (become_master w)
    pub forks : (n : ℤ) (w : Writer) → P w → P (fork_traces n w)
    pub saves :
        (seq : ℕ) (n : ℤ) (time : Bytes) (trace : J.Value) (text : Bytes)
        → Keeps P (save_trace J seq n time trace text)
    pub sends : (w : Writer) → P w → P (commit_now (send_traces_batch w))
    pub cleans : (n : ℤ) (w : Writer) → P w → P (commit_now (fork_bkp n w))

  -- A loop over an answer keeps what its body keeps.
  for_rows-kept :
      {A : Type 0} (rounds : ℕ) (c : rs.Cursor A) (body : A → Exec Writer (Unit {0}))
      → ((a : A) → Keeps P (body a))
      → Keeps P (for_rows rs rounds c body)
  unfolding for_rows
  for_rows-kept zero c body k = record { at = λ w h. h }
  for_rows-kept (suc rounds) c body k =
      Keeps-choose (rs.is_after_last c) _ _
        (Keeps-bind P (or_throw (rs.row c) sql_error) _ (or_throw-Keeps (rs.row c) sql_error)
          (λ a. Keeps-bind P (body a) _ (k a) (λ _. for_rows-kept rounds (rs.next c) body k)))
        (Keeps-done tt)

  module _ (k : IsKeptByTakeover) where
    restore_row-kept : (r : Trace) → Keeps P (restore_row rs J r)
    unfolding restore_row
    restore_row-kept r =
        Keeps-bind P (or_throw (J.parse r.trace) json_access) _
          (or_throw-Keeps (J.parse r.trace) json_access)
          (λ json.
            Keeps-then P (object_at J json "trace") _
              (λ trace. k.saves r.seq r.block_num r.block_time trace r.trace))

    restore_rows-kept : (rounds : ℕ) (start : ℤ) → Keeps P (restore_rows rs J rounds start)
    unfolding restore_rows
    restore_rows-kept rounds start = record {
      at = λ w.
          (for_rows-kept rounds
              (rs.first (rs.execute (fetch_bkp_traces start w.working.bkp_traces)))
              (restore_row rs J) restore_row-kept).at
            w;
    }

    pub take_over-kept : (rounds : ℕ) (irrev : ℤ) → Keeps P (take_over rs J rounds irrev)
    unfolding take_over
    take_over-kept rounds irrev =
        let start = irrev +ℤ pos 1 in
        Keeps-modify P become_master _ k.becomes (
          Keeps-modify P (fork_traces start) _ (k.forks start) (
            Keeps-bind P (restore_rows rs J rounds start) _ (restore_rows-kept rounds start) (λ _.
              Keeps-modify P (λ w. commit_now (send_traces_batch w)) _ k.sends
                (Keeps-change (λ w. commit_now (fork_bkp start w)) (k.cleans start)))))

    pub check_master-kept :
        (rounds : ℕ) (n l : ℤ) (env : Env) → Keeps P (check_master rs J rounds n l env)
    unfolding check_master judge
    check_master-kept rounds n l env =
        Keeps-if (must_check n l env.now) _ _
          (record {
            at = λ w.
                (Keeps-then P
                    (collect rs rounds w.source_id env.db_now (rs.first (rs.execute w.working.sync))
                      unknown_health)
                    (judge rs J rounds)
                    (λ h.
                      Keeps-choose (is_corrupted h) _ _ (record { at = λ v q. q })
                        (Keeps-choose (master_stopped h) _ _ (take_over-kept rounds h.master_irrev)
                          (Keeps-done tt)))).at
                  w;
          })
          (Keeps-done tt)
