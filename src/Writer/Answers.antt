-- ===== src/Writer/Answers.antt =====
-- The range of what Writer::processData answers (prototype/Writer.cpp): it returns an int.
use fio_relic.Base.{ℕ, arith, List, [], ◌∷◌, Bool, true, false, ◌==◌, not, if◌then◌else◌}
use fio_relic.Base.Int.{ℤ, negsuc, FitsInt32, to_int32, to_uint32, leb_ℤ, ltb_ℤ, ◌-ℤ◌}
use fio_relic.Base.Bytes.{Bytes, same_ignoring_case, codes}
use fio_relic.Base.Exec.{Exec, Outcome, done, thrown, json_error, continue, or_throw, pure}
use fio_relic.External.{Rapidjson, ResultSets}
use fio_relic.Writer.State.{Writer, Env}
use fio_relic.Writer.Batch.{string_at, object_at, array_at}
use fio_relic.Writer.Messages.{
  on_fork, fork_at, on_trace, trace_at, on_new_trace, keep_if_any, keep_trace, store_trace,
  get_block_time, long_at, trx_seq_of,
}
use fio_relic.Writer.Block.{
  count_block, absorb_block, confirm, report, trx_per_block, reset_counters,
}
use fio_relic.Writer.Takeover.{check_master}
use fio_relic.Writer.{
  process_data, dispatch, ensure_connection, split_message, skip_message, on_block, block_at,
  settle_block, confirm_block,
}

-- A value that is returned is an int.
abbrev pub ReturnsInt : Outcome ℤ → Type 0
ReturnsInt (done a) = FitsInt32 a
ReturnsInt (thrown e) = Unit {0}

to_int32-FitsInt32 : (x : ℤ) → FitsInt32 (to_int32 x)
unfolding to_int32 to_uint32
to_int32-FitsInt32 x = ground arith

continue-ReturnsInt :
    {A : Type 0} (o : Outcome A) (f : A → Exec Writer ℤ) (w : Writer)
    → ((a : A) → ReturnsInt (f a w).0)
    → ReturnsInt (continue o f w).0
continue-ReturnsInt (done a) f w h = h a
continue-ReturnsInt (thrown e) f w h = tt

choose-ReturnsInt :
    (b : Bool) (m n : Exec Writer ℤ) (w : Writer)
    → ReturnsInt (m w).0
    → ReturnsInt (n w).0
    → ReturnsInt ((if b then m else n) w).0
choose-ReturnsInt true m n w h k = h
choose-ReturnsInt false m n w h k = k

either-ReturnsInt :
    (b : Bool) (x y : Outcome ℤ × Writer)
    → ReturnsInt x.0
    → ReturnsInt y.0
    → ReturnsInt (if b then x else y).0
either-ReturnsInt true x y h k = h
either-ReturnsInt false x y h k = k

minus_one : FitsInt32 (negsuc 0)
minus_one = (omega arith, omega arith)

module _ (J : Rapidjson) where
  on_fork-ReturnsInt : (json : J.Value) (w : Writer) → ReturnsInt (on_fork J json w).0
  unfolding on_fork fork_at
  on_fork-ReturnsInt json w = continue-ReturnsInt (long_at J json "block_num") _ w (λ n.
      either-ReturnsInt (leb_ℤ w.confirmed_block w.irreversible) _ _ (to_int32-FitsInt32 _)
        (to_int32-FitsInt32 _))

  keep_if_any-ReturnsInt :
      (n : ℤ) (json trace : J.Value) (items : List J.Value) (text : Bytes) (w : Writer)
      → ReturnsInt (keep_if_any J n json trace items text w).0
  unfolding keep_if_any keep_trace
  keep_if_any-ReturnsInt n json trace [] text w = minus_one
  keep_if_any-ReturnsInt n json trace (first ∷ rest) text w =
      continue-ReturnsInt (get_block_time J json) _ w (λ time.
        continue-ReturnsInt (trx_seq_of J first) _ w (λ seq.
          continue-ReturnsInt (store_trace J seq n time trace text w).0 _
            (store_trace J seq n time trace text w).1 (λ _. minus_one)))

  on_new_trace-ReturnsInt :
      (n : ℤ) (json : J.Value) (text : Bytes) (w : Writer)
      → ReturnsInt (on_new_trace J n json text w).0
  unfolding on_new_trace
  on_new_trace-ReturnsInt n json text w =
      continue-ReturnsInt (object_at J json "trace") _ w (λ trace.
        continue-ReturnsInt (string_at J trace "status") _ w (λ status.
          choose-ReturnsInt (not (same_ignoring_case status (codes "executed"))) (pure (negsuc 0))
            (λ v.
              continue (array_at J trace "action_traces")
                (λ items. keep_if_any J n json trace items text) v)
            w minus_one
            (continue-ReturnsInt (array_at J trace "action_traces") _ w
              (λ items. keep_if_any-ReturnsInt n json trace items text w))))

  on_trace-ReturnsInt :
      (json : J.Value) (text : Bytes) (w : Writer) → ReturnsInt (on_trace J json text w).0
  unfolding on_trace trace_at
  on_trace-ReturnsInt json text w = continue-ReturnsInt (long_at J json "block_num") _ w (λ n.
      either-ReturnsInt (leb_ℤ n w.confirmed_block) (done (negsuc 0), w)
        (on_new_trace J n json text w) minus_one (on_new_trace-ReturnsInt n json text w))

report-ReturnsInt : (now : ℕ) (w : Writer) → ReturnsInt (report now w).0
unfolding report
report-ReturnsInt now w = divided (trx_per_block w)
  where
    divided :
        (o : Outcome ℕ)
        → let x : Outcome ℤ × Writer = elim o [
          | thrown e ↦ (thrown e, w)
          | done figure ↦ (done (to_int32 w.confirmed_block), reset_counters now w)
        ] in
          ReturnsInt x.0
    divided (thrown e) = tt
    divided (done figure) = to_int32-FitsInt32 w.confirmed_block

module _ (rs : ResultSets) (J : Rapidjson) where
  confirm_block-ReturnsInt :
      (rounds : ℕ) (env : Env) (n l : ℤ) (json : J.Value) (w : Writer)
      → ReturnsInt (confirm_block rs J rounds env n l json w).0
  unfolding confirm_block
  confirm_block-ReturnsInt rounds env n l json w =
      continue-ReturnsInt (string_at J json "block_id") _ w (λ id.
        continue-ReturnsInt (check_master rs J rounds n l env (confirm w)).0 _
          (check_master rs J rounds n l env (confirm w)).1 (λ _. report-ReturnsInt env.now _))

  settle_block-ReturnsInt :
      (rounds : ℕ) (env : Env) (n l : ℤ) (json : J.Value) (w : Writer)
      → ReturnsInt (settle_block rs J rounds env n l json w).0
  unfolding settle_block
  settle_block-ReturnsInt rounds env n l json w =
      either-ReturnsInt (leb_ℤ w.unconfirmed_block w.confirmed_block)
        (done (to_int32 w.unconfirmed_block), w) _ (to_int32-FitsInt32 w.unconfirmed_block)
        (either-ReturnsInt (ltb_ℤ (w.unconfirmed_block -ℤ w.confirmed_block) w.ack_every)
          (done (negsuc 0), w) (confirm_block rs J rounds env n l json w) minus_one
          (confirm_block-ReturnsInt rounds env n l json w))

  on_block-ReturnsInt :
      (rounds : ℕ) (env : Env) (json : J.Value) (w : Writer)
      → ReturnsInt (on_block rs J rounds env json w).0
  unfolding on_block block_at
  on_block-ReturnsInt rounds env json w =
      continue-ReturnsInt (get_block_time J json) _ (count_block w) (λ time.
        continue-ReturnsInt (long_at J json "last_irreversible") _ (count_block w) (λ l.
          continue-ReturnsInt (long_at J json "block_num") _ (count_block w)
            (λ n. settle_block-ReturnsInt rounds env n l json (absorb_block n l (count_block w)))))

  dispatch-ReturnsInt :
      (rounds : ℕ) (env : Env) (t : ℕ) (json : J.Value) (text : Bytes) (w : Writer)
      → ReturnsInt (dispatch rs J rounds env t json text w).0
  unfolding dispatch
  dispatch-ReturnsInt rounds env t json text w =
      choose-ReturnsInt (t == 1001) (on_fork J json) _ w (on_fork-ReturnsInt J json w) (
        choose-ReturnsInt (t == 1003) (on_trace J json text) _ w (on_trace-ReturnsInt J json text w)
          (choose-ReturnsInt (t == 1010) (on_block rs J rounds env json) skip_message w
            (on_block-ReturnsInt rounds env json w) minus_one))

  -- Whatever the message, the environment and the state, what processData returns is an int.
  pub process_data-ReturnsInt :
      (rounds : ℕ) (env : Env) (buffer : Bytes) (w : Writer)
      → ReturnsInt (process_data rs J rounds env buffer w).0
  unfolding process_data
  process_data-ReturnsInt rounds env buffer w =
      continue-ReturnsInt (ensure_connection env w).0 _ (ensure_connection env w).1 (λ _.
        continue-ReturnsInt (split_message buffer) _ (ensure_connection env w).1 (λ (t, opts, text).
          continue-ReturnsInt (or_throw (J.parse text) json_error (ensure_connection env w).1).0 _
            (or_throw (J.parse text) json_error (ensure_connection env w).1).1
            (λ json. dispatch-ReturnsInt rounds env t json text _)))
