-- ===== src/Writer/Kept.antt =====
-- The rule by which a property of the writer's state is shown to survive every message: it is
-- enough that each elementary change of onRead and processData (prototype/Writer.cpp) keeps it,
-- since every path of the handlers, those that throw included, is made of these changes.
use fio_relic.Base.{ℕ, List, [], ◌∷◌, ◌++◌, Option, none, some, ◌==◌, not}
use fio_relic.Base.Int.{ℤ, pos, negsuc, leb_ℤ}
use fio_relic.Base.Bytes.{Bytes, codes, same_ignoring_case}
use fio_relic.Base.Exec.{
  Keeps, Outcome, done, thrown, or_throw, Keeps-bind, no_reconnect, json_error,
}
use fio_relic.Base.Decimal.{to_string}
use fio_relic.External.{Rapidjson, ResultSets}
use fio_relic.Tables.{Tables, Trace}
use fio_relic.Writer.State.{Writer, Env}
use fio_relic.Writer.Batch.{save_trace, string_at, object_at, array_at}
use fio_relic.Writer.Messages.{
  commit_now, apply_fork, fork_at, push_bkp_trace, count_trx, on_fork, on_trace, trace_at,
  on_new_trace, keep_if_any, keep_trace, store_trace, long_at, trx_seq_of, get_block_time,
}
use fio_relic.Writer.{
  ensure_connection, dispatch, process_data, verify_master, write_ack, on_read, split_message,
}
use fio_relic.Writer.Rules.{
  Keeps-then, Keeps-modify, Keeps-choose, Keeps-if, Keeps-done, or_throw-Keeps,
}
use fio_relic.Writer.KeptByBlocks.{IsKeptByBlocks, on_block-kept}

module _ (rs : ResultSets) (J : Rapidjson) (P : Writer → Type 0) where
  -- Each elementary change keeps the property.
  pub record IsKept : Type 0 where
    pub reconnects : (t : Tables) (w : Writer) → P w → P (record w { committed = t; working = t })
    pub commits : (w : Writer) → P w → P (commit_now w)
    pub forks : (n : ℤ) (w : Writer) → P w → P (apply_fork n (commit_now w))
    pub saves :
        (seq : ℕ) (n : ℤ) (time : Bytes) (trace : J.Value) (text : Bytes)
        → Keeps P (save_trace J seq n time trace text)
    pub pushes : (t : Trace) (w : Writer) → P w → P (push_bkp_trace t w)
    pub counts_trx : (w : Writer) → P w → P (count_trx w)
    pub blocks : IsKeptByBlocks rs J P
    pub verifies : (env : Env) (w : Writer) → P w → P (verify_master env w)
    pub sends : (ack : Bytes) (w : Writer) → P w → P (record w { sent = w.sent ++ ack ∷ [] })

  module _ (k : IsKept) where
    fork_at-kept : (n : ℤ) → Keeps P (fork_at n)
    unfolding fork_at
    fork_at-kept n =
        Keeps-if (λ w. leb_ℤ w.confirmed_block w.irreversible) _ _
          (record { at = λ w h. k.commits w h }) (record { at = λ w h. k.forks n w h })

    on_fork-kept : (json : J.Value) → Keeps P (on_fork J json)
    unfolding on_fork
    on_fork-kept json = Keeps-then P (long_at J json "block_num") fork_at fork_at-kept

    store_trace-kept :
        (seq : ℕ) (n : ℤ) (time : Bytes) (trace : J.Value) (text : Bytes)
        → Keeps P (store_trace J seq n time trace text)
    unfolding store_trace
    store_trace-kept seq n time trace text =
        Keeps-if (λ w. w.i_am_master) _ _ (k.saves seq n time trace text)
          (Keeps-then P (string_at J trace "id") _ (λ id. record { at = λ w h. k.pushes _ w h }))

    keep_trace-kept :
        (n : ℤ) (json trace first : J.Value) (text : Bytes)
        → Keeps P (keep_trace J n json trace first text)
    unfolding keep_trace
    keep_trace-kept n json trace first text = Keeps-then P (get_block_time J json) _ (λ time.
        Keeps-then P (trx_seq_of J first) _ (λ seq.
          Keeps-bind P (store_trace J seq n time trace text) _
            (store_trace-kept seq n time trace text)
            (λ _. Keeps-modify P count_trx _ k.counts_trx (Keeps-done (negsuc 0)))))

    keep_if_any-kept :
        (n : ℤ) (json trace : J.Value) (items : List J.Value) (text : Bytes)
        → Keeps P (keep_if_any J n json trace items text)
    unfolding keep_if_any
    keep_if_any-kept n json trace [] text = Keeps-done (negsuc 0)
    keep_if_any-kept n json trace (first ∷ rest) text = keep_trace-kept n json trace first text

    on_new_trace-kept :
        (n : ℤ) (json : J.Value) (text : Bytes) → Keeps P (on_new_trace J n json text)
    unfolding on_new_trace
    on_new_trace-kept n json text = Keeps-then P (object_at J json "trace") _ (λ trace.
        Keeps-then P (string_at J trace "status") _ (λ status.
          Keeps-choose (not (same_ignoring_case status (codes "executed"))) _ _
            (Keeps-done (negsuc 0))
            (Keeps-then P (array_at J trace "action_traces") _
              (λ items. keep_if_any-kept n json trace items text))))

    on_trace-kept : (json : J.Value) (text : Bytes) → Keeps P (on_trace J json text)
    unfolding on_trace trace_at
    on_trace-kept json text = Keeps-then P (long_at J json "block_num") _ (λ n.
        Keeps-if (λ w. leb_ℤ n w.confirmed_block) _ _ (Keeps-done (negsuc 0))
          (on_new_trace-kept n json text))

    dispatch-kept :
        (rounds : ℕ) (env : Env) (msg_type : ℕ) (json : J.Value) (text : Bytes)
        → Keeps P (dispatch rs J rounds env msg_type json text)
    unfolding dispatch
    dispatch-kept rounds env msg_type json text =
        Keeps-choose (msg_type == 1001) _ _ (on_fork-kept json) (
          Keeps-choose (msg_type == 1003) _ _ (on_trace-kept json text) (
            Keeps-choose (msg_type == 1010) _ _ (on_block-kept rs J P k.blocks rounds env json)
              (Keeps-done (negsuc 0))))

    ensure_connection-kept : (env : Env) → Keeps P (ensure_connection env)
    unfolding ensure_connection
    ensure_connection-kept env =
        Keeps-if (λ w. w.connected) _ _
          (Keeps-if (λ _. env.valid) _ _ (Keeps-done tt)
            (record { at = λ w h. new_session w h env.reconnects }))
          (record { at = λ w h. h })
      where
        new_session :
            (w : Writer)
            → P w
            → (answer : Option Tables)
            → P (
                let r : Outcome (Unit {0}) × Writer = elim answer [
                  | none ↦ (thrown no_reconnect, w)
                  | some tables ↦ (done tt, record w { committed = tables; working = tables })
                ] in
                r.1)
        new_session w h none = h
        new_session w h (some tables) = k.reconnects tables w h

    pub process_data-kept :
        (rounds : ℕ) (env : Env) (buffer : Bytes) → Keeps P (process_data rs J rounds env buffer)
    unfolding process_data
    process_data-kept rounds env buffer =
        Keeps-bind P (ensure_connection env) _ (ensure_connection-kept env) (λ _.
          Keeps-then P (split_message buffer) _ (λ (msg_type, opts, text).
            Keeps-bind P (or_throw (J.parse text) json_error) _
              (or_throw-Keeps (J.parse text) json_error)
              (λ json. dispatch-kept rounds env msg_type json text)))

    write_ack-kept : (env : Env) (ack : Bytes) → Keeps P (write_ack env ack)
    unfolding write_ack
    write_ack-kept env ack =
        Keeps-if (λ w. w.has_websocket) _ _
          (Keeps-if (λ _. env.writes) _ _ (record { at = λ w h. k.sends ack w h })
            (record { at = λ w h. h }))
          (record { at = λ w h. h })

    -- Then onRead keeps it, for every message and every answer from outside.
    pub on_read-kept :
        (rounds : ℕ) (env : Env) (buffer : Bytes) → Keeps P (on_read rs J rounds env buffer)
    unfolding on_read
    on_read-kept rounds env buffer = Keeps-modify P (verify_master env) _ (k.verifies env) (
        Keeps-bind P (process_data rs J rounds env buffer) _ (process_data-kept rounds env buffer)
          (λ ack.
            Keeps-choose (leb_ℤ (pos 0) ack) _ _ (write_ack-kept env (to_string ack))
              (Keeps-done tt)))
