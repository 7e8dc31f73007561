-- ===== src/Writer/Endings.antt =====
-- How Writer::onRead ends (prototype/Writer.cpp), whatever the message and the state.
use fio_relic.Base.{
  ℕ, suc, ◌≡◌, refl, arith, List, [], ◌∷◌, Bool, true, false, Option, none, some, if◌then◌else◌,
  ltb, ◌==◌, drop, length, not,
}
use fio_relic.Base.Int.{ℤ, pos, negsuc, leb_ℤ}
use fio_relic.Base.Decimal.{to_string}
use fio_relic.Base.Bytes.{Bytes, same_ignoring_case, codes}
use fio_relic.Base.Exec.{
  Exec, Outcome, thrown, Fault, continue, division_by_zero, out_of_rounds, bad_read, json_error,
  or_throw, from_option, pure,
}
use fio_relic.External.{Rapidjson, ResultSets, IsDocumented}
use fio_relic.Writer.State.{Writer, Env}
use fio_relic.Writer.Batch.{string_at, object_at, array_at}
use fio_relic.Writer.Messages.{
  on_fork, fork_at, on_trace, trace_at, on_new_trace, keep_if_any, keep_trace, store_trace,
  get_block_time, long_at, trx_seq_of,
}
use fio_relic.Writer.{
  on_read, process_data, on_block, dispatch, ensure_connection, split_message, verify_master,
  write_ack, skip_message, read_int32_little_endian,
}
use fio_relic.Writer.Faults.{
  meets, AreApart, meets-continue, meets-and_then, meets-if, meets-from_option, meets-string_at,
  meets-long_at, meets-object_at, meets-array_at, meets-get_block_time, meets-trx_seq_of,
  meets-save_trace,
}
use fio_relic.Writer.Division.{meets-on_block}

-- A loop of the model that did not end within its rounds, or a division by zero.
abbrev pub is_unbounded : Fault → Bool
is_unbounded out_of_rounds = true
is_unbounded division_by_zero = true
is_unbounded _ = false

-- The outcome is one of these.
abbrev pub escapes : {A : Type 0} → Outcome A → Bool
escapes o = meets is_unbounded o

abbrev apart : AreApart is_unbounded
apart = record { access = refl; number = refl; range = refl; position = refl; corrupted = refl }

choose-escapes :
    {A : Type 0} (b : Bool) (m n : Exec Writer A) (w : Writer)
    → escapes (m w).0 ≡ false
    → escapes (n w).0 ≡ false
    → escapes ((if b then m else n) w).0 ≡ false
choose-escapes true m n w h k = h
choose-escapes false m n w h k = k

module _ (J : Rapidjson) where
  fork_at-escapes : (n : ℤ) (w : Writer) → escapes (fork_at n w).0 ≡ false
  unfolding fork_at
  fork_at-escapes n w = ground arith

  on_fork-escapes : (json : J.Value) (w : Writer) → escapes (on_fork J json w).0 ≡ false
  unfolding on_fork
  on_fork-escapes json w =
      meets-continue is_unbounded (long_at J json "block_num") _ w
        (meets-long_at is_unbounded apart J json "block_num") (λ n. fork_at-escapes n w)

  store_trace-escapes :
      (seq : ℕ) (n : ℤ) (time : Bytes) (trace : J.Value) (text : Bytes) (w : Writer)
      → escapes (store_trace J seq n time trace text w).0 ≡ false
  unfolding store_trace
  store_trace-escapes seq n time trace text w = chosen w.i_am_master
    where
      chosen :
          (b : Bool)
          → escapes (store_trace J seq n time trace text (record w { i_am_master = b })).0 ≡ false
      chosen true = meets-save_trace is_unbounded apart J seq n time trace text _
      chosen false =
          meets-continue is_unbounded (string_at J trace "id") _ _
            (meets-string_at is_unbounded apart J trace "id") (λ id. refl)

  keep_trace-escapes :
      (n : ℤ) (json trace first : J.Value) (text : Bytes) (w : Writer)
      → escapes (keep_trace J n json trace first text w).0 ≡ false
  unfolding keep_trace
  keep_trace-escapes n json trace first text w =
      meets-continue is_unbounded (get_block_time J json) _ w
        (meets-get_block_time is_unbounded apart J json)
        (λ time.
          meets-continue is_unbounded (trx_seq_of J first) _ w
            (meets-trx_seq_of is_unbounded apart J first)
            (λ seq.
              meets-continue is_unbounded (store_trace J seq n time trace text w).0 _
                (store_trace J seq n time trace text w).1
                (store_trace-escapes seq n time trace text w) (λ _. refl)))

  keep_if_any-escapes :
      (n : ℤ) (json trace : J.Value) (items : List J.Value) (text : Bytes) (w : Writer)
      → escapes (keep_if_any J n json trace items text w).0 ≡ false
  unfolding keep_if_any
  keep_if_any-escapes n json trace [] text w = refl
  keep_if_any-escapes n json trace (first ∷ rest) text w =
      keep_trace-escapes n json trace first text w

  on_new_trace-escapes :
      (n : ℤ) (json : J.Value) (text : Bytes) (w : Writer)
      → escapes (on_new_trace J n json text w).0 ≡ false
  unfolding on_new_trace
  on_new_trace-escapes n json text w =
      meets-continue is_unbounded (object_at J json "trace") _ w
        (meets-object_at is_unbounded apart J json "trace")
        (λ trace.
          meets-continue is_unbounded (string_at J trace "status") _ w
            (meets-string_at is_unbounded apart J trace "status")
            (λ status.
              choose-escapes (not (same_ignoring_case status (codes "executed"))) (pure (negsuc 0))
                (λ v.
                  continue (array_at J trace "action_traces")
                    (λ items. keep_if_any J n json trace items text) v)
                w refl
                (meets-continue is_unbounded (array_at J trace "action_traces") _ w
                  (meets-array_at is_unbounded apart J trace "action_traces")
                  (λ items. keep_if_any-escapes n json trace items text w))))

  trace_at-escapes :
      (n : ℤ) (json : J.Value) (text : Bytes) (w : Writer)
      → escapes (trace_at J n json text w).0 ≡ false
  unfolding trace_at
  trace_at-escapes n json text w = ground (arith, on_new_trace-escapes n json text w)

  on_trace-escapes :
      (json : J.Value) (text : Bytes) (w : Writer) → escapes (on_trace J json text w).0 ≡ false
  unfolding on_trace
  on_trace-escapes json text w =
      meets-continue is_unbounded (long_at J json "block_num") _ w
        (meets-long_at is_unbounded apart J json "block_num") (λ n. trace_at-escapes n json text w)

ensure_connection-escapes : (env : Env) (w : Writer) → escapes (ensure_connection env w).0 ≡ false
unfolding ensure_connection
ensure_connection-escapes env w = answered w.connected env.valid env.reconnects
  where
    answered :
        (connected valid : Bool) (o : Option _)
        → escapes
            (ensure_connection
              (record env { valid = valid; reconnects = o })
              (record w { connected = connected })).0
          ≡ false
    answered false valid o = refl
    answered true true o = refl
    answered true false none = refl
    answered true false (some t) = refl

split_message-escapes : (buffer : Bytes) → escapes (split_message buffer) ≡ false
unfolding split_message
split_message-escapes buffer =
    meets-if is_unbounded (ltb (length buffer) 8) (thrown bad_read) _ refl (
      meets-and_then is_unbounded (from_option (read_int32_little_endian buffer) bad_read) _
        (meets-from_option is_unbounded (read_int32_little_endian buffer) bad_read refl)
        (λ t.
          meets-and_then is_unbounded
            (from_option (read_int32_little_endian (drop 4 buffer)) bad_read) _
            (meets-from_option is_unbounded (read_int32_little_endian (drop 4 buffer)) bad_read
              refl)
            (λ opts. refl)))

write_ack-escapes :
    (env : Env) (text : Bytes) (w : Writer) → escapes (write_ack env text w).0 ≡ false
unfolding write_ack
write_ack-escapes env text w = ground arith

parse-escapes :
    {A : Type 0} (o : Option A) (w : Writer)
    → escapes (or_throw {S = Writer} o json_error w).0 ≡ false
parse-escapes none w = refl
parse-escapes (some a) w = refl

module _ (rs : ResultSets) (J : Rapidjson) (d : IsDocumented rs) where
  dispatch-escapes :
      (rounds : ℕ) (env : Env) (t : ℕ) (json : J.Value) (text : Bytes) (w : Writer)
      → escapes (dispatch rs J (suc rounds) env t json text w).0 ≡ false
  unfolding dispatch
  dispatch-escapes rounds env t json text w =
      choose-escapes (t == 1001) (on_fork J json) _ w (on_fork-escapes J json w) (
        choose-escapes (t == 1003) (on_trace J json text) _ w (on_trace-escapes J json text w) (
          choose-escapes (t == 1010) (on_block rs J (suc rounds) env json) skip_message w
            (meets-on_block rs J d is_unbounded apart (suc rounds) env json w tt) refl))

  process_data-escapes :
      (rounds : ℕ) (env : Env) (buffer : Bytes) (w : Writer)
      → escapes (process_data rs J (suc rounds) env buffer w).0 ≡ false
  unfolding process_data
  process_data-escapes rounds env buffer w =
      meets-continue is_unbounded (ensure_connection env w).0 _ (ensure_connection env w).1
        (ensure_connection-escapes env w)
        (λ _.
          meets-continue is_unbounded (split_message buffer) _ _ (split_message-escapes buffer)
            (λ (t, opts, text).
              meets-continue is_unbounded
                (or_throw (J.parse text) json_error (ensure_connection env w).1).0 _
                (or_throw (J.parse text) json_error (ensure_connection env w).1).1
                (parse-escapes (J.parse text) _)
                (λ json. dispatch-escapes rounds env t json text _)))

  -- One round is enough: with a documented result set and any number of rounds above 0, no message,
  -- whatever its bytes, the environment and the state, makes onRead run out of rounds or divide by zero.
  pub on_read-escapes :
      (rounds : ℕ) (env : Env) (buffer : Bytes) (w : Writer)
      → escapes (on_read rs J (suc rounds) env buffer w).0 ≡ false
  unfolding on_read
  on_read-escapes rounds env buffer w =
      let x = process_data rs J (suc rounds) env buffer (verify_master env w) in
      meets-continue is_unbounded x.0 _ x.1
        (process_data-escapes rounds env buffer (verify_master env w))
        (λ ack.
          choose-escapes (leb_ℤ (pos 0) ack) (write_ack env (to_string ack)) (pure tt) x.1
            (write_ack-escapes env (to_string ack) x.1) refl)
