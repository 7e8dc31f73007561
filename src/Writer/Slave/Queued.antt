-- ===== src/Writer/Slave/Queued.antt =====
-- The messages that precede the end of a block, read by a slave (Writer::onRead in
-- prototype/Writer.cpp).
use mathlib.Core.List.{append-nil, append_assoc}
use fio_relic.Base.{
  Option, none, some, ℕ, ◌+◌, List, [], ◌∷◌, ◌++◌, map, true, false, ◌≡◌, refl, sym, ap, ◌∙◌,
  length, arith,
}
use fio_relic.Base.Int.{ℤ, negsuc, ◌<ℤ◌}
use fio_relic.Base.Bytes.{Bytes}
use fio_relic.Base.Exec.{done}
use fio_relic.External.{Rapidjson, ResultSets}
use fio_relic.Tables.{Trace}
use fio_relic.Writer.State.{Writer, Env}
use fio_relic.Writer.Messages.{on_trace, push_bkp_trace, count_trx}
use fio_relic.Writer.{on_read, dispatch, verify_master}
use fio_relic.Writer.Reply.{on_read-replies}
use fio_relic.Writer.Traces.{trace_at_slave}
use fio_relic.Writer.Store.{TraceMessage, row}
use fio_relic.Writer.Ignored.{dispatch-ignored}
use fio_relic.Writer.Buffers.{TraceBuffer, Says, messages, with_message}
use fio_relic.Writer.Wire.{read_buffers, process_data-dispatch}

-- A slave with a connection and a stream.
pub record IsAttached (w : Writer) : Type 0 where
  pub slave : w.i_am_master ≡ false
  pub connected : w.connected ≡ true
  pub has_websocket : w.has_websocket ≡ true

-- A slave does not ask SYNC whether it is the master.
pub verify_master-slave : (env : Env) (w : Writer) → w.i_am_master ≡ false → verify_master env w ≡ w
unfolding verify_master
verify_master-slave env w slave = rw slave refl

-- The rows stand in the slave's queue, and are counted.
unfoldable pub queue_rows : List Trace → Writer → Writer
queue_rows ts w = record w {
  insert_bkp_traces = w.insert_bkp_traces ++ ts;
  trx_counter = w.trx_counter + length ts;
}

pub queue_rows-IsAttached :
    (ts : List Trace) (w : Writer) → IsAttached w → IsAttached (queue_rows ts w)
unfolding queue_rows
queue_rows-IsAttached ts w k = record {
  slave = k.slave;
  connected = k.connected;
  has_websocket = k.has_websocket;
}

same_queue :
    (w : Writer) {ts us : List Trace} {a b : ℕ}
    → ts ≡ us
    → a ≡ b
    → record w { insert_bkp_traces = ts; trx_counter = a }
      ≡ record w { insert_bkp_traces = us; trx_counter = b }
same_queue w e ea = rw (e, ea) refl

queue_rows-none : (w : Writer) → w ≡ queue_rows [] w
unfolding queue_rows
queue_rows-none w = same_queue w (sym (append-nil w.insert_bkp_traces)) (omega arith)

queue_rows-cons :
    (t : Trace) (ts : List Trace) (w : Writer)
    → queue_rows ts (queue_rows (t ∷ []) w) ≡ queue_rows (t ∷ ts) w
unfolding queue_rows
queue_rows-cons t ts w = same_queue w (append_assoc w.insert_bkp_traces (t ∷ []) ts) (omega arith)

queue_rows-above :
    (n : ℤ) (ts : List Trace) (w : Writer)
    → w.confirmed_block <ℤ n
    → (queue_rows ts w).confirmed_block <ℤ n
unfolding queue_rows
queue_rows-above n ts w above = above

module _ (rs : ResultSets) (J : Rapidjson) (rounds : ℕ) {n : ℤ} where
  -- The row that a message says.
  abbrev said : Option (TraceMessage J n) → List Trace
  said none = []
  said (some m) = row m ∷ []

  dispatch-queues :
      (o : Option (TraceMessage J n)) (env : Env) (msg_type : ℕ) (json : J.Value) (text : Bytes)
      (w : Writer)
      → Says J n o msg_type json text
      → w.i_am_master ≡ false
      → w.confirmed_block <ℤ n
      → dispatch rs J rounds env msg_type json text w ≡ (done (negsuc 0), queue_rows (said o) w)
  unfolding dispatch on_trace push_bkp_trace count_trx queue_rows
  dispatch-queues none env msg_type json text w says slave above =
      rw (← queue_rows-none w) (dispatch-ignored rs J rounds env msg_type json text w says)
  dispatch-queues (some m) env msg_type json text w (e, ej, et) slave above =
      rw (e, ej, et, m.has_block)
        (trace_at_slave J n m.json m.trace m.first m.others m.text m.status m.id m.time m.seq w
          m.has_trace m.has_status m.executed m.has_items m.has_time m.has_seq m.has_id above slave)

  queue_rows-said :
      (o : Option (TraceMessage J n)) (ms : List (TraceMessage J n)) (w : Writer)
      → queue_rows (map row ms) (queue_rows (said o) w) ≡ queue_rows (map row (with_message o ms)) w
  queue_rows-said none ms w = ap (queue_rows (map row ms)) (sym (queue_rows-none w))
  queue_rows-said (some m) ms w = queue_rows-cons (row m) (map row ms) w

  on_read-queues :
      (b : TraceBuffer J n) (w : Writer)
      → IsAttached w
      → w.confirmed_block <ℤ n
      → on_read rs J rounds b.env b.buffer w ≡ (done tt, queue_rows (said b.message) w)
  on_read-queues b w k above =
      let v = queue_rows (said b.message) w in
      let processed =
        process_data-dispatch rs J rounds b.env b.buffer b.msg_type b.opts b.text b.json w
          k.connected b.valid b.header b.parsed
        ∙ dispatch-queues b.message b.env b.msg_type b.json b.text w b.says k.slave above in
      (on_read-replies rs J rounds b.env b.buffer w v (negsuc 0)
        (rw (verify_master-slave b.env w k.slave) processed)
        (queue_rows-IsAttached (said b.message) w k).has_websocket b.writes).0
      ∙ ap (λ (l : List Bytes). (done tt, record v { sent = l })) (append-nil v.sent)

  -- The transactions that the messages say are queued in their order, and nothing else is done.
  pub read_buffers-queues :
      (bs : List (TraceBuffer J n)) (w : Writer)
      → IsAttached w
      → w.confirmed_block <ℤ n
      → read_buffers rs J rounds bs w ≡ (done tt, queue_rows (map row (messages bs)) w)
  unfolding read_buffers
  read_buffers-queues [] w k above = ap (λ (v : Writer). (done tt, v)) (queue_rows-none w)
  read_buffers-queues (b ∷ bs) w k above =
      let v = queue_rows (said b.message) w in
      rw
        (
          on_read-queues b w k above,
          read_buffers-queues bs v (queue_rows-IsAttached (said b.message) w k)
              (queue_rows-above n (said b.message) w above),
        )
        (ap (λ (u : Writer). (done tt, u)) (queue_rows-said b.message (messages bs) w))
