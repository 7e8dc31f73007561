-- ===== src/Writer/Wire.antt =====
-- The messages that precede the end of a block, as Writer::onRead reads them from the websocket
-- (prototype/Writer.cpp).
use mathlib.Core.List.{append-nil}
use fio_relic.Base.{Option, none, ℕ, List, [], ◌∷◌, true, ◌≡◌, refl, ap, ◌∙◌, some}
use fio_relic.Base.Int.{ℤ, negsuc}
use fio_relic.Base.Bytes.{Bytes}
use fio_relic.Base.Exec.{Exec, done, pure, ◌>>◌}
use fio_relic.External.{Rapidjson, ResultSets}
use fio_relic.Writer.State.{Writer, Env}
use fio_relic.Writer.{
  on_read, process_data, dispatch, ensure_connection, split_message, verify_master,
}
use fio_relic.Writer.Reply.{on_read-replies}
use fio_relic.Writer.Store.{TraceMessage}
use fio_relic.Writer.Chain.{IsReady, Grew-IsReady, on_trace-pushes}
use fio_relic.Writer.Ignored.{dispatch-ignored}
use fio_relic.Writer.Buffers.{
  TraceBuffer, Says, IsLinked, IsLinked-Grew, verify_master-Grew, push_said, push_buffer,
  push_buffers, push_buffer-IsLinked, push_buffer-IsReady,
}

module _ (rs : ResultSets) (J : Rapidjson) (rounds : ℕ) where
  -- A message whose header and JSON text can be read goes to the switch.
  pub process_data-dispatch :
      (env : Env) (buffer : Bytes) (msg_type opts : ℕ) (text : Bytes) (json : J.Value) (w : Writer)
      → w.connected ≡ true
      → env.valid ≡ true
      → split_message buffer ≡ done (msg_type, opts, text)
      → J.parse text ≡ some json
      → process_data rs J rounds env buffer w ≡ dispatch rs J rounds env msg_type json text w
  unfolding process_data ensure_connection
  process_data-dispatch env buffer msg_type opts text json w connected valid header parsed =
      rw (connected, valid, header, parsed) refl

  module _ {n : ℤ} where
    dispatch-Says :
        (o : Option (TraceMessage J n)) (env : Env) (msg_type : ℕ) (json : J.Value) (text : Bytes)
        (w : Writer)
        → Says J n o msg_type json text
        → IsReady J n w
        → dispatch rs J rounds env msg_type json text w ≡ (done (negsuc 0), push_said o w)
    unfolding dispatch
    dispatch-Says none env msg_type json text w says ready =
        dispatch-ignored rs J rounds env msg_type json text w says
    dispatch-Says (some m) env msg_type json text w (e, ej, et) ready =
        rw (e, ej, et) (on_trace-pushes J n m w ready)

    on_read-pushes :
        (b : TraceBuffer J n) (w : Writer)
        → IsReady J n w
        → IsLinked w
        → on_read rs J rounds b.env b.buffer w ≡ (done tt, push_buffer b w)
    on_read-pushes b w ready k =
        let v = verify_master b.env w in
        let g = verify_master-Grew b.env w k in
        let pushed =
          process_data-dispatch b.env b.buffer b.msg_type b.opts b.text b.json v
            (IsLinked-Grew [] [] w v g k).connected b.valid b.header b.parsed
          ∙ dispatch-Says b.message b.env b.msg_type b.json b.text v b.says
              (Grew-IsReady J n [] [] w v g ready) in
        (on_read-replies rs J rounds b.env b.buffer w (push_buffer b w) (negsuc 0) pushed
          (push_buffer-IsLinked b w k).has_websocket b.writes).0
        ∙ ap (λ (l : List Bytes). (done tt, record (push_buffer b w) { sent = l }))
            (append-nil (push_buffer b w).sent)

    unfoldable pub read_buffers : List (TraceBuffer J n) → Exec Writer (Unit {0})
    read_buffers [] = pure tt
    read_buffers (b ∷ bs) =
        let rest = read_buffers bs in (do on_read rs J rounds b.env b.buffer; rest)

    pub read_buffers-pushes :
        (bs : List (TraceBuffer J n)) (w : Writer)
        → IsReady J n w
        → IsLinked w
        → read_buffers bs w ≡ (done tt, push_buffers bs w)
    unfolding read_buffers push_buffers
    read_buffers-pushes [] w ready k = refl
    read_buffers-pushes (b ∷ bs) w ready k = rw (on_read-pushes b w ready k) (
        read_buffers-pushes bs (push_buffer b w) (push_buffer-IsReady b w k ready)
          (push_buffer-IsLinked b w k))
