-- ===== src/Writer/Served.antt =====
-- A master that reads the bytes of blocks from its websocket and writes its acknowledgements there
-- (Writer::onRead in prototype/Writer.cpp).
use fio_relic.Base.{ℕ, List, ◌++◌, true, ◌≡◌, ◌∙◌, some}
use fio_relic.Base.Int.{ℤ}
use fio_relic.Base.Bytes.{Bytes}
use fio_relic.Base.Exec.{Exec, Outcome, done, ◌>>◌}
use fio_relic.External.{Rapidjson, ResultSets}
use fio_relic.Writer.State.{Writer}
use fio_relic.Writer.{on_read, dispatch, on_block, split_message, verify_master}
use fio_relic.Writer.Fork.{HasEmptyQueues}
use fio_relic.Writer.Queues.{HasEmptyQueues-IsQueued}
use fio_relic.Writer.Runs.{verify_master-IsQueued}
use fio_relic.Writer.Reply.{replies, on_read-replies}
use fio_relic.Writer.Store.{write_all-others}
use fio_relic.Writer.Chain.{IsReady, Grew-IsReady}
use fio_relic.Writer.Settled.{BlockMessage, HasRead, Settles, Settles-done, on_block-Settles}
use fio_relic.Writer.Buffers.{
  TraceBuffer, messages, IsLinked, IsLinked-Grew, verify_master-Grew, Grew-then, push_buffers,
  push_buffers-Grew, push_buffers-IsQueued,
}
use fio_relic.Writer.Wire.{read_buffers, read_buffers-pushes, process_data-dispatch}

-- The bytes of a completed block, behind those of its traces.
pub record BlockBuffers (J : Rapidjson) : Type 0 where
  pub block : BlockMessage J
  pub traces : List (TraceBuffer J block.number)
  pub same : block.traces ≡ messages traces
  pub buffer : Bytes
  pub opts : ℕ
  pub text : Bytes
  pub valid : block.env.valid ≡ true
  pub writes : block.env.writes ≡ true
  pub header : split_message buffer ≡ done (1010, opts, text)
  pub parsed : J.parse text ≡ some block.json

pub HasRead-IsLinked :
    (J : Rapidjson) (b : BlockMessage J) (w w' : Writer)
    → HasRead J b w w'
    → IsLinked w
    → IsLinked w'
HasRead-IsLinked J b w w' h k = record {
  connected = h.link.connected ∙ k.connected;
  has_websocket = h.link.has_websocket ∙ k.has_websocket;
  listed =
      rw (h.link.source, h.session.others.0 ∙ (write_all-others b.traces w.working).0) k.listed;
}

module _ (rs : ResultSets) (J : Rapidjson) (rounds : ℕ) where
  unfoldable pub read_block_buffers : BlockBuffers J → Exec Writer (Unit {0})
  read_block_buffers b = do
    read_buffers rs J rounds b.traces
    on_read rs J rounds b.block.env b.buffer

  -- The block settles as it does without the websocket, and the answer is written there.
  abbrev pub Replies : BlockBuffers J → Writer → Outcome (Unit {0}) × Writer → Type 0
  Replies b w x =
      (r : ℤ) × (u : Writer) × Settles rs J rounds b.block w (done r, u)
      × (x ≡ (done tt, record u { sent = u.sent ++ replies r }))

  pub read_block_buffers-Replies :
      (b : BlockBuffers J) (w : Writer)
      → HasEmptyQueues w
      → IsReady J b.block.number w
      → IsLinked w
      → Replies b w (read_block_buffers b w)
  unfolding read_block_buffers dispatch
  read_block_buffers-Replies b w empty ready k =
      let v = push_buffers b.traces w in
      let g = push_buffers-Grew b.traces w k in
      let linked = IsLinked-Grew _ _ w v g k in
      let u = verify_master b.block.env v in
      let g' = Grew-then _ _ w v u g (verify_master-Grew b.block.env v linked) in
      let settles =
        on_block-Settles rs J rounds b.block w u empty (rw b.same g')
          (verify_master-IsQueued b.block.env v
            (push_buffers-IsQueued b.traces w (HasEmptyQueues-IsQueued w empty)))
          (Grew-IsReady J b.block.number _ _ w u g' ready) in
      let (r, e, s) =
        Settles-done rs J rounds b.block w (on_block rs J rounds b.block.env b.block.json u)
          settles in
      (
        r,
        (on_block rs J rounds b.block.env b.block.json u).1,
        s,
        rw (read_buffers-pushes rs J rounds b.traces w ready k)
            (on_read-replies rs J rounds b.block.env b.buffer v
              (on_block rs J rounds b.block.env b.block.json u).1 r
              (process_data-dispatch rs J rounds b.block.env b.buffer 1010 b.opts b.text
                  b.block.json u (IsLinked-Grew _ _ w u g' k).connected b.valid b.header b.parsed
                ∙ e)
              (HasRead-IsLinked J b.block w _ s.0 k).has_websocket b.writes).0,
      )
