-- ===== src/Writer/Cut.antt =====
-- A master whose client goes between two blocks (Writer::onRead and Writer::onDisconnect in
-- prototype/Writer.cpp).
use fio_relic.Base.{ℕ, List, ◌++◌, true, false, ◌≡◌, refl}
use fio_relic.Base.Exec.{done, continue-returns, ◌>>◌}
use fio_relic.External.{Rapidjson, ResultSets}
use fio_relic.Writer.State.{Writer, rollback}
use fio_relic.Writer.{on_disconnect}
use fio_relic.Writer.Store.{Agrees}
use fio_relic.Writer.Fork.{HasEmptyQueues}
use fio_relic.Writer.Settled.{BlockMessage}
use fio_relic.Writer.History.{IsAscending, last_number, blocks}
use fio_relic.Writer.Buffers.{IsLinked}
use fio_relic.Writer.Served.{BlockBuffers}
use fio_relic.Writer.Sequence.{read_stream}
use fio_relic.Writer.Stream.{write_blocks, IsServedByMaster, read_stream-IsServed}

-- The writer holds what a store has that writes each message at once, behind the first of the blocks:
-- those up to the confirmed one. Nothing is left to be committed, and no queue holds a row.
pub record IsCut {J : Rapidjson} (bs : List (BlockMessage J)) (w w' : Writer) : Type 0 where
  pub stored : List (BlockMessage J)
  pub lost : List (BlockMessage J)
  pub parts : bs ≡ stored ++ lost
  pub tables : Agrees w'.working (write_blocks stored w.working)
  pub durable : w'.committed ≡ w'.working
  pub confirmed : w'.confirmed_block ≡ last_number w.confirmed_block stored
  pub queues : HasEmptyQueues w'

on_disconnect-IsCut :
    (J : Rapidjson) (bs : List (BlockMessage J)) (w v : Writer)
    → IsServedByMaster bs w v
    → ((on_disconnect v).0 ≡ done tt) × IsCut bs w (on_disconnect v).1
unfolding on_disconnect rollback
on_disconnect-IsCut J bs w v s = rw s.stored.kept.serving.linked.connected (
  refl,
  record {
    stored = s.stored.stored;
    lost = s.stored.waiting;
    parts = s.stored.parts;
    tables = s.stored.durable;
    durable = refl;
    confirmed = s.stored.confirmed;
    queues = s.stored.kept.serving.queues;
  },
)

module _ (rs : ResultSets) (J : Rapidjson) (rounds : ℕ) where
  -- Under the conditions of read_stream-IsServed, when the client of the master goes behind such blocks,
  -- onDisconnect returns, and exactly the blocks that wait for their acknowledgement are lost: the
  -- tables, which are all committed then, have the rows, and for each account the sequence number, that
  -- a store that writes each message at once has behind the blocks up to the confirmed one.
  pub read_stream-IsCut :
      (bs : List (BlockBuffers J)) (w : Writer)
      → w.i_am_master ≡ true
      → w.no_traces ≡ false
      → IsLinked w
      → HasEmptyQueues w
      → w.committed ≡ w.working
      → IsAscending w.confirmed_block (blocks bs)
      → let x = (do read_stream rs J rounds bs; on_disconnect) w in
        (x.0 ≡ done tt) × IsCut (blocks bs) w x.1
  read_stream-IsCut bs w master writes linked queues durable ascending =
      let x = read_stream rs J rounds bs w in
      let (e, s) =
        read_stream-IsServed rs J rounds bs w master writes linked queues durable ascending in
      continue-returns (λ y. (y.0 ≡ done tt) × IsCut (blocks bs) w y.1) x.0 tt (λ _. on_disconnect)
        x.1 e (on_disconnect-IsCut J (blocks bs) w x.1 s)
