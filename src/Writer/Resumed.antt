-- ===== src/Writer/Resumed.antt =====
-- A master that is gone and started again: the start of a new one on what the old one has committed
-- (Writer::initialize and Writer::Run in prototype/Writer.cpp), and the blocks that come again.
use mathlib.Core.List.{append-nil}
use fio_relic.Base.{
  ◌⊎◌, inl, inr, ℕ, List, [], ◌++◌, true, false, ◌≡◌, refl, sym, ap, ◌∙◌, some, length,
}
use fio_relic.Base.Int.{ℤ, negsuc, to_int32}
use fio_relic.Base.Exec.{Exec, done, modify, ◌>>◌}
use fio_relic.External.{Rapidjson, ResultSets, IsDocumented}
use fio_relic.Tables.{Tables, SyncRow}
use fio_relic.Writer.State.{Writer}
use fio_relic.Writer.Startup.{start_session}
use fio_relic.Writer.Started.{IsStartable, IsStartable-IsServing, started, start_session-starts}
use fio_relic.Writer.Fork.{HasEmptyQueues}
use fio_relic.Writer.Store.{Agrees, Agrees-trans}
use fio_relic.Writer.Settled.{BlockMessage}
use fio_relic.Writer.History.{IsAscending, IsStored, blocks, last_answer}
use fio_relic.Writer.Served.{BlockBuffers}
use fio_relic.Writer.Sequence.{read_stream}
use fio_relic.Writer.Stream.{
  IsServing, IsUpToDate, IsWritten, IsServedByMaster, write_blocks, read_stream-IsServed,
}
use fio_relic.Writer.Repeated.{
  Repeats, Repeats-++, write_blocks-replay, write_blocks-Agrees, write_blocks-others,
}

-- Behind all blocks `bs`, with one answer each, the session has the rows, and for each account the
-- sequence number, of a store that has written each message of these blocks once, from the tables of
-- `w`; where the last answer is not -1, so has what is committed.
pub record IsResumed {J : Rapidjson} (bs : List (BlockMessage J)) (w w' : Writer) : Type 0 where
  pub answers : List ℤ
  pub each : length answers ≡ length bs
  pub session : Agrees w'.working (write_blocks bs w.working)
  pub settled :
      (last_answer (negsuc 0) answers ≡ negsuc 0)
      ⊎ ((last_answer (negsuc 0) answers ≡ to_int32 w'.confirmed_block)
          × Agrees w'.committed (write_blocks bs w.working))

module _ {J : Rapidjson} where
  settles :
      (all : List (BlockMessage J)) (w v x : Writer) (r : ℤ)
      → (s : IsStored (IsWritten v) (IsUpToDate v) all v r x)
      → Agrees (write_blocks all v.working) (write_blocks all w.working)
      → (r ≡ negsuc 0) ⊎ ((s.waiting ≡ []) × (r ≡ to_int32 x.confirmed_block))
      → (r ≡ negsuc 0)
        ⊎ ((r ≡ to_int32 x.confirmed_block) × Agrees x.committed (write_blocks all w.working))
  settles all w v x r s seen (inl e) = inl e
  settles all w v x r s seen (inr (none_waits, e)) =
      let same : s.stored ≡ all =
        sym (append-nil s.stored)
        ∙ ap (λ (l : List (BlockMessage J)). s.stored ++ l) (sym none_waits)
        ∙ sym s.parts in
      inr (e, Agrees-trans _ _ _ (rw (← same) s.durable) seen)

  -- What a master has read before, it reads again.
  IsServedByMaster-IsResumed :
      (read all : List (BlockMessage J)) (w u v x : Writer)
      → Repeats all read
      → IsServedByMaster read w u
      → v.working ≡ u.committed
      → IsServedByMaster all v x
      → IsResumed all w x
  IsServedByMaster-IsResumed read all w u v x again before held s =
      let stored = before.stored.stored in
      let repeated : Repeats all stored =
        Repeats-++ all stored before.stored.waiting (rw (← before.stored.parts) again) in
      let seen : Agrees (write_blocks all v.working) (write_blocks all w.working) =
        Agrees-trans _ (write_blocks all (write_blocks stored w.working)) _
          (write_blocks-Agrees all v.working _ (rw held before.stored.durable))
          (write_blocks-replay all stored w.working repeated) in
      record {
        answers = s.answers;
        each = s.each;
        session = Agrees-trans _ _ _ s.stored.session seen;
        settled = settles all w v x _ s.stored seen s.stored.answer;
      }

module _ (rs : ResultSets) (J : Rapidjson) (rounds : ℕ) where
  -- A new process on the given tables: the start, the accepted connection, and the blocks that come.
  unfoldable pub resume : Tables → List (BlockBuffers J) → Exec Writer (Unit {0})
  resume t bs = do
    start_session rs (some t)
    modify (λ w. record w { has_websocket = true })
    read_stream rs J rounds bs

  -- Starting again from the block in SYNC repairs what a crash loses and repeats nothing: a master, as
  -- in read_stream-IsServed, reads blocks `bs` and is gone at any point behind them; a new writer with
  -- the same source, which writes traces and has empty queues, starts on what the old one has
  -- committed, where SYNC held one master, at most one slave and the master's row of the source, and
  -- reads blocks the first of which say the rows and receipts of `bs` again, one by one, at any clock,
  -- and whose numbers ascend from the number of that row. With a documented result set the start and
  -- each onRead return, and IsResumed holds: the session has the rows, and for each account the
  -- sequence number, of a store that writes each message of the blocks read by the new writer once,
  -- from the tables of the old one; and so has what is committed, if the last answer is not -1 (it is
  -- the confirmed block as an int then).
  pub read_stream-IsResumed :
      IsDocumented rs
      → (bs again : List (BlockBuffers J)) (w v : Writer) (r : SyncRow) → IsServing w
      → w.committed ≡ w.working
      → IsAscending w.confirmed_block (blocks bs)
      → IsStartable w.source_id r w.working.sync
      → v.source_id ≡ w.source_id
      → v.no_traces ≡ false
      → HasEmptyQueues v
      → Repeats (blocks again) (blocks bs)
      → IsAscending r.block_num (blocks again)
      → let x = resume (read_stream rs J rounds bs w).1.committed again v in
        (x.0 ≡ done tt) × IsResumed (blocks again) w x.1
  unfolding resume
  read_stream-IsResumed d bs again w v r serving durable ascending startable source writes queues
        comes_again ascending' =
      let u = (read_stream rs J rounds bs w).1 in
      let (e, before) =
        read_stream-IsServed rs J rounds bs w serving.master serving.writes serving.linked
          serving.queues durable ascending in
      let same_sync : u.committed.sync ≡ w.working.sync =
        before.stored.durable.others.0 ∙ write_blocks-others before.stored.stored w.working in
      let s : IsStartable v.source_id r u.committed.sync = rw (source, same_sync) startable in
      let n = record (started u.committed r v) { has_websocket = true } in
      let k = IsStartable-IsServing u.committed r v s writes queues in
      let (e', after) =
        read_stream-IsServed rs J rounds again n refl writes k.linked queues refl ascending' in
      rw (start_session-starts rs d u.committed r v s) (
        e',
        IsServedByMaster-IsResumed (blocks bs) (blocks again) w u n _ comes_again before refl after,
      )
