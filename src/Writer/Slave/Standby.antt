-- ===== src/Writer/Slave/Standby.antt =====
-- The blocks that a slave reads from its websocket, and what it writes there (Writer::onRead in
-- prototype/Writer.cpp), beside a store that backs up each trace as it comes.
use fio_relic.Base.{arith, ℕ, List, [], ◌∷◌, ◌++◌, map, All, true, false, ◌≡◌, refl, ap, ◌∙◌}
use fio_relic.Base.Int.{ℤ, ◌<ℤ◌}
use fio_relic.Base.Bytes.{Bytes}
use fio_relic.Base.Exec.{Outcome, done}
use fio_relic.External.{Rapidjson, ResultSets}
use fio_relic.Tables.{Tables}
use fio_relic.Writer.State.{Writer}
use fio_relic.Writer.{dispatch, on_block}
use fio_relic.Writer.Reply.{replies, on_read-replies}
use fio_relic.Writer.Store.{row}
use fio_relic.Writer.Settled.{BlockMessage}
use fio_relic.Writer.Buffers.{messages}
use fio_relic.Writer.Wire.{process_data-dispatch}
use fio_relic.Writer.Served.{BlockBuffers, read_block_buffers}
use fio_relic.Writer.History.{
  last_number, last_number-snoc, IsAscending, IsServed, IsAnswered, Ends, blocks,
}
use fio_relic.Writer.Sequence.{read_stream, read_stream-serves}
use fio_relic.Writer.Slave.Mirror.{mirror_block, Mirror, mirror, mirror_blocks, mirror_blocks-snoc}
use fio_relic.Writer.Slave.Queued.{
  IsAttached, queue_rows, queue_rows-IsAttached, read_buffers-queues, verify_master-slave,
}
use fio_relic.Writer.Slave.Follow.{IsCalm, HasFollowed, IsFollowed, on_block-IsFollowed}

mirror_block-below :
    {J : Rapidjson} (keep : ℤ) (b : BlockMessage J) (m : Mirror) (n : ℤ)
    → (mirror_block keep b m).irreversible <ℤ n
    → b.irreversible <ℤ n
mirror_block-below keep b m n above = ground arith

module _ {J : Rapidjson} where
  -- The tables of that store behind the blocks, from those of `w`.
  abbrev pub IsMirrored : Writer → List (BlockMessage J) → Tables → Type 0
  IsMirrored w bs t = t ≡ (mirror_blocks w.keep_blocks bs (mirror w)).tables

  -- A slave with a connection, a stream and an empty queue, which knows the last irreversible
  -- block; if the last block is above that one, it is confirmed.
  pub record IsFollowing (w : Writer) (bs : List (BlockMessage J)) (w' : Writer) : Type 0 where
    pub attached : IsAttached w'
    pub queue : w'.insert_bkp_traces ≡ []
    pub source : w'.source_id ≡ w.source_id
    pub prompt :
        (mirror_blocks w.keep_blocks bs (mirror w)).irreversible <ℤ last_number w.confirmed_block bs
        → w'.confirmed_block ≡ last_number w.confirmed_block bs
    pub irreversible : w'.irreversible ≡ (mirror_blocks w.keep_blocks bs (mirror w)).irreversible
    pub keep : w'.keep_blocks ≡ w.keep_blocks
    pub retired : w'.retired_time ≡ w.retired_time

  -- The slave has served the blocks, beside that store.
  abbrev pub IsServedBySlave : List (BlockMessage J) → Writer → Writer → Type 0
  IsServedBySlave bs w w' = IsServed (IsMirrored w) (IsFollowing w) bs w w'

  -- One more block, behind those read.
  HasFollowed-session :
      (read : List (BlockMessage J)) (b : BlockMessage J) (w v u : Writer)
      → IsMirrored w read v.working
      → IsFollowing w read v
      → HasFollowed b v u
      → mirror u ≡ mirror_blocks w.keep_blocks (read ++ b ∷ []) (mirror w)
  HasFollowed-session read b w v u session f h =
      rw (mirror_blocks-snoc w.keep_blocks read b (mirror w))
        (h.session ∙ rw (f.keep, session, f.irreversible) refl)

  -- The block with its answer r written.
  HasFollowed-IsAnswered :
      (read : List (BlockMessage J)) (b : BlockMessage J) (w v u : Writer) (r : ℤ)
      → IsMirrored w read v.working
      → IsFollowing w read v
      → HasFollowed b v u
      → Ends b.number v r u
      → (b.irreversible <ℤ b.number → u.confirmed_block ≡ b.number)
      → IsAnswered
          (IsMirrored w)
          (IsFollowing w)
          read
          b
          v
          (done tt, record u { sent = u.sent ++ replies r })
  HasFollowed-IsAnswered read b w v u r session f h ends prompt =
      let e = HasFollowed-session read b w v u session f h in
      record {
        answer = r;
        returns = refl;
        sent = ap (λ (l : List Bytes). l ++ replies r) h.sent;
        session = ap (λ (m : Mirror). m.tables) e;
        kept = record {
          attached = record {
            slave = h.attached.slave;
            connected = h.attached.connected;
            has_websocket = h.attached.has_websocket;
          };
          queue = h.queue;
          source = h.source ∙ f.source;
          prompt =
              rw
                (
                  mirror_blocks-snoc w.keep_blocks read b (mirror w),
                  last_number-snoc w.confirmed_block read b,
                )
                (λ above. prompt (
                  mirror_block-below w.keep_blocks b (mirror_blocks w.keep_blocks read (mirror w))
                    b.number above));
          irreversible = ap (λ (m : Mirror). m.irreversible) e;
          keep = h.keep ∙ f.keep;
          retired = h.retired ∙ f.retired;
        };
        ends = ends;
      }

module _ (rs : ResultSets) (J : Rapidjson) (rounds : ℕ) where
  read_block_buffers-IsAnswered :
      (w : Writer) (read : List (BlockMessage J)) (b : BlockBuffers J) (v : Writer)
      → IsMirrored w read v.working
      → IsFollowing w read v
      → v.confirmed_block <ℤ b.block.number
      → IsCalm w.retired_time b.block
      → IsAnswered
          (IsMirrored w)
          (IsFollowing w)
          read
          b.block
          v
          (read_block_buffers rs J rounds b v)
  unfolding read_block_buffers dispatch
  read_block_buffers-IsAnswered w read b v session f above calm =
      let u = queue_rows (map row (messages b.traces)) v in
      let k = queue_rows-IsAttached (map row (messages b.traces)) v f.attached in
      let x = on_block rs J rounds b.block.env b.block.json u in
      let followed : IsFollowed rs J rounds b.block v x =
        rw (← b.same) (
          on_block-IsFollowed rs J rounds b.block v f.attached f.queue above (rw f.retired calm)) in
      let (r, e, h, ends, prompt) = followed in
      let processed =
        process_data-dispatch rs J rounds b.block.env b.buffer 1010 b.opts b.text b.block.json u
          k.connected b.valid b.header b.parsed
        ∙ ap (λ (o : Outcome ℤ). (o, x.1)) e in
      rw
        (
          read_buffers-queues rs J rounds b.traces v f.attached above,
          (on_read-replies rs J rounds b.block.env b.buffer u x.1 r
              (rw (verify_master-slave b.block.env u k.slave) processed) h.attached.has_websocket
              b.writes).0,
        )
        (HasFollowed-IsAnswered read b.block w v x.1 r session f h ends prompt)

  -- A slave with a connection and a stream, an empty queue and everything committed, reads the
  -- bytes of completed blocks of ascending numbers above its confirmed block, each behind those of
  -- executed transactions of that block and of messages to be dropped, as in read_stream-IsServed;
  -- each block is irreversible when it comes, or at most a minute has passed since the slave's
  -- retirement, so that the slave does not check the master. Then onRead returns each time, and
  -- IsServedBySlave holds: what is committed is exactly what a store has that backs up each
  -- transaction as it comes, behind the first blocks, up to the confirmed one; the session is what
  -- it has behind all of them; the queue is empty, and the last block is confirmed if it is above
  -- every irreversible block named so far; each block has one answer, and the texts sent are those
  -- of the answers that are not negative; the last answer is -1, or no block waits and it is the
  -- confirmed block as an int. Where a block moves the last irreversible block on, that store first
  -- deletes from the backup what is below every source's last irreversible block and, unless the
  -- number of blocks to keep is negative, from the history what is more than that number below it.
  pub read_stream-IsMirrored :
      (bs : List (BlockBuffers J)) (w : Writer)
      → w.i_am_master ≡ false
      → w.connected ≡ true
      → w.has_websocket ≡ true
      → w.insert_bkp_traces ≡ []
      → w.committed ≡ w.working
      → IsAscending w.confirmed_block (blocks bs)
      → All (λ (b : BlockBuffers J). IsCalm w.retired_time b.block) bs
      → let x = read_stream rs J rounds bs w in (x.0 ≡ done tt) × IsServedBySlave (blocks bs) w x.1
  unfolding mirror_blocks last_number
  read_stream-IsMirrored bs w slave connected has_websocket queue durable ascending calm =
      read_stream-serves rs J rounds (IsMirrored w) (IsFollowing w)
        (λ (b : BlockBuffers J). IsCalm w.retired_time b.block) (read_block_buffers-IsAnswered w) bs
        w refl
        (record {
          attached = record { slave = slave; connected = connected; has_websocket = has_websocket };
          queue = queue;
          source = refl;
          prompt = λ _. refl;
          irreversible = refl;
          keep = refl;
          retired = refl;
        })
        durable ascending calm
