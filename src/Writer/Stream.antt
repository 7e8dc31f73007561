-- ===== src/Writer/Stream.antt =====
-- The blocks that a master reads from its websocket, and what it writes there (Writer::onRead in
-- prototype/Writer.cpp), beside a store that writes each trace as it comes.
use fio_relic.Base.{◌∙◌, arith, ℕ, List, [], ◌∷◌, ◌++◌, All, true, false, ◌≡◌, refl, ap, inl, inr}
use fio_relic.Base.Int.{ℤ, ◌<ℤ◌}
use fio_relic.Base.Bytes.{Bytes}
use fio_relic.Base.Exec.{done}
use fio_relic.External.{Rapidjson, ResultSets}
use fio_relic.Tables.{Tables}
use fio_relic.Writer.State.{Writer}
use fio_relic.Writer.Fork.{HasEmptyQueues}
use fio_relic.Writer.Reply.{replies}
use fio_relic.Writer.Store.{Agrees, Agrees-refl, Agrees-trans, write_all, write_all-Agrees}
use fio_relic.Writer.Settled.{BlockMessage, HasRead, Settles}
use fio_relic.Writer.Absorb.{later}
use fio_relic.Writer.Buffers.{IsLinked}
use fio_relic.Writer.Served.{
  BlockBuffers, read_block_buffers, read_block_buffers-Replies, HasRead-IsLinked,
}
use fio_relic.Writer.History.{
  last_irreversible, last_irreversible-snoc, last_number, last_number-snoc, IsAscending, IsServed,
  IsAnswered, Ends, blocks,
}
use fio_relic.Writer.Sequence.{read_stream, read_stream-serves}

module _ {J : Rapidjson} where
  -- The store that writes each message at once, behind these blocks.
  unfoldable pub write_blocks : List (BlockMessage J) → Tables → Tables
  write_blocks [] t = t
  write_blocks (b ∷ bs) t = write_blocks bs (write_all b.traces t)

  write_blocks-snoc :
      (bs : List (BlockMessage J)) (b : BlockMessage J) (t : Tables)
      → write_blocks (bs ++ b ∷ []) t ≡ write_all b.traces (write_blocks bs t)
  unfolding write_blocks
  write_blocks-snoc [] b t = refl
  write_blocks-snoc (a ∷ bs) b t = write_blocks-snoc bs b (write_all a.traces t)

  -- The rows, and for each account the sequence number, of that store, from the tables of `w`.
  abbrev pub IsWritten : Writer → List (BlockMessage J) → Tables → Type 0
  IsWritten w bs t = Agrees t (write_blocks bs w.working)

-- A master that writes traces and that SYNC lists, with a connection and a stream and empty queues.
pub record IsServing (w : Writer) : Type 0 where
  pub master : w.i_am_master ≡ true
  pub writes : w.no_traces ≡ false
  pub queues : HasEmptyQueues w
  pub linked : IsLinked w

module _ {J : Rapidjson} where
  -- Behind the blocks it still is one, and it knows the last irreversible block; if the last block is
  -- above that one, it is confirmed.
  pub record IsUpToDate (w : Writer) (bs : List (BlockMessage J)) (w' : Writer) : Type 0 where
    pub serving : IsServing w'
    pub source : w'.source_id ≡ w.source_id
    pub irreversible : w'.irreversible ≡ last_irreversible w.irreversible bs
    pub prompt :
        last_irreversible w.irreversible bs <ℤ last_number w.confirmed_block bs
        → w'.confirmed_block ≡ last_number w.confirmed_block bs

  -- The master has served the blocks, beside that store.
  abbrev pub IsServedByMaster : List (BlockMessage J) → Writer → Writer → Type 0
  IsServedByMaster bs w w' = IsServed (IsWritten w) (IsUpToDate w) bs w w'

HasRead-IsServing :
    (J : Rapidjson) (b : BlockMessage J) (w u : Writer) (l : List Bytes)
    → HasRead J b w u
    → IsLinked w
    → IsServing (record u { sent = l })
HasRead-IsServing J b w u l h k =
    let linked = HasRead-IsLinked J b w u h k in
    record {
      master = h.master;
      writes = h.writes;
      queues = h.queues;
      linked = record {
        connected = linked.connected;
        has_websocket = linked.has_websocket;
        listed = linked.listed;
      };
    }

later-below : (i l n : ℤ) → later i l <ℤ n → l <ℤ n
later-below i l n h = ground arith

module _ (rs : ResultSets) (J : Rapidjson) (rounds : ℕ) where
  Settles-Ends :
      (b : BlockMessage J) (w u : Writer) (r : ℤ) (l : List Bytes)
      → Settles rs J rounds b w (done r, u)
      → Ends b.number w r (record u { sent = l })
  Settles-Ends b w u r l (h, inl (e, waits, old)) = inl (cc, waits)
  Settles-Ends b w u r l (h, inr (e, durable)) = inr (cc, durable)

  Settles-confirms :
      (b : BlockMessage J) (w u : Writer) (r i : ℤ)
      → Settles rs J rounds b w (done r, u)
      → later i b.irreversible <ℤ b.number
      → u.confirmed_block ≡ b.number
  Settles-confirms b w u r i (h, inl (e, waits, old)) above =
      let below = later-below i b.irreversible b.number above in absurd (omega arith)
  Settles-confirms b w u r i (h, inr (e, durable)) above = durable.0

  Settles-IsUpToDate :
      (w : Writer) (read : List (BlockMessage J)) (b : BlockMessage J) (v u : Writer) (r : ℤ)
      (l : List Bytes)
      → IsUpToDate w read v
      → Settles rs J rounds b v (done r, u)
      → IsUpToDate w (read ++ b ∷ []) (record u { sent = l })
  Settles-IsUpToDate w read b v u r l k s = record {
    serving = HasRead-IsServing J b v u l s.0 k.serving.linked;
    source = s.0.link.source ∙ k.source;
    irreversible =
        rw (last_irreversible-snoc w.irreversible read b)
          (s.0.irreversible ∙ ap (λ (i : ℤ). later i b.irreversible) k.irreversible);
    prompt =
        rw (last_irreversible-snoc w.irreversible read b, last_number-snoc w.confirmed_block read b)
          (Settles-confirms b v u r (last_irreversible w.irreversible read) s);
  }

  read_block_buffers-IsAnswered :
      (w : Writer) (read : List (BlockMessage J)) (b : BlockBuffers J) (v : Writer)
      → IsWritten w read v.working
      → IsUpToDate w read v
      → v.confirmed_block <ℤ b.block.number
      → Unit {0}
      → IsAnswered (IsWritten w) (IsUpToDate w) read b.block v (read_block_buffers rs J rounds b v)
  read_block_buffers-IsAnswered w read b v session k above expected =
      let s = k.serving in
      let (r, u, settles, e) =
        read_block_buffers-Replies rs J rounds b v s.queues
          (record { master = s.master; writes = s.writes; above = above }) s.linked in
      rw e (record {
        answer = r;
        returns = refl;
        sent = ap (λ (l : List Bytes). l ++ replies r) settles.0.link.sent;
        session = rw (write_blocks-snoc read b.block w.working) (
            Agrees-trans u.working (write_all b.block.traces v.working) _ settles.0.session
              (write_all-Agrees b.block.traces v.working _ session));
        kept = Settles-IsUpToDate w read b.block v u r (u.sent ++ replies r) k settles;
        ends = Settles-Ends b.block v u r (u.sent ++ replies r) settles;
      })

  always_expected : (bs : List (BlockBuffers J)) → All (λ _. Unit {0}) bs
  always_expected [] = tt
  always_expected (b ∷ bs) = (tt, always_expected bs)

  -- A master that writes traces and that SYNC lists, with a connection and a stream, empty queues
  -- and everything committed, reads the bytes of completed blocks of ascending numbers above its
  -- confirmed block, each behind those of executed transactions of that block and of messages to be
  -- dropped, which are traces that were not executed or have no action trace and messages of other
  -- types; the parts of the messages that are read can be read, the connection stays valid, and
  -- writes to the stream succeed. Then onRead returns each time, and IsServedByMaster holds: what
  -- is committed has the rows, and for each account the sequence number, that a store that writes
  -- each message at once has behind the first blocks, up to the confirmed one; the session has
  -- those that it has behind all of them; the queues are empty, and the last block is confirmed if
  -- it is above every irreversible block named so far; each block has one answer, and the texts
  -- sent are those of the answers that are not negative; the last answer is -1, or no block waits
  -- and it is the confirmed block as an int.
  pub read_stream-IsServed :
      (bs : List (BlockBuffers J)) (w : Writer)
      → w.i_am_master ≡ true
      → w.no_traces ≡ false
      → IsLinked w
      → HasEmptyQueues w
      → w.committed ≡ w.working
      → IsAscending w.confirmed_block (blocks bs)
      → let x = read_stream rs J rounds bs w in (x.0 ≡ done tt) × IsServedByMaster (blocks bs) w x.1
  unfolding write_blocks last_irreversible last_number
  read_stream-IsServed bs w master writes linked queues durable ascending =
      read_stream-serves rs J rounds (IsWritten w) (IsUpToDate w) (λ _. Unit {0})
        (read_block_buffers-IsAnswered w) bs w (Agrees-refl w.working)
        (record {
          serving = record { master = master; writes = writes; queues = queues; linked = linked };
          source = refl;
          irreversible = refl;
          prompt = λ _. refl;
        })
        durable ascending (always_expected bs)
