-- ===== src/Writer/Rewritten.antt =====
-- A master that reads blocks and forks (Writer::onRead in prototype/Writer.cpp), beside a store that
-- writes each trace as it comes and deletes the blocks from a fork on.
use fio_relic.Base.{ℕ, List, [], ◌∷◌, ◌++◌, ◌≡◌, ap, ◌∙◌}
use fio_relic.Base.Int.{ℤ, pos, ◌-ℤ◌, ◌<ℤ◌}
use fio_relic.Base.Exec.{Outcome, done, continue-returns}
use fio_relic.External.{Rapidjson, ResultSets}
use fio_relic.Tables.{Tables}
use fio_relic.Writer.State.{Writer}
use fio_relic.Writer.{on_read}
use fio_relic.Writer.Store.{Agrees, Agrees-trans}
use fio_relic.Writer.Settled.{BlockMessage}
use fio_relic.Writer.History.{last_irreversible, IsAscending, last_number, blocks}
use fio_relic.Writer.Served.{BlockBuffers}
use fio_relic.Writer.Sequence.{read_stream}
use fio_relic.Writer.Stream.{IsServing, IsServedByMaster, write_blocks, read_stream-IsServed}
use fio_relic.Writer.Repeated.{write_blocks-Agrees}
use fio_relic.Writer.Chapters.{Chapter, behind, IsOrderly, read_chapter, read_chapters}
use fio_relic.Writer.Undone.{undo, undo-Agrees, on_read-undoes}

module _ {J : Rapidjson} where
  -- The store behind the chapters.
  abbrev pub write_chapter : ℤ → Chapter J → Tables → Tables
  write_chapter source_id c t = undo source_id c.fork.number (write_blocks (blocks c.blocks) t)

  unfoldable pub write_chapters : ℤ → List (Chapter J) → Tables → Tables
  write_chapters source_id [] t = t
  write_chapters source_id (c ∷ cs) t = write_chapters source_id cs (write_chapter source_id c t)

  write_chapters-Agrees :
      (source_id : ℤ) (cs : List (Chapter J)) (t u : Tables)
      → Agrees t u
      → Agrees (write_chapters source_id cs t) (write_chapters source_id cs u)
  unfolding write_chapters
  write_chapters-Agrees source_id [] t u a = a
  write_chapters-Agrees source_id (c ∷ cs) t u a =
      write_chapters-Agrees source_id cs _ _
        (undo-Agrees source_id c.fork.number _ _ (write_blocks-Agrees (blocks c.blocks) t u a))

  -- Behind the chapters and the blocks `bs` that came last, from the tables t and the confirmed block:
  -- what is committed is what the store has behind the first of these blocks, up to the confirmed one,
  -- and the session is what it has behind all of them.
  pub record IsRewritten (bs : List (BlockMessage J)) (confirmed : ℤ) (t : Tables) (w' : Writer)
      : Type 0 where
    pub stored : List (BlockMessage J)
    pub waiting : List (BlockMessage J)
    pub parts : bs ≡ stored ++ waiting
    pub durable : Agrees w'.committed (write_blocks stored t)
    pub session : Agrees w'.working (write_blocks bs t)
    pub confirmed_block : w'.confirmed_block ≡ last_number confirmed stored
    pub serving : IsServing w'

  IsRewritten-Agrees :
      (bs : List (BlockMessage J)) (c d : ℤ) (t u : Tables) (w' : Writer)
      → Agrees t u
      → c ≡ d
      → IsRewritten bs c t w'
      → IsRewritten bs d u w'
  IsRewritten-Agrees bs c d t u w' a e h = record {
    stored = h.stored;
    waiting = h.waiting;
    parts = h.parts;
    durable = Agrees-trans _ _ _ h.durable (write_blocks-Agrees h.stored t u a);
    session = Agrees-trans _ _ _ h.session (write_blocks-Agrees bs t u a);
    confirmed_block = h.confirmed_block ∙ ap (λ (n : ℤ). last_number n h.stored) e;
    serving = h.serving;
  }

  IsServedByMaster-IsRewritten :
      (bs : List (BlockMessage J)) (w w' : Writer)
      → IsServedByMaster bs w w'
      → IsRewritten bs w.confirmed_block w.working w'
  IsServedByMaster-IsRewritten bs w w' s = record {
    stored = s.stored.stored;
    waiting = s.stored.waiting;
    parts = s.stored.parts;
    durable = s.stored.durable;
    session = s.stored.session;
    confirmed_block = s.stored.confirmed;
    serving = s.stored.kept.serving;
  }

module _ (rs : ResultSets) (J : Rapidjson) (rounds : ℕ) where
  -- What one chapter leaves: a master that goes on from its fork.
  record IsRead (c : Chapter J) (w : Writer) (x : Outcome (Unit {0}) × Writer) : Type 0 where
    returns : x.0 ≡ done tt
    serving : IsServing x.1
    durable : x.1.committed ≡ x.1.working
    tables : Agrees x.1.working (write_chapter w.source_id c w.working)
    confirmed : x.1.confirmed_block ≡ c.fork.number -ℤ pos 1
    irreversible : x.1.irreversible ≡ last_irreversible w.irreversible (blocks c.blocks)
    source : x.1.source_id ≡ w.source_id

  read_chapter-IsRead :
      (c : Chapter J) (w : Writer)
      → IsServing w
      → w.committed ≡ w.working
      → IsAscending w.confirmed_block (blocks c.blocks)
      → last_irreversible w.irreversible (blocks c.blocks)
        <ℤ last_number w.confirmed_block (blocks c.blocks)
      → IsRead c w (read_chapter rs J rounds c w)
  unfolding read_chapter
  read_chapter-IsRead c w s durable ascending late =
      let (e, h) =
        read_stream-IsServed rs J rounds c.blocks w s.master s.writes s.linked s.queues durable
          ascending in
      let k = h.stored.kept in
      let v = (read_stream rs J rounds c.blocks w).1 in
      let (e', sent, u) =
        on_read-undoes rs J rounds c.fork v k.serving (rw (k.irreversible, k.prompt late) late) in
      continue-returns (IsRead c w) (read_stream rs J rounds c.blocks w).0 tt
        (λ _. on_read rs J rounds c.fork.env c.fork.buffer) v e
        (record {
          returns = e';
          serving = u.serving;
          durable = u.durable;
          tables =
              rw (u.tables, k.source) (undo-Agrees w.source_id c.fork.number _ _ h.stored.session);
          confirmed = u.confirmed;
          irreversible = u.irreversible ∙ k.irreversible;
          source = u.source ∙ k.source;
        })

  -- A master that writes traces and that SYNC lists, with a connection and a stream, empty queues and
  -- everything committed, reads chapters and then blocks; a chapter is blocks, as in
  -- read_stream-IsServed, and a fork behind them that comes while the last block is above every
  -- irreversible block named so far. The numbers of the blocks ascend from the confirmed block, and
  -- behind a fork at n from n. Then onRead returns each time, and IsRewritten holds: what is committed
  -- has the rows, and for each account the sequence number, that a store has that writes each message
  -- at once and at a fork at n deletes the rows of blocks from n on, behind the chapters and the first
  -- of the last blocks, up to the confirmed one; the session has those that it has behind all of them;
  -- the queues are empty.
  pub read_chapters-IsRewritten :
      (cs : List (Chapter J)) (last : List (BlockBuffers J)) (w : Writer)
      → IsServing w
      → w.committed ≡ w.working
      → IsOrderly w.confirmed_block w.irreversible cs last
      → let x = read_chapters rs J rounds cs last w in
        (x.0 ≡ done tt)
        × IsRewritten
            (blocks last)
            (behind w.confirmed_block cs)
            (write_chapters w.source_id cs w.working)
            x.1
  unfolding read_chapters write_chapters behind IsOrderly
  read_chapters-IsRewritten [] last w s durable orderly =
      let (e, h) =
        read_stream-IsServed rs J rounds last w s.master s.writes s.linked s.queues durable
          orderly in
      (e, IsServedByMaster-IsRewritten (blocks last) w _ h)
  read_chapters-IsRewritten (c ∷ cs) last w s durable (ascending, late, orderly) =
      let x = read_chapter rs J rounds c w in
      let h = read_chapter-IsRead c w s durable ascending late in
      let (e, k) =
        read_chapters-IsRewritten cs last x.1 h.serving h.durable
          (rw (h.confirmed, h.irreversible) orderly) in
      continue-returns
        (λ y.
          (y.0 ≡ done tt)
          × IsRewritten (blocks last) (behind w.confirmed_block (c ∷ cs))
              (write_chapters w.source_id (c ∷ cs) w.working) y.1)
        x.0 tt (λ _. read_chapters rs J rounds cs last) x.1 h.returns
        (
          e,
          IsRewritten-Agrees (blocks last) _ _ _ _ _
              (rw h.source (write_chapters-Agrees w.source_id cs _ _ h.tables))
              (ap (λ (n : ℤ). behind n cs) h.confirmed) k,
        )
