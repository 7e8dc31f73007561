-- ===== src/Writer/Slave/Backlog.antt =====
-- A slave that reads blocks and forks (Writer::onRead in prototype/Writer.cpp), beside a store that
-- backs up each trace as it comes and deletes the blocks from a fork on.
use fio_relic.Base.{ℕ, List, [], ◌∷◌, ◌++◌, All, ◌≡◌, refl, ap, ◌∙◌}
use fio_relic.Base.Int.{ℤ, pos, ◌-ℤ◌, ◌<ℤ◌}
use fio_relic.Base.Exec.{Outcome, done, continue-returns}
use fio_relic.External.{Rapidjson, ResultSets}
use fio_relic.Writer.State.{Writer}
use fio_relic.Writer.{on_read}
use fio_relic.Writer.Settled.{BlockMessage}
use fio_relic.Writer.History.{IsAscending, last_number, last_irreversible, blocks}
use fio_relic.Writer.Served.{BlockBuffers}
use fio_relic.Writer.Sequence.{read_stream}
use fio_relic.Writer.Slave.Mirror.{Mirror, mirror, mirror_blocks, mirror_blocks-irreversible}
use fio_relic.Writer.Slave.Queued.{IsAttached}
use fio_relic.Writer.Slave.Follow.{IsCalm}
use fio_relic.Writer.Slave.Standby.{IsServedBySlave, read_stream-IsMirrored}
use fio_relic.Writer.Slave.Retracted.{retract, on_read-retracts}
use fio_relic.Writer.Chapters.{Chapter, behind, IsOrderly, read_chapter, read_chapters}

module _ {J : Rapidjson} where
  -- The store behind the chapters.
  abbrev pub mirror_chapter : ℤ → ℤ → Chapter J → Mirror → Mirror
  mirror_chapter keep source_id c m =
      let m' = mirror_blocks keep (blocks c.blocks) m in
      record m' { tables = retract source_id c.fork.number m'.tables }

  unfoldable pub mirror_chapters : ℤ → ℤ → List (Chapter J) → Mirror → Mirror
  mirror_chapters keep source_id [] m = m
  mirror_chapters keep source_id (c ∷ cs) m =
      mirror_chapters keep source_id cs (mirror_chapter keep source_id c m)

  -- The slave has no cause to check the master at any of the blocks.
  abbrev pub AreCalm : ℕ → List (BlockBuffers J) → Type 0
  AreCalm retired bs = All (λ (b : BlockBuffers J). IsCalm retired b.block) bs

  -- Behind the chapters and the blocks `bs` that came last, from what the store has behind the
  -- chapters and the confirmed block: what is committed is exactly what the store has behind the first
  -- of these blocks, up to the confirmed one, the session is what it has behind all of them, and the
  -- queue is empty.
  pub record IsBackedUp (keep : ℤ) (bs : List (BlockMessage J)) (confirmed : ℤ) (m : Mirror)
      (w' : Writer) : Type 0 where
    pub stored : List (BlockMessage J)
    pub waiting : List (BlockMessage J)
    pub parts : bs ≡ stored ++ waiting
    pub durable : w'.committed ≡ (mirror_blocks keep stored m).tables
    pub session : w'.working ≡ (mirror_blocks keep bs m).tables
    pub confirmed_block : w'.confirmed_block ≡ last_number confirmed stored
    pub attached : IsAttached w'
    pub queue : w'.insert_bkp_traces ≡ []

  IsServedBySlave-IsBackedUp :
      (bs : List (BlockMessage J)) (w w' : Writer)
      → IsServedBySlave bs w w'
      → IsBackedUp w.keep_blocks bs w.confirmed_block (mirror w) w'
  IsServedBySlave-IsBackedUp bs w w' s = record {
    stored = s.stored.stored;
    waiting = s.stored.waiting;
    parts = s.stored.parts;
    durable = s.stored.durable;
    session = s.stored.session;
    confirmed_block = s.stored.confirmed;
    attached = s.stored.kept.attached;
    queue = s.stored.kept.queue;
  }

  IsBackedUp-same :
      (bs : List (BlockMessage J)) {keep keep' c c' : ℤ} {m m' : Mirror} (w' : Writer)
      → keep ≡ keep'
      → c ≡ c'
      → m ≡ m'
      → IsBackedUp keep bs c m w'
      → IsBackedUp keep' bs c' m' w'
  IsBackedUp-same bs w' ek ec em h = rw (← ek, ← ec, ← em) h

module _ (rs : ResultSets) (J : Rapidjson) (rounds : ℕ) where
  -- What one chapter leaves: a slave that goes on from its fork.
  record IsHeard (c : Chapter J) (w : Writer) (x : Outcome (Unit {0}) × Writer) : Type 0 where
    returns : x.0 ≡ done tt
    attached : IsAttached x.1
    queue : x.1.insert_bkp_traces ≡ []
    durable : x.1.committed ≡ x.1.working
    mirrored : mirror x.1 ≡ mirror_chapter w.keep_blocks w.source_id c (mirror w)
    confirmed : x.1.confirmed_block ≡ c.fork.number -ℤ pos 1
    irreversible : x.1.irreversible ≡ last_irreversible w.irreversible (blocks c.blocks)
    source : x.1.source_id ≡ w.source_id
    keep : x.1.keep_blocks ≡ w.keep_blocks
    retired : x.1.retired_time ≡ w.retired_time

  read_chapter-IsHeard :
      (c : Chapter J) (w : Writer)
      → IsAttached w
      → w.insert_bkp_traces ≡ []
      → w.committed ≡ w.working
      → IsAscending w.confirmed_block (blocks c.blocks)
      → last_irreversible w.irreversible (blocks c.blocks)
        <ℤ last_number w.confirmed_block (blocks c.blocks)
      → AreCalm w.retired_time c.blocks
      → IsHeard c w (read_chapter rs J rounds c w)
  unfolding read_chapter
  read_chapter-IsHeard c w a queue durable ascending late calm =
      let (e, h) =
        read_stream-IsMirrored rs J rounds c.blocks w a.slave a.connected a.has_websocket queue
          durable ascending calm in
      let k = h.stored.kept in
      let v = (read_stream rs J rounds c.blocks w).1 in
      let same = mirror_blocks-irreversible w.keep_blocks (blocks c.blocks) (mirror w) in
      let prompt = k.prompt (rw same late) in
      let (e', u) =
        on_read-retracts rs J rounds c.fork v k.attached (rw (k.irreversible, same, prompt) late) in
      continue-returns (IsHeard c w) (read_stream rs J rounds c.blocks w).0 tt
        (λ _. on_read rs J rounds c.fork.env c.fork.buffer) v e
        (record {
          returns = e';
          attached = u.attached;
          queue = u.queue ∙ k.queue;
          durable = u.durable;
          mirrored = rw (u.irreversible, u.tables, k.irreversible, k.source, h.stored.session) refl;
          confirmed = u.confirmed;
          irreversible = u.irreversible ∙ k.irreversible ∙ same;
          source = u.source ∙ k.source;
          keep = u.keep ∙ k.keep;
          retired = u.retired ∙ k.retired;
        })

  -- A slave with a connection and a stream, an empty queue and everything committed, reads chapters and
  -- then blocks; a chapter is blocks, as in read_stream-IsMirrored, and a fork behind them that comes
  -- while the last block is above every irreversible block named so far. The numbers of the blocks
  -- ascend from the confirmed block, and behind a fork at n from n; and each block is irreversible when
  -- it comes, or at most a minute has passed since the slave's retirement. Then onRead returns each
  -- time, and IsBackedUp holds: what is committed is exactly what a store has that backs up each
  -- transaction as it comes, deletes what is irreversible for long enough, and at a fork at n deletes
  -- the blocks from n on from the backup, behind the chapters and the first of the last blocks, up to
  -- the confirmed one; the session is what it has behind all of them; the queue is empty.
  pub read_chapters-IsBackedUp :
      (cs : List (Chapter J)) (last : List (BlockBuffers J)) (w : Writer)
      → IsAttached w
      → w.insert_bkp_traces ≡ []
      → w.committed ≡ w.working
      → IsOrderly w.confirmed_block w.irreversible cs last
      → All (λ (c : Chapter J). AreCalm w.retired_time c.blocks) cs
      → AreCalm w.retired_time last
      → let x = read_chapters rs J rounds cs last w in
        (x.0 ≡ done tt)
        × IsBackedUp w.keep_blocks
            (blocks last)
            (behind w.confirmed_block cs)
            (mirror_chapters w.keep_blocks w.source_id cs (mirror w))
            x.1
  unfolding read_chapters mirror_chapters behind IsOrderly
  read_chapters-IsBackedUp [] last w a queue durable orderly calm calm' =
      let (e, h) =
        read_stream-IsMirrored rs J rounds last w a.slave a.connected a.has_websocket queue durable
          orderly calm' in
      (e, IsServedBySlave-IsBackedUp (blocks last) w _ h)
  read_chapters-IsBackedUp (c ∷ cs) last w a queue durable (ascending, late, orderly) (calm, calms)
        calm' =
      let x = read_chapter rs J rounds c w in
      let h = read_chapter-IsHeard c w a queue durable ascending late calm in
      let (e, k) =
        read_chapters-IsBackedUp cs last x.1 h.attached h.queue h.durable
          (rw (h.confirmed, h.irreversible) orderly) (rw h.retired calms) (rw h.retired calm') in
      continue-returns
        (λ y.
          (y.0 ≡ done tt)
          × IsBackedUp w.keep_blocks (blocks last) (behind w.confirmed_block (c ∷ cs))
              (mirror_chapters w.keep_blocks w.source_id (c ∷ cs) (mirror w)) y.1)
        x.0 tt (λ _. read_chapters rs J rounds cs last) x.1 h.returns
        (
          e,
          IsBackedUp-same (blocks last) _ h.keep (ap (λ (n : ℤ). behind n cs) h.confirmed)
              (rw (h.keep, h.source, h.mirrored) refl) k,
        )
