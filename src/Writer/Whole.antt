-- ===== src/Writer/Whole.antt =====
-- A whole run of a master, from its start to the end of its connection (Writer::Run in
-- prototype/Writer.cpp and WebsocketServer::Run in prototype/WebsocketServer.cpp).
use fio_relic.Base.{
  ℕ, List, [], ◌∷◌, ◌++◌, map, true, false, ◌≡◌, refl, ap, ◌∙◌, Option, some, length, ◌⊎◌,
}
use fio_relic.Base.Int.{ℤ, negsuc, to_int32}
use fio_relic.Base.Bytes.{Bytes}
use fio_relic.Base.Exec.{Exec, Outcome, done, thrown, fix_me, continue, continue-returns, ◌>>◌}
use fio_relic.External.{Rapidjson, ResultSets, IsDocumented}
use fio_relic.Server
use fio_relic.Server.{Setup, Connection, read_loop, make_address}
use fio_relic.Server.Service.{serve_once}
use fio_relic.Tables.{Tables, SyncRow}
use fio_relic.Writer.State.{Writer, rollback}
use fio_relic.Writer.{on_read, on_disconnect}
use fio_relic.Writer.Store.{Agrees}
use fio_relic.Writer.Settled.{BlockMessage}
use fio_relic.Writer.History.{IsAscending, last_number, last_answer, all_replies, blocks}
use fio_relic.Writer.Buffers.{TraceBuffer}
use fio_relic.Writer.Wire.{read_buffers}
use fio_relic.Writer.Served.{BlockBuffers, read_block_buffers}
use fio_relic.Writer.Sequence.{read_stream}
use fio_relic.Writer.Stream.{IsServedByMaster, write_blocks, read_stream-IsServed}
use fio_relic.Writer.Startup
use fio_relic.Writer.Startup.{Options, new_writer, listen_at}
use fio_relic.Writer.Started.{IsStartable, IsStartable-IsServing, started, start_session-starts}
use fio_relic.Writer.Class.{Message, lifecycle, handlers}

-- One step more, and then the rest.
then_assoc :
    {S : Type 0} (o : Outcome (Unit {0})) (f g h : Exec S (Unit {0})) (s : S)
    → ((u : S) → h u ≡ (do f; g) u)
    → continue o (λ _. h) s ≡ (let x = continue o (λ _. f) s in continue x.0 (λ _. g) x.1)
then_assoc (done a) f g h s e = e s
then_assoc (thrown t) f g h s e = refl

module _ (rs : ResultSets) (J : Rapidjson) (rounds : ℕ) where
  abbrev trace_messages : {n : ℤ} → List (TraceBuffer J n) → List Message
  trace_messages {n} bs = map (λ (b : TraceBuffer J n). (rounds, b.env, b.buffer)) bs

  -- The messages in which the blocks come.
  unfoldable pub messages_of : List (BlockBuffers J) → List Message
  messages_of [] = []
  messages_of (b ∷ bs) = trace_messages b.traces ++ (rounds, b.block.env, b.buffer) ∷ messages_of bs

  -- The loop of `read` in the run of the writer.
  abbrev loop : List Message → Exec Writer (Unit {0})
  loop =
      read_loop (λ w. record w { has_websocket = true }) (handlers rs J).on_read
        (handlers rs J).on_disconnect

  loop-read_buffers :
      {n : ℤ} (bs : List (TraceBuffer J n)) (rest : List Message) (w : Writer)
      → loop (trace_messages bs ++ rest) w ≡ (do read_buffers rs J rounds bs; loop rest) w
  unfolding read_loop read_buffers
  loop-read_buffers [] rest w = refl
  loop-read_buffers (b ∷ bs) rest w =
      let x = on_read rs J rounds b.env b.buffer w in
      then_assoc x.0 (read_buffers rs J rounds bs) (loop rest) _ x.1
        (λ u. loop-read_buffers bs rest u)

  loop-read_stream :
      (bs : List (BlockBuffers J)) (w : Writer)
      → loop (messages_of bs) w ≡ (do read_stream rs J rounds bs; loop []) w
  unfolding messages_of read_stream read_block_buffers read_loop
  loop-read_stream [] w = refl
  loop-read_stream (b ∷ bs) w =
      let x = read_buffers rs J rounds b.traces w in
      let m = on_read rs J rounds b.block.env b.buffer in
      let rest = read_stream rs J rounds bs in
      loop-read_buffers b.traces ((rounds, b.block.env, b.buffer) ∷ messages_of bs) w
      ∙ then_assoc x.0 (do m; rest) (loop []) (do m; loop (messages_of bs)) x.1
          (λ u.
            then_assoc (m u).0 rest (loop []) (loop (messages_of bs)) (m u).1
              (λ v. loop-read_stream bs v))
      ∙ ap (λ (y : Outcome (Unit {0}) × Writer). continue y.0 (λ _. loop []) y.1)
          (then_assoc x.0 m rest (do m; rest) x.1 (λ u. refl))

-- Whatever is needed to listen succeeds.
pub record IsListening (a : Setup) : Type 0 where
  pub address : make_address a ≡ done tt
  pub opens : a.opens ≡ true
  pub sets_option : a.sets_option ≡ true
  pub binds : a.binds a.port ≡ true
  pub listens : a.listens ≡ true

-- Of the blocks that came, the first are stored, on the tables t of the start: those up to the
-- confirmed block, which begins at that of the row of SYNC. Everything is committed. Each block has
-- one answer, and the texts sent are those of the answers that are not negative; the last answer is
-- -1, or no block is lost and it is the confirmed block as an int.
pub record IsDelivered {J : Rapidjson} (bs : List (BlockMessage J)) (r : SyncRow) (t : Tables)
    (w' : Writer) : Type 0 where
  pub stored : List (BlockMessage J)
  pub lost : List (BlockMessage J)
  pub parts : bs ≡ stored ++ lost
  pub tables : Agrees w'.working (write_blocks stored t)
  pub durable : w'.committed ≡ w'.working
  pub confirmed : w'.confirmed_block ≡ last_number r.block_num stored
  pub answers : List ℤ
  pub each : length answers ≡ length bs
  pub sent : w'.sent ≡ all_replies answers
  pub answer :
      (last_answer (negsuc 0) answers ≡ negsuc 0)
      ⊎ ((lost ≡ []) × (last_answer (negsuc 0) answers ≡ to_int32 w'.confirmed_block))

IsServedByMaster-IsDelivered :
    {J : Rapidjson} (bs : List (BlockMessage J)) (r : SyncRow) (t : Tables) (w v : Writer)
    → w.working ≡ t
    → w.confirmed_block ≡ r.block_num
    → w.sent ≡ []
    → IsServedByMaster bs w v
    → IsDelivered bs r t (rollback v)
unfolding rollback
IsServedByMaster-IsDelivered bs r t w v tables number silent s = record {
  stored = s.stored.stored;
  lost = s.stored.waiting;
  parts = s.stored.parts;
  tables = rw (← tables) s.stored.durable;
  durable = refl;
  confirmed = rw (← number) s.stored.confirmed;
  answers = s.answers;
  each = s.each;
  sent = s.sent ∙ ap (λ (l : List Bytes). l ++ all_replies s.answers) silent;
  answer = s.stored.answer;
}

-- A constructed writer with the options.
abbrev configured : Options → Tables → Writer
configured o nothing = (Startup.get_options (some o) (new_writer nothing)).1

module _ (rs : ResultSets) (J : Rapidjson) (rounds : ℕ) where
  -- The connection over which the blocks come.
  abbrev pub connection_of : List (BlockBuffers J) → Connection Message
  connection_of bs = record { handshake = true; messages = messages_of rs J rounds bs }

  -- A whole run: with a documented result set, a writer that is started with options that do not turn
  -- the traces off, on tables t whose SYNC holds one master, at most one slave and a master's row r of
  -- the source of the options, where all that is needed to listen succeeds, serves a connection over
  -- which blocks come as in read_stream-IsServed, with numbers that ascend from that of r, until a read
  -- fails. Then Run ends with the exception of acceptAsync, whatever other connections wait, and
  -- IsDelivered holds: what is committed has the rows, and for each account the sequence number, of a
  -- store that writes each message at once, behind the first blocks, up to the confirmed one; the
  -- others are lost; each block has one answer, and the texts sent are those of the answers that are
  -- not negative; the last answer is -1, or no block is lost and it is the confirmed block as an int.
  pub run-IsDelivered :
      IsDocumented rs
      → (o : Options) (t : Tables) (r : SyncRow) (a : Setup) (bs : List (BlockBuffers J))
        (others : List (Option (Connection Message))) (nothing : Tables)
      → o.no_traces ≡ false
      → IsStartable o.source_id r t.sync
      → IsListening (listen_at (some o) a)
      → IsAscending r.block_num (blocks bs)
      → let x =
          (lifecycle rs J).run
            (some o)
            (some t)
            a
            (some (connection_of bs) ∷ others)
            (new_writer nothing) in
        (x.0 ≡ thrown fix_me) × IsDelivered (blocks bs) r t x.1
  unfolding Startup.run Startup.initialize Startup.get_options Server.run Server.initialize
      Server.or_socket_error Server.read Server.accept_async Server.read_loop on_disconnect
  run-IsDelivered d o t r a bs others nothing writes startable listening ascending =
      let v = configured o nothing in
      let n = started t r v in
      let n' = record n { has_websocket = true } in
      let k = IsStartable-IsServing t r v startable writes (refl, refl, refl) in
      let (e, s) =
        read_stream-IsServed rs J rounds bs n' refl writes k.linked k.queues refl ascending in
      let u = (read_stream rs J rounds bs n').1 in
      rw
        (
          start_session-starts rs d t r v startable,
          listening.address,
          listening.opens,
          listening.sets_option,
          listening.binds,
          listening.listens,
          (serve_once (λ w. record w { has_websocket = true }) (handlers rs J).on_read
              (handlers rs J).on_disconnect (connection_of bs) others n).1,
          loop-read_stream rs J rounds bs n',
        )
        (continue-returns (λ y. (y.0 ≡ thrown fix_me) × IsDelivered (blocks bs) r t y.1)
          (read_stream rs J rounds bs n').0 tt (λ _. loop rs J rounds []) u e
          (rw s.stored.kept.serving.linked.connected
            (refl, IsServedByMaster-IsDelivered (blocks bs) r t n' u refl refl refl s)))
