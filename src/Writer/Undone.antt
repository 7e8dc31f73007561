-- ===== src/Writer/Undone.antt =====
-- A fork message read by a master (Writer::onRead and the case 1001 of Writer::processData in
-- prototype/Writer.cpp), beside a store that deletes the blocks from the fork on.
use fio_relic.Base.{ℕ, List, [], ◌∷◌, ◌++◌, true, false, ◌≡◌, refl, ap, ◌∙◌, keep_if, some, arith}
use fio_relic.Base.Int.{ℤ, pos, ◌-ℤ◌, ◌<ℤ◌, to_int32, lt→leb_ℤ}
use fio_relic.Base.Bytes.{Bytes}
use fio_relic.Base.Exec.{done}
use fio_relic.External.{Rapidjson, ResultSets}
use fio_relic.Tables.{Tables, SyncRow, delete_traces_from, delete_receipts_from, update_sync_fork}
use fio_relic.Writer.State.{Writer, Env}
use fio_relic.Writer.Batch.{fork_traces}
use fio_relic.Writer.Messages.{
  on_fork, long_at, fork_at, apply_fork, commit_now, write_sync_fork, fork_rows, rewind,
}
use fio_relic.Writer.{on_read, dispatch, split_message, verify_master, still_master}
use fio_relic.Writer.Reply.{replies, on_read-replies}
use fio_relic.Writer.Store.{Agrees}
use fio_relic.Writer.Growth.{Grew}
use fio_relic.Writer.Buffers.{IsLinked, IsLinked-Grew, verify_master-Grew}
use fio_relic.Writer.Wire.{process_data-dispatch}
use fio_relic.Writer.Stream.{IsServing}

-- The bytes of a fork message, and what its reading meets.
pub record ForkBuffer (J : Rapidjson) : Type 0 where
  pub number : ℤ
  pub json : J.Value
  pub env : Env
  pub buffer : Bytes
  pub opts : ℕ
  pub text : Bytes
  pub valid : env.valid ≡ true
  pub writes : env.writes ≡ true
  pub header : split_message buffer ≡ done (1001, opts, text)
  pub parsed : J.parse text ≡ some json
  pub has_number : long_at J json "block_num" ≡ done number

-- The store without the blocks from n on, where the source's row of SYNC says so.
abbrev pub undo : ℤ → ℤ → Tables → Tables
undo source_id n t = record t {
  sync = update_sync_fork (n -ℤ pos 1) source_id t.sync;
  transactions = delete_traces_from n t.transactions;
  receipts = delete_receipts_from n t.receipts;
}

pub undo-Agrees :
    (source_id n : ℤ) (t u : Tables) → Agrees t u → Agrees (undo source_id n t) (undo source_id n u)
undo-Agrees source_id n t u a = record {
  transactions = ap (delete_traces_from n) a.transactions;
  receipts = ap (delete_receipts_from n) a.receipts;
  sequences = a.sequences;
  others = (ap (update_sync_fork (n -ℤ pos 1) source_id) a.others.0, a.others.1);
}

-- The update of SYNC leaves the master listed.
still_master-undo :
    (source_id n : ℤ) (rows : List SyncRow)
    → still_master source_id (update_sync_fork n source_id rows) ≡ still_master source_id rows
unfolding still_master keep_if update_sync_fork
still_master-undo source_id n [] = refl
still_master-undo source_id n (r ∷ rows) = ground (arith, still_master-undo source_id n rows)

-- A master has read a fork at n: its tables are those of that store, everything is committed, and it
-- goes on from n.
pub record HasUndone (n : ℤ) (w w' : Writer) : Type 0 where
  pub serving : IsServing w'
  pub tables : w'.working ≡ undo w.source_id n w.working
  pub durable : w'.committed ≡ w'.working
  pub confirmed : w'.confirmed_block ≡ n -ℤ pos 1
  pub irreversible : w'.irreversible ≡ w.irreversible
  pub source : w'.source_id ≡ w.source_id

-- The statements of a master's fork.
forked : ℤ → Writer → Writer
forked n w = commit_now (write_sync_fork (fork_traces n (rewind n (commit_now w))))

apply_fork-forked :
    (n : ℤ) (w : Writer) → w.i_am_master ≡ true → apply_fork n (commit_now w) ≡ forked n w
unfolding apply_fork fork_rows commit_now forked
apply_fork-forked n w master = rw master refl

forked-HasUndone :
    (n : ℤ) (l : List Bytes) (w : Writer)
    → w.i_am_master ≡ true
    → w.no_traces ≡ false
    → IsLinked w
    → HasUndone n w (record (forked n w) { sent = l })
unfolding forked commit_now write_sync_fork fork_traces rewind
forked-HasUndone n l w master writes k = record {
  serving = record {
    master = master;
    writes = writes;
    queues = (refl, refl, refl);
    linked = record {
      connected = k.connected;
      has_websocket = k.has_websocket;
      listed = still_master-undo w.source_id (n -ℤ pos 1) w.working.sync ∙ k.listed;
    };
  };
  tables = refl;
  durable = refl;
  confirmed = refl;
  irreversible = refl;
  source = refl;
}

-- What was there before the message is there behind verify_master.
HasUndone-Grew : (n : ℤ) (w u x : Writer) → Grew [] [] w u → HasUndone n u x → HasUndone n w x
HasUndone-Grew n w u x g h = record {
  serving = h.serving;
  tables = h.tables ∙ rw (g.link.source, g.tables.0) refl;
  durable = h.durable;
  confirmed = h.confirmed;
  irreversible = h.irreversible ∙ g.irreversible;
  source = h.source ∙ g.link.source;
}

forked-link :
    (n : ℤ) (w : Writer)
    → ((forked n w).has_websocket ≡ w.has_websocket)
      × ((forked n w).confirmed_block ≡ n -ℤ pos 1)
      × ((forked n w).sent ≡ w.sent)
unfolding forked commit_now write_sync_fork fork_traces rewind
forked-link n w = (refl, refl, refl)

module _ (rs : ResultSets) (J : Rapidjson) (rounds : ℕ) where
  on_fork-forked :
      (f : ForkBuffer J) (w : Writer)
      → w.i_am_master ≡ true
      → w.irreversible <ℤ w.confirmed_block
      → on_fork J f.json w ≡ (done (to_int32 (f.number -ℤ pos 1)), forked f.number w)
  unfolding on_fork fork_at
  on_fork-forked f w master late =
      rw
        (
          f.has_number,
          lt→leb_ℤ w.confirmed_block w.irreversible late,
          apply_fork-forked f.number w master,
          (forked-link f.number w).1,
        )
        refl

  -- The message goes to the case of a fork, and its answer is written.
  pub on_read-on_fork :
      (f : ForkBuffer J) (w u v : Writer) (r : ℤ)
      → verify_master f.env w ≡ u
      → u.connected ≡ true
      → on_fork J f.json u ≡ (done r, v)
      → v.has_websocket ≡ true
      → on_read rs J rounds f.env f.buffer w ≡ (done tt, record v { sent = v.sent ++ replies r })
  unfolding dispatch
  on_read-on_fork f w u v r verified connected read there =
      (on_read-replies rs J rounds f.env f.buffer w v r
        (rw verified (
          process_data-dispatch rs J rounds f.env f.buffer 1001 f.opts f.text f.json u connected
            f.valid f.header f.parsed
          ∙ read))
        there f.writes).0

  -- The answer n - 1 is written, and HasUndone holds.
  pub on_read-undoes :
      (f : ForkBuffer J) (w : Writer)
      → IsServing w
      → w.irreversible <ℤ w.confirmed_block
      → let x = on_read rs J rounds f.env f.buffer w in
        (x.0 ≡ done tt)
        × (x.1.sent ≡ w.sent ++ replies (to_int32 (f.number -ℤ pos 1)))
        × HasUndone f.number w x.1
  on_read-undoes f w s late =
      let u = verify_master f.env w in
      let g = verify_master-Grew f.env w s.linked in
      let k = IsLinked-Grew [] [] w u g s.linked in
      let link = forked-link f.number u in
      let r = to_int32 (f.number -ℤ pos 1) in
      rw
        (on_read-on_fork f w u (forked f.number u) r refl k.connected
          (on_fork-forked f u (g.master ∙ s.master) (rw (g.irreversible, g.confirmed) late))
          (link.0 ∙ k.has_websocket))
        (
          refl,
          ap (λ (l : List Bytes). l ++ replies r) (link.2 ∙ g.link.sent),
          HasUndone-Grew f.number w u _ g (
              forked-HasUndone f.number ((forked f.number u).sent ++ replies r) u
                (g.master ∙ s.master) (g.writes ∙ s.writes) k),
        )
