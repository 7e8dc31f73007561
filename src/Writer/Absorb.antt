-- ===== src/Writer/Absorb.antt =====
-- What a block message does before its first test that may return (prototype/Writer.cpp, lines 344
-- to 405): the fields and tables that it leaves alone, and those that it sets.
use fio_relic.Base.{List, [], ◌∷◌, Bool, true, false, ◌≡◌, ◌∙◌, if◌then◌else◌, arith}
use fio_relic.Base.Int.{ℤ, ltb_ℤ}
use fio_relic.Tables.{Transaction}
use fio_relic.Writer.State.{Writer}
use fio_relic.Writer.Batch.{send_queue, send_traces_batch, write_queues}
use fio_relic.Writer.Block.{
  absorb_block, note_reversible, note_irreversible, flush_queues, send_bkp_batch, set_unconfirmed,
  prune_history,
}

-- The connection, the stream with what was sent, and the source are the same.
pub record SameLink (w w' : Writer) : Type 0 where
  pub connected : w'.connected ≡ w.connected
  pub has_websocket : w'.has_websocket ≡ w.has_websocket
  pub sent : w'.sent ≡ w.sent
  pub source : w'.source_id ≡ w.source_id

pub SameLink-trans : (u v w : Writer) → SameLink u v → SameLink v w → SameLink u w
SameLink-trans u v w a b = record {
  connected = b.connected ∙ a.connected;
  has_websocket = b.has_websocket ∙ a.has_websocket;
  sent = b.sent ∙ a.sent;
  source = b.source ∙ a.source;
}

-- The part of the state that a block message does not touch before its first test.
pub record SameRole (w w' : Writer) : Type 0 where
  pub master : w'.i_am_master ≡ w.i_am_master
  pub confirmed : w'.confirmed_block ≡ w.confirmed_block
  pub sync : w'.working.sync ≡ w.working.sync
  pub durable : w'.committed ≡ w.committed
  pub retired : w'.retired_time ≡ w.retired_time
  pub counted : w'.blocks_counter ≡ w.blocks_counter
  pub writes : w'.no_traces ≡ w.no_traces
  pub link : SameLink w w'

SameRole-trans : (u v w : Writer) → SameRole u v → SameRole v w → SameRole u w
SameRole-trans u v w a b = record {
  master = b.master ∙ a.master;
  confirmed = b.confirmed ∙ a.confirmed;
  sync = b.sync ∙ a.sync;
  durable = b.durable ∙ a.durable;
  retired = b.retired ∙ a.retired;
  counted = b.counted ∙ a.counted;
  writes = b.writes ∙ a.writes;
  link = SameLink-trans u v w a.link b.link;
}

SameRole-note_reversible : (n l : ℤ) (w : Writer) → SameRole w (note_reversible n l w)
unfolding note_reversible
SameRole-note_reversible n l w = ground arith

SameRole-note_irreversible : (l : ℤ) (w : Writer) → SameRole w (note_irreversible l w)
unfolding note_irreversible
SameRole-note_irreversible l w = ground arith

SameRole-send_queue : (w : Writer) (ts : List Transaction) → SameRole w (send_queue ts w)
unfolding send_queue write_queues
SameRole-send_queue w [] = ground arith
SameRole-send_queue w (t ∷ ts) = ground arith

SameRole-flush_queues : (w : Writer) → SameRole w (flush_queues w)
unfolding flush_queues send_bkp_batch send_traces_batch
SameRole-flush_queues w = go w.i_am_master
  where
    go :
        (b : Bool) → SameRole w (if b then send_queue w.insert_transactions w else send_bkp_batch w)
    go true = SameRole-send_queue w w.insert_transactions
    go false = ground arith

pub SameRole-absorb_block : (n l : ℤ) (w : Writer) → SameRole w (absorb_block n l w)
unfolding absorb_block set_unconfirmed
SameRole-absorb_block n l w =
    let w1 = note_reversible n l w in
    let w2 = note_irreversible l w1 in
    let s = SameRole-trans w w1 (flush_queues w2) (SameRole-note_reversible n l w) (
      SameRole-trans w1 w2 (flush_queues w2) (SameRole-note_irreversible l w1)
        (SameRole-flush_queues w2)) in
    record {
      master = s.master;
      confirmed = s.confirmed;
      sync = s.sync;
      durable = s.durable;
      retired = s.retired;
      counted = s.counted;
      writes = s.writes;
      link = record {
        connected = s.link.connected;
        has_websocket = s.link.has_websocket;
        sent = s.link.sent;
        source = s.link.source;
      };
    }

-- The last irreversible block behind one that says that it is l.
abbrev pub later : ℤ → ℤ → ℤ
later irreversible l = if ltb_ℤ irreversible l then l else irreversible

note_irreversible-later :
    (n l : ℤ) (w : Writer)
    → (note_irreversible l (note_reversible n l w)).irreversible ≡ later w.irreversible l
unfolding note_irreversible note_reversible prune_history
note_irreversible-later n l w = ground arith

flush_queues-irreversible : (w : Writer) → (flush_queues w).irreversible ≡ w.irreversible
unfolding flush_queues send_bkp_batch send_traces_batch send_queue write_queues
flush_queues-irreversible w = ground arith

pub absorb_block-later :
    (n l : ℤ) (w : Writer) → (absorb_block n l w).irreversible ≡ later w.irreversible l
unfolding absorb_block set_unconfirmed
absorb_block-later n l w = flush_queues-irreversible _ ∙ note_irreversible-later n l w
