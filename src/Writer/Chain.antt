-- ===== src/Writer/Chain.antt =====
-- The traces of a block read by a master (the case 1003 of Writer::processData in
-- prototype/Writer.cpp), beside a store that writes each trace as it comes.
use fio_relic.Base.{suc, List, ◌∷◌, ◌++◌, map, true, false, ◌≡◌, sym, ap, ◌∙◌, arith}
use fio_relic.Base.Int.{ℤ, negsuc, ◌<ℤ◌}
use fio_relic.Base.Exec.{done}
use fio_relic.External.{Rapidjson}
use fio_relic.Tables.{Tables, Transaction, Receipt, insert_traces}
use fio_relic.Tables.Rows.{insert_traces-append}
use fio_relic.Writer.State.{Writer}
use fio_relic.Writer.Batch.{push_transaction}
use fio_relic.Writer.Messages.{on_trace}
use fio_relic.Writer.Block.{count_block}
use fio_relic.Writer.Fork.{HasEmptyQueues}
use fio_relic.Writer.Queues.{IsQueued, AfterBatch}
use fio_relic.Writer.Traces.{store_trace-master, trace_at-stored}
use fio_relic.Writer.Growth.{Grew, push_trace, push_receipts, save_receipts-push_receipts}
use fio_relic.Writer.Store.{
  Agrees, TraceMessage, row, write_all, receipts_of, write_all-transactions, write_all-receipts,
  write_all-sequences, write_all-others,
}

module _ (J : Rapidjson) (n : ℤ) where
  -- A master that writes traces, with block n still to come.
  pub record IsReady (w : Writer) : Type 0 where
    pub master : w.i_am_master ≡ true
    pub writes : w.no_traces ≡ false
    pub above : w.confirmed_block <ℤ n

  pub Grew-IsReady :
      (ts : List Transaction) (rs : List Receipt) (w w' : Writer)
      → Grew ts rs w w'
      → IsReady w
      → IsReady w'
  Grew-IsReady ts rs w w' g r = record {
    master = g.master ∙ r.master;
    writes = g.writes ∙ r.writes;
    above = rw g.confirmed r.above;
  }

  pub on_trace-pushes :
      (m : TraceMessage J n) (w : Writer)
      → IsReady w
      → on_trace J m.json m.text w ≡ (done (negsuc 0), push_trace (row m) m.receipts w)
  unfolding on_trace push_trace
  on_trace-pushes m w r = rw m.has_block (
      trace_at-stored J n m.json m.trace m.first m.others m.text m.status m.id m.time m.seq w
        m.has_trace m.has_status m.executed m.has_items m.has_time m.has_seq m.has_id r.above
        (push_receipts m.receipts (push_transaction (row m) w))
        (store_trace-master J m.seq n m.time m.trace m.text m.id w m.has_id (m.first ∷ m.others)
            m.has_items r.master r.writes
          ∙ save_receipts-push_receipts J m.seq n m.time (m.first ∷ m.others) m.receipts
              (push_transaction (row m) w) m.has_receipts))

  -- A batch that is sent has written what a store has that writes each message at once.
  pub written-Agrees :
      (ms : List (TraceMessage J n)) (w v w' : Writer)
      → HasEmptyQueues w
      → Grew (map row ms) (receipts_of ms) w v
      → AfterBatch v w'
      → Agrees w'.working (write_all ms w.working)
  unfolding insert_traces
  written-Agrees ms w v w' empty g a =
      let ts : v.insert_transactions ≡ map row ms =
        g.transactions ∙ ap (λ (l : List Transaction). l ++ map row ms) empty.0 in
      let rs : v.insert_receipts ≡ receipts_of ms =
        g.receipts ∙ ap (λ (l : List Receipt). l ++ receipts_of ms) empty.1 in
      record {
        transactions =
            a.rows
            ∙ rw (g.tables.0, ts)
                (sym (insert_traces-append w.working.transactions (map row ms))
                  ∙ sym (write_all-transactions ms w.working));
        receipts = a.receipts ∙ rw (g.tables.0, rs) (sym (write_all-receipts ms w.working));
        sequences = λ account.
            a.sequences account
            ∙ rw (g.tables.0, rs) (sym (write_all-sequences account ms w.working));
        others = (
          a.others.0
              ∙ ap (λ (t : Tables). t.sync) g.tables.0
              ∙ sym (write_all-others ms w.working).0,
          a.others.1
              ∙ ap (λ (t : Tables). t.bkp_traces) g.tables.0
              ∙ sym (write_all-others ms w.working).1,
        );
      }

pub count_block-IsQueued : (w : Writer) → IsQueued w → IsQueued (count_block w)
unfolding count_block
count_block-IsQueued w q = record {
  indexed = record { distinct = q.indexed.distinct; latest = q.indexed.latest };
  together = q.together;
}

pub count_block-Grew :
    (ts : List Transaction) (rs : List Receipt) (w v : Writer)
    → Grew ts rs w v
    → Grew ts rs w (count_block v)
unfolding count_block
count_block-Grew ts rs w v g = record {
  transactions = g.transactions;
  receipts = g.receipts;
  master = g.master;
  writes = g.writes;
  confirmed = g.confirmed;
  irreversible = g.irreversible;
  tables = g.tables;
  link = record {
    connected = g.link.connected;
    has_websocket = g.link.has_websocket;
    sent = g.link.sent;
    source = g.link.source;
  };
}

pub count_block-counted : (w : Writer) → (count_block w).blocks_counter ≡ suc w.blocks_counter
unfolding count_block
count_block-counted w = omega arith
