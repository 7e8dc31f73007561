-- ===== src/Writer/Traces.antt =====
-- What a trace message queues (the case 1003 and saveTrace of prototype/Writer.cpp).
use mathlib.Core.List.{append-nil, append_assoc}
use fio_relic.Base.{ℕ, ◌+◌, List, [], ◌∷◌, ◌++◌, true, false, ◌≡◌, refl, ap, ◌∙◌, arith}
use fio_relic.Base.Int.{ℤ, negsuc, ◌<ℤ◌, lt→leb_ℤ}
use fio_relic.Base.Bytes.{Bytes, codes, same_ignoring_case}
use fio_relic.Base.Exec.{Exec, Outcome, done, thrown, and_then, continue}
use fio_relic.External.{Rapidjson}
use fio_relic.Tables.{Transaction, Receipt}
use fio_relic.Writer.State.{Writer}
use fio_relic.Writer.Batch.{
  read_receipt, save_receipts, save_rows, save_trace, push_receipt, push_transaction, string_at,
  array_at, object_at,
}
use fio_relic.Writer.Messages.{
  trace_at, on_new_trace, keep_if_any, keep_trace, store_trace, get_block_time, trx_seq_of,
  push_bkp_trace, count_trx,
}

module _ (J : Rapidjson) (seq : ℕ) (n : ℤ) (time : Bytes) where
  -- The receipts that a list of action traces describes, or the first exception.
  unfoldable pub read_receipts : List J.Value → Outcome (List Receipt)
  read_receipts [] = done []
  read_receipts (item ∷ items) =
      and_then (read_receipt J seq n time item)
        λ r. and_then (read_receipts items) λ rs. done (r ∷ rs)

  -- What an action on the queues is to do: its outcome is that of reading all receipts, and where
  -- that succeeds they stand behind the queued ones; the rest is left alone.
  pub record Queues (rs : Outcome (List Receipt)) (w : Writer) (x : Outcome (Unit {0}) × Writer)
      : Type 0 where
    pub outcome : x.0 ≡ and_then rs (λ _. done tt)
    pub receipts : (l : List Receipt) → rs ≡ done l → x.1.insert_receipts ≡ w.insert_receipts ++ l
    pub transactions : x.1.insert_transactions ≡ w.insert_transactions
    pub counter : x.1.trx_counter ≡ w.trx_counter
    pub tables : (x.1.working ≡ w.working) × (x.1.committed ≡ w.committed)

  save_receipts-Queues :
      (items : List J.Value) (w : Writer)
      → Queues (read_receipts items) w (save_receipts J seq n time items w)
  unfolding save_receipts read_receipts push_receipt
  save_receipts-Queues [] w = record {
    outcome = refl;
    receipts = λ l e. ground (arith, append-nil w.insert_receipts);
    transactions = refl;
    counter = refl;
    tables = (refl, refl);
  }
  save_receipts-Queues (item ∷ items) w =
      pushed (read_receipt J seq n time item) (read_receipts items)
        (save_receipts J seq n time items) (λ r. save_receipts-Queues items (push_receipt r w))
    where
      pushed :
          (o : Outcome Receipt) (rs : Outcome (List Receipt)) (rest : Exec Writer (Unit {0}))
          → ((r : Receipt) → Queues rs (push_receipt r w) (rest (push_receipt r w)))
          → Queues
              (and_then o (λ r. and_then rs (λ l. done (r ∷ l))))
              w
              (continue o (λ r v. rest (push_receipt r v)) w)
      pushed (thrown e) rs rest q = record {
        outcome = refl;
        receipts = λ l h. absurd (ground arith);
        transactions = refl;
        counter = refl;
        tables = (refl, refl);
      }
      pushed (done r) (thrown e) rest q = record {
        outcome = (q r).outcome;
        receipts = λ l h. absurd (ground arith);
        transactions = (q r).transactions;
        counter = (q r).counter;
        tables = (q r).tables;
      }
      pushed (done r) (done l') rest q = record {
        outcome = (q r).outcome;
        receipts = λ l h.
            (q r).receipts l' refl
            ∙ append_assoc w.insert_receipts (r ∷ []) l'
            ∙ ap (λ (t : List Receipt). w.insert_receipts ++ t) (ground arith);
        transactions = (q r).transactions;
        counter = (q r).counter;
        tables = (q r).tables;
      }

-- The transaction that a trace message describes.
abbrev pub queued : ℕ → ℤ → Bytes → Bytes → Bytes → Transaction
queued seq n time id text = record {
  seq = seq;
  block_num = n;
  block_time = time;
  trx_id = id;
  trace = text;
}

module _ (J : Rapidjson) (seq : ℕ) (n : ℤ) (time : Bytes) (trace : J.Value) (text id : Bytes)
    (w : Writer) (has_id : string_at J trace "id" ≡ done id) where
  store_trace-slave :
      w.i_am_master ≡ false
      → store_trace J seq n time trace text w
        ≡ (done tt, push_bkp_trace (queued seq n time id text) w)
  unfolding store_trace
  store_trace-slave slave = ground arith

  pub store_trace-master :
      (items : List J.Value)
      → array_at J trace "action_traces" ≡ done items
      → w.i_am_master ≡ true
      → w.no_traces ≡ false
      → store_trace J seq n time trace text w
        ≡ save_receipts J seq n time items (push_transaction (queued seq n time id text) w)
  unfolding store_trace save_trace save_rows
  store_trace-master items has_items master writes = ground arith

module _ (J : Rapidjson) (n : ℤ) (json trace first : J.Value) (rest : List J.Value)
    (text status id time : Bytes) (seq : ℕ) (w : Writer)
    (has_trace : object_at J json "trace" ≡ done trace)
    (has_status : string_at J trace "status" ≡ done status)
    (executed : same_ignoring_case status (codes "executed") ≡ true)
    (has_items : array_at J trace "action_traces" ≡ done (first ∷ rest))
    (has_time : get_block_time J json ≡ done time) (has_seq : trx_seq_of J first ≡ done seq)
    (has_id : string_at J trace "id" ≡ done id) (fresh : w.confirmed_block <ℤ n) where
  -- What the message does, from what storing the trace does.
  pub trace_at-stored :
      (v : Writer)
      → store_trace J seq n time trace text w ≡ (done tt, v)
      → trace_at J n json text w ≡ (done (negsuc 0), count_trx v)
  unfolding trace_at on_new_trace keep_if_any keep_trace
  trace_at-stored v stored =
      rw
        (
          lt→leb_ℤ n w.confirmed_block fresh,
          has_trace,
          has_status,
          executed,
          has_items,
          has_time,
          has_seq,
          stored,
        )
        refl

  -- On a trace message whose parts can be read, for an executed transaction with action traces in a
  -- block above the confirmed one, a slave queues exactly that transaction for the backup table,
  -- counts it, answers -1 and changes nothing else.
  pub trace_at_slave :
      w.i_am_master ≡ false
      → trace_at J n json text w
        ≡ (done (negsuc 0), count_trx (push_bkp_trace (queued seq n time id text) w))
  trace_at_slave slave =
      trace_at-stored _ (store_trace-slave J seq n time trace text id w has_id slave)

  -- On a trace message whose parts and receipts can be read, for an executed transaction with action
  -- traces in a block above the confirmed one, a master that writes traces queues the transaction and,
  -- in order, one receipt for each action trace, counts it, answers -1, and touches no table.
  pub trace_at_master :
      (receipts : List Receipt)
      → read_receipts J seq n time (first ∷ rest) ≡ done receipts
      → w.i_am_master ≡ true
      → w.no_traces ≡ false
      → let x = trace_at J n json text w in
        (x.0 ≡ done (negsuc 0))
        × (x.1.insert_transactions ≡ w.insert_transactions ++ queued seq n time id text ∷ [])
        × (x.1.insert_receipts ≡ w.insert_receipts ++ receipts)
        × (x.1.trx_counter ≡ w.trx_counter + 1)
        × (x.1.working ≡ w.working)
        × (x.1.committed ≡ w.committed)
  unfolding count_trx push_transaction
  trace_at_master receipts has_receipts master writes =
      let q =
        save_receipts-Queues J seq n time (first ∷ rest)
          (push_transaction (queued seq n time id text) w) in
      let e = trace_at-stored _ (
        store_trace-master J seq n time trace text id w has_id (first ∷ rest) has_items master
          writes
        ∙ ap
            (λ o. (
              o,
              (save_receipts J seq n time (first ∷ rest)
                  (push_transaction (queued seq n time id text) w)).1,
            ))
            (q.outcome ∙ ap (λ o. and_then o (λ _. done tt)) has_receipts)) in
      rw (e) (
        refl,
        q.transactions,
        q.receipts receipts has_receipts,
        ap (λ c. c + 1) q.counter,
        q.tables.0,
        q.tables.1,
      )
