-- ===== src/Writer/Queues.antt =====
-- The queues of the master (saveTrace and sendTracesBatch of prototype/Writer.cpp): what is queued
-- belongs together, and what reaches the tables when the batch is sent.
use mathlib.Core.List.{append-nil}
use fio_relic.Base.{
  any, ℕ, List, [], ◌∷◌, ◌++◌, Bool, true, false, ◌≡◌, ◌≢◌, refl, sym, ◌||◌, Option, none, some,
  arith, if◌then◌else◌,
}
use fio_relic.Base.Int.{ℤ}
use fio_relic.Base.Bytes.{Bytes, bytes_eq}
use fio_relic.Base.Exec.{Keeps, done, continue-holds}
use fio_relic.External.{Rapidjson}
use fio_relic.Tables.{Transaction, Receipt, insert_receipts}
use fio_relic.Tables.Rows.{
  has_seq, has_seq-insert_traces, recv_seq_of, recv_seq_of-upsert, HasDistinctKeys,
  upsert-HasDistinctKeys, or_else, recv_seq_of-upsert_recv_seqs, added_traces, insert_traces-append,
}
use fio_relic.Writer.State.{Writer}
use fio_relic.Writer.Batch.{
  push_receipt, push_transaction, read_receipt, save_receipts, save_rows, save_trace, string_at,
  array_at, write_queues, send_queue, send_traces_batch,
}
use fio_relic.Writer.Fork.{HasEmptyQueues}

-- The sequence number of the last receipt for an account.
unfoldable pub last_recv_seq : Bytes → List Receipt → Option ℤ
last_recv_seq account [] = none
last_recv_seq account (r ∷ rs) =
    or_else (last_recv_seq account rs)
      (if bytes_eq r.receiver account then some r.recv_sequence else none)

last_recv_seq-append :
    (account : Bytes) (rs : List Receipt) (r : Receipt)
    → last_recv_seq account (rs ++ r ∷ [])
      ≡ (if bytes_eq r.receiver account then some r.recv_sequence else last_recv_seq account rs)
unfolding last_recv_seq
last_recv_seq-append account [] r = ground arith
last_recv_seq-append account (x ∷ rs) r = ground (arith, last_recv_seq-append account rs r)

-- The map of sequence numbers has one entry for each account, that of its last queued receipt.
pub record IsIndexed (w : Writer) : Type 0 where
  pub distinct : HasDistinctKeys w.upsert_recv_seq_max
  pub latest :
      (account : Bytes)
      → recv_seq_of account w.upsert_recv_seq_max ≡ last_recv_seq account w.insert_receipts

-- A queue without transactions has no receipts either, so that sendTracesBatch forgets none.
pub record IsQueued (w : Writer) : Type 0 where
  pub indexed : IsIndexed w
  pub together :
      w.insert_transactions ≡ [] → (w.insert_receipts ≡ []) × (w.upsert_recv_seq_max ≡ [])

-- The same with a transaction queued.
pub record IsLoaded (w : Writer) : Type 0 where
  pub indexed : IsIndexed w
  pub some_trx : w.insert_transactions ≢ []

IsLoaded-IsQueued : (w : Writer) → IsLoaded w → IsQueued w
IsLoaded-IsQueued w l = record { indexed = l.indexed; together = λ e. absurd (l.some_trx e) }

pub push_receipt-IsLoaded : (r : Receipt) (w : Writer) → IsLoaded w → IsLoaded (push_receipt r w)
unfolding push_receipt
push_receipt-IsLoaded r w l = record {
  indexed = record {
    distinct =
        upsert-HasDistinctKeys w.upsert_recv_seq_max r.receiver r.recv_sequence l.indexed.distinct;
    latest = λ account. ground (
      arith,
      recv_seq_of-upsert account w.upsert_recv_seq_max r.receiver r.recv_sequence,
      last_recv_seq-append account w.insert_receipts r,
      l.indexed.latest account,
    );
  };
  some_trx = l.some_trx;
}

not-nil-append {ℓ} : {A : Type ℓ} (xs : List A) (x : A) → (xs ++ x ∷ []) ≢ []
not-nil-append [] x e = cc
not-nil-append (y ∷ xs) x e = cc

pub push_transaction-IsLoaded :
    (t : Transaction) (w : Writer) → IsQueued w → IsLoaded (push_transaction t w)
unfolding push_transaction
push_transaction-IsLoaded t w q = record {
  indexed = record { distinct = q.indexed.distinct; latest = q.indexed.latest };
  some_trx = not-nil-append w.insert_transactions t;
}

-- Without a queue nothing is out of step.
pub HasEmptyQueues-IsQueued : (w : Writer) → HasEmptyQueues w → IsQueued w
unfolding last_recv_seq recv_seq_of
HasEmptyQueues-IsQueued w (t, r, u) = record {
  indexed = record { distinct = rw u tt; latest = λ account. rw (u, r) };
  together = λ _. (r, u);
}

module _ (J : Rapidjson) (trx_seq : ℕ) (block_num : ℤ) (block_time : Bytes) where
  save_receipts-IsLoaded :
      (items : List J.Value) (w : Writer)
      → IsLoaded w
      → IsLoaded (save_receipts J trx_seq block_num block_time items w).1
  unfolding save_receipts
  save_receipts-IsLoaded [] w l = l
  save_receipts-IsLoaded (item ∷ items) w l =
      continue-holds (λ x. IsLoaded x.1) (read_receipt J trx_seq block_num block_time item) _ w
        (λ r _. save_receipts-IsLoaded items (push_receipt r w) (push_receipt-IsLoaded r w l))
        (λ _ _. l)

  save_rows-IsQueued :
      (trace : J.Value) (json_str : Bytes) (w : Writer)
      → IsQueued w
      → IsQueued (save_rows J trx_seq block_num block_time trace json_str w).1
  unfolding save_rows
  save_rows-IsQueued trace json_str w q =
      continue-holds (λ x. IsQueued x.1) (string_at J trace "id") _ w
        (λ id _.
          let w' = push_transaction _ w in
          let l = push_transaction-IsLoaded _ w q in
          continue-holds (λ x. IsQueued x.1) (array_at J trace "action_traces") _ w'
            (λ items _. IsLoaded-IsQueued _ (save_receipts-IsLoaded items w' l))
            (λ _ _. IsLoaded-IsQueued w' l))
        (λ _ _. q)

  pub save_trace-IsQueued :
      (trace : J.Value) (json_str : Bytes)
      → Keeps IsQueued (save_trace J trx_seq block_num block_time trace json_str)
  unfolding save_trace
  save_trace-IsQueued trace json_str = record { at = λ w q. go w q w.no_traces }
    where
      go :
          (w : Writer)
          → IsQueued w
          → (b : Bool)
          → IsQueued
              (if b
                then (done tt, w)
                else save_rows J trx_seq block_num block_time trace json_str w).1
      go w q true = q
      go w q false = save_rows-IsQueued trace json_str w q

-- sendTracesBatch: TRANSACTIONS gets the queued rows whose seq it does not hold, at its end and in
-- their order, and then holds exactly the keys that it held and those queued; RECEIPTS is what
-- inserting the queued receipts in order makes of it; RECV_SEQUENCE_MAX
-- has for each account the number of its last queued receipt, or else what it had; the other two
-- tables stay; and the queues are empty.
pub record AfterBatch (w w' : Writer) : Type 0 where
  pub queues : HasEmptyQueues w'
  pub rows :
      w'.working.transactions
      ≡ w.working.transactions ++ added_traces w.working.transactions w.insert_transactions
  pub receipts : w'.working.receipts ≡ insert_receipts w.working.receipts w.insert_receipts
  pub keys :
      (seq : ℕ)
      → has_seq seq w'.working.transactions
        ≡ (has_seq seq w.working.transactions || has_seq seq w.insert_transactions)
  pub sequences :
      (account : Bytes)
      → recv_seq_of account w'.working.recv_sequence_max
        ≡ or_else
            (last_recv_seq account w.insert_receipts)
            (recv_seq_of account w.working.recv_sequence_max)
  pub others : (w'.working.sync ≡ w.working.sync) × (w'.working.bkp_traces ≡ w.working.bkp_traces)

AfterBatch-write_queues : (w : Writer) → IsIndexed w → AfterBatch w (write_queues w)
unfolding write_queues
AfterBatch-write_queues w ix = record {
  queues = (refl, refl, refl);
  rows = insert_traces-append w.working.transactions w.insert_transactions;
  receipts = refl;
  keys = λ seq. has_seq-insert_traces w.working.transactions w.insert_transactions seq;
  sequences = λ account. rw (← ix.latest account) (
      recv_seq_of-upsert_recv_seqs account w.working.recv_sequence_max w.upsert_recv_seq_max
        ix.distinct);
  others = (refl, refl);
}

AfterBatch-nothing : (w : Writer) → IsQueued w → w.insert_transactions ≡ [] → AfterBatch w w
unfolding last_recv_seq added_traces any insert_receipts
AfterBatch-nothing w q none_queued =
    let (no_receipts, no_entries) = q.together none_queued in
    record {
      queues = (none_queued, no_receipts, no_entries);
      rows = rw none_queued (sym (append-nil w.working.transactions));
      receipts = rw (no_receipts, insert_receipts) refl;
      keys = λ seq. rw none_queued (ground arith);
      sequences = λ account. rw no_receipts;
      others = (refl, refl);
    }

AfterBatch-send_queue :
    (w : Writer) (ts : List Transaction)
    → w.insert_transactions ≡ ts
    → IsQueued w
    → AfterBatch w (send_queue ts w)
unfolding send_queue
AfterBatch-send_queue w [] e q = AfterBatch-nothing w q e
AfterBatch-send_queue w (t ∷ ts) e q = AfterBatch-write_queues w q.indexed

-- From a state whose queues belong together, sendTracesBatch leaves what AfterBatch describes,
-- whether or not a transaction was queued.
pub send_traces_batch_lem : (w : Writer) → IsQueued w → AfterBatch w (send_traces_batch w)
unfolding send_traces_batch
send_traces_batch_lem w q = AfterBatch-send_queue w w.insert_transactions refl q
