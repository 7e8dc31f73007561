-- ===== src/Writer/Batch.antt =====
-- Writer::forkTraces, Writer::saveTrace and Writer::sendTracesBatch (prototype/Writer.cpp).
use fio_relic.Base.{ℕ, List, [], ◌∷◌, ◌++◌, if◌then◌else◌, String}
use fio_relic.Base.Int.{ℤ}
use fio_relic.Base.Bytes.{Bytes, stol}
use fio_relic.Base.Exec.{
  Exec, Outcome, done, json_access, and_then, from_option, from_outcome, modify, pure, ◌>>=◌, ◌>>◌,
}
use fio_relic.External.{Rapidjson}
use fio_relic.Tables.{
  Transaction, Receipt, insert_traces, insert_receipts, upsert_recv_seq, upsert_recv_seqs,
  delete_traces_from, delete_receipts_from,
}
use fio_relic.Writer.State.{Writer}

-- Writer::forkTraces
unfoldable pub fork_traces : ℤ → Writer → Writer
fork_traces start_block w = record w {
  working = record w.working {
    receipts = delete_receipts_from start_block w.working.receipts;
    transactions = delete_traces_from start_block w.working.transactions;
  };
}

-- insertReceipts.push_back, and upsertRecvSeqMax[receiver] = recv_sequence. Only the value of each
-- key of that map is modelled, not the order in which the map is walked.
unfoldable pub push_receipt : Receipt → Writer → Writer
push_receipt r w = record w {
  insert_receipts = w.insert_receipts ++ r ∷ [];
  upsert_recv_seq_max = upsert_recv_seq w.upsert_recv_seq_max (r.receiver, r.recv_sequence);
}

unfoldable pub push_transaction : Transaction → Writer → Writer
push_transaction t w = record w { insert_transactions = w.insert_transactions ++ t ∷ [] }

module _ (J : Rapidjson) where
  -- v[key], v[key].GetString(), v[key].GetObject()
  unfoldable pub member : J.Value → String → Outcome J.Value
  member v key = from_option (J.member v key) json_access

  unfoldable pub string_at : J.Value → String → Outcome Bytes
  unfolding member
  string_at v key = and_then (member v key) λ m. from_option (J.get_string m) json_access

  unfoldable pub object_at : J.Value → String → Outcome J.Value
  unfolding member
  object_at v key = and_then (member v key) λ m. from_option (J.get_object m) json_access

  unfoldable pub array_at : J.Value → String → Outcome (List J.Value)
  unfolding member
  array_at v key = and_then (member v key) λ m. from_option (J.get_array m) json_access

  -- One round of the loop over the action traces: the receipt that it pushes.
  unfoldable pub read_receipt : ℕ → ℤ → Bytes → J.Value → Outcome Receipt
  read_receipt trx_seq block_num block_time item =
      and_then (from_option (J.get_object item) json_access) λ atrace.
        and_then (object_at atrace "act") λ act. and_then (object_at atrace "receipt") λ receipt.
          and_then (string_at receipt "receiver") λ receiver.
            and_then (and_then (string_at receipt "recv_sequence") stol) λ recv_sequence.
              and_then (string_at act "account") λ account. and_then (string_at act "name") λ name.
                done (record {
                  seq = trx_seq;
                  block_num = block_num;
                  block_time = block_time;
                  contract = account;
                  action = name;
                  receiver = receiver;
                  recv_sequence = recv_sequence;
                })

  unfoldable pub save_receipts : ℕ → ℤ → Bytes → List J.Value → Exec Writer (Unit {0})
  save_receipts trx_seq block_num block_time [] = pure tt
  save_receipts trx_seq block_num block_time (item ∷ items) =
      let rest = save_receipts trx_seq block_num block_time items in
      (do
        r ← from_outcome (read_receipt trx_seq block_num block_time item)
        modify (push_receipt r)
        rest)

  -- The body of saveTrace under `if (!noTraces)`.
  unfoldable pub save_rows : ℕ → ℤ → Bytes → J.Value → Bytes → Exec Writer (Unit {0})
  save_rows trx_seq block_num block_time trace json_str = do
    id ← from_outcome (string_at trace "id")
    modify (
        push_transaction (record {
          seq = trx_seq;
          block_num = block_num;
          block_time = block_time;
          trx_id = id;
          trace = json_str;
        }))
    items ← from_outcome (array_at trace "action_traces")
    save_receipts trx_seq block_num block_time items

  -- Writer::saveTrace
  unfoldable pub save_trace : ℕ → ℤ → Bytes → J.Value → Bytes → Exec Writer (Unit {0})
  save_trace trx_seq block_num block_time trace json_str w =
      if w.no_traces then pure tt w else save_rows trx_seq block_num block_time trace json_str w

-- The statements that sendTracesBatch executes, and the three clear() calls at its end. A batch
-- that is empty is not executed, which leaves its table as it was.
unfoldable pub write_queues : Writer → Writer
write_queues w = record w {
  working = record w.working {
    transactions = insert_traces w.working.transactions w.insert_transactions;
    receipts = insert_receipts w.working.receipts w.insert_receipts;
    recv_sequence_max = upsert_recv_seqs w.working.recv_sequence_max w.upsert_recv_seq_max;
  };
  insert_transactions = [];
  insert_receipts = [];
  upsert_recv_seq_max = [];
}

-- if (!insertTransactions.size()) return;
unfoldable pub send_queue : List Transaction → Writer → Writer
send_queue [] w = w
send_queue (t ∷ ts) w = write_queues w

-- Writer::sendTracesBatch: nothing is written while no transaction is queued.
unfoldable pub send_traces_batch : Writer → Writer
unfolding send_queue write_queues
send_traces_batch w = send_queue w.insert_transactions w
