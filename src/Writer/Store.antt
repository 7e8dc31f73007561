-- ===== src/Writer/Store.antt =====
-- A store that writes each trace of a block as it comes, the description of what the queues of
-- prototype/Writer.cpp come to.
use fio_relic.Base.{
  ℕ, List, [], ◌∷◌, ◌++◌, map, true, ◌≡◌, refl, sym, ap, ◌∙◌, Option, none, some, arith,
}
use fio_relic.Base.Int.{ℤ}
use fio_relic.Base.Bytes.{Bytes, codes, same_ignoring_case}
use fio_relic.Base.Exec.{done}
use fio_relic.External.{Rapidjson}
use fio_relic.Tables.{
  Tables, Transaction, Receipt, insert_trace, insert_traces, insert_receipts, upsert_recv_seq,
  upsert_recv_seqs, insert_receipt,
}
use fio_relic.Tables.Rows.{recv_seq_of, recv_seq_of-upsert, or_else}
use fio_relic.Writer.Batch.{string_at, object_at, array_at}
use fio_relic.Writer.Messages.{long_at, get_block_time, trx_seq_of}
use fio_relic.Writer.Queues.{last_recv_seq}
use fio_relic.Writer.Traces.{read_receipts, queued}

-- An executed transaction of block n whose parts and receipts can be read.
pub record TraceMessage (J : Rapidjson) (n : ℤ) : Type 0 where
  pub json : J.Value
  pub text : Bytes
  pub trace : J.Value
  pub first : J.Value
  pub others : List J.Value
  pub status : Bytes
  pub id : Bytes
  pub time : Bytes
  pub seq : ℕ
  pub receipts : List Receipt
  pub has_block : long_at J json "block_num" ≡ done n
  pub has_trace : object_at J json "trace" ≡ done trace
  pub has_status : string_at J trace "status" ≡ done status
  pub executed : same_ignoring_case status (codes "executed") ≡ true
  pub has_items : array_at J trace "action_traces" ≡ done (first ∷ others)
  pub has_time : get_block_time J json ≡ done time
  pub has_seq : trx_seq_of J first ≡ done seq
  pub has_id : string_at J trace "id" ≡ done id
  pub has_receipts : read_receipts J seq n time (first ∷ others) ≡ done receipts

abbrev pub entry : Receipt → Bytes × ℤ
entry r = (r.receiver, r.recv_sequence)

-- The same rows, and the same number for each account.
pub record Agrees (t u : Tables) : Type 0 where
  pub transactions : t.transactions ≡ u.transactions
  pub receipts : t.receipts ≡ u.receipts
  pub sequences :
      (account : Bytes)
      → recv_seq_of account t.recv_sequence_max ≡ recv_seq_of account u.recv_sequence_max
  pub others : (t.sync ≡ u.sync) × (t.bkp_traces ≡ u.bkp_traces)

pub Agrees-refl : (t : Tables) → Agrees t t
Agrees-refl t = record {
  transactions = refl;
  receipts = refl;
  sequences = λ account. refl;
  others = (refl, refl);
}

pub Agrees-trans : (t u v : Tables) → Agrees t u → Agrees u v → Agrees t v
Agrees-trans t u v a b = record {
  transactions = a.transactions ∙ b.transactions;
  receipts = a.receipts ∙ b.receipts;
  sequences = λ account. a.sequences account ∙ b.sequences account;
  others = (a.others.0 ∙ b.others.0, a.others.1 ∙ b.others.1);
}

pub or_else_assoc : (a b c : Option ℤ) → or_else (or_else a b) c ≡ or_else a (or_else b c)
or_else_assoc none b c = refl
or_else_assoc (some x) b c = refl

pub insert_receipts-append :
    (rows xs ys : List Receipt)
    → insert_receipts rows (xs ++ ys) ≡ insert_receipts (insert_receipts rows xs) ys
unfolding insert_receipts
insert_receipts-append rows [] ys = refl
insert_receipts-append rows (x ∷ xs) ys = insert_receipts-append (insert_receipt rows x) xs ys

or_else-none : (a : Option ℤ) → a ≡ or_else a none
or_else-none none = refl
or_else-none (some n) = refl

pub last_recv_seq-++ :
    (account : Bytes) (xs ys : List Receipt)
    → last_recv_seq account (xs ++ ys)
      ≡ or_else (last_recv_seq account ys) (last_recv_seq account xs)
unfolding last_recv_seq
last_recv_seq-++ account [] ys = or_else-none (last_recv_seq account ys)
last_recv_seq-++ account (x ∷ xs) ys =
    rw (last_recv_seq-++ account xs ys) (or_else_assoc (last_recv_seq account ys) _ _)

recv_seq_of-entries :
    (account : Bytes) (rs : List Receipt) (rows : List (Bytes × ℤ))
    → recv_seq_of account (upsert_recv_seqs rows (map entry rs))
      ≡ or_else (last_recv_seq account rs) (recv_seq_of account rows)
unfolding upsert_recv_seqs last_recv_seq
recv_seq_of-entries account [] rows = refl
recv_seq_of-entries account (r ∷ rs) rows =
    rw
      (
        recv_seq_of-entries account rs (upsert_recv_seq rows (entry r)),
        recv_seq_of-upsert account rows r.receiver r.recv_sequence,
      )
      (ground arith)

module _ {J : Rapidjson} {n : ℤ} where
  -- The row of TRANSACTIONS that a message describes.
  abbrev pub row : TraceMessage J n → Transaction
  row m = queued m.seq n m.time m.id m.text

  -- A store that writes a message at once.
  abbrev pub write_trace : TraceMessage J n → Tables → Tables
  write_trace m t = record t {
    transactions = insert_trace t.transactions (row m);
    receipts = insert_receipts t.receipts m.receipts;
    recv_sequence_max = upsert_recv_seqs t.recv_sequence_max (map entry m.receipts);
  }

  unfoldable pub write_all : List (TraceMessage J n) → Tables → Tables
  write_all [] t = t
  write_all (m ∷ ms) t = write_all ms (write_trace m t)

  unfoldable pub receipts_of : List (TraceMessage J n) → List Receipt
  receipts_of [] = []
  receipts_of (m ∷ ms) = m.receipts ++ receipts_of ms

  pub write_all-transactions :
      (ms : List (TraceMessage J n)) (t : Tables)
      → (write_all ms t).transactions ≡ insert_traces t.transactions (map row ms)
  unfolding write_all insert_traces
  write_all-transactions [] t = refl
  write_all-transactions (m ∷ ms) t = write_all-transactions ms (write_trace m t)

  pub write_all-receipts :
      (ms : List (TraceMessage J n)) (t : Tables)
      → (write_all ms t).receipts ≡ insert_receipts t.receipts (receipts_of ms)
  unfolding write_all insert_receipts receipts_of
  write_all-receipts [] t = refl
  write_all-receipts (m ∷ ms) t =
      write_all-receipts ms (write_trace m t)
      ∙ sym (insert_receipts-append t.receipts m.receipts (receipts_of ms))

  pub write_all-sequences :
      (account : Bytes) (ms : List (TraceMessage J n)) (t : Tables)
      → recv_seq_of account (write_all ms t).recv_sequence_max
        ≡ or_else (last_recv_seq account (receipts_of ms)) (recv_seq_of account t.recv_sequence_max)
  unfolding write_all receipts_of last_recv_seq
  write_all-sequences account [] t = refl
  write_all-sequences account (m ∷ ms) t =
      rw
        (
          write_all-sequences account ms (write_trace m t),
          recv_seq_of-entries account m.receipts t.recv_sequence_max,
          last_recv_seq-++ account m.receipts (receipts_of ms),
        )
        (sym (or_else_assoc (last_recv_seq account (receipts_of ms)) _ _))

  pub write_all-others :
      (ms : List (TraceMessage J n)) (t : Tables)
      → ((write_all ms t).sync ≡ t.sync) × ((write_all ms t).bkp_traces ≡ t.bkp_traces)
  unfolding write_all
  write_all-others [] t = (refl, refl)
  write_all-others (m ∷ ms) t = write_all-others ms (write_trace m t)

  pub write_all-Agrees :
      (ms : List (TraceMessage J n)) (t u : Tables)
      → Agrees t u
      → Agrees (write_all ms t) (write_all ms u)
  write_all-Agrees ms t u a = record {
    transactions =
        write_all-transactions ms t
        ∙ ap (λ (l : List Transaction). insert_traces l (map row ms)) a.transactions
        ∙ sym (write_all-transactions ms u);
    receipts =
        write_all-receipts ms t
        ∙ ap (λ (l : List Receipt). insert_receipts l (receipts_of ms)) a.receipts
        ∙ sym (write_all-receipts ms u);
    sequences = λ account.
        write_all-sequences account ms t
        ∙ ap (or_else (last_recv_seq account (receipts_of ms))) (a.sequences account)
        ∙ sym (write_all-sequences account ms u);
    others = (
      (write_all-others ms t).0 ∙ a.others.0 ∙ sym (write_all-others ms u).0,
      (write_all-others ms t).1 ∙ a.others.1 ∙ sym (write_all-others ms u).1,
    );
  }
