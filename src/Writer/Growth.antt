-- ===== src/Writer/Growth.antt =====
-- How the queues of a master grow while it reads traces (saveTrace of prototype/Writer.cpp).
use mathlib.Core.List.{append-nil, append_assoc}
use fio_relic.Base.{ℕ, List, [], ◌∷◌, ◌++◌, ◌≡◌, refl, sym, ap, ◌∙◌, arith}
use fio_relic.Base.Int.{ℤ}
use fio_relic.Base.Bytes.{Bytes}
use fio_relic.Base.Exec.{Exec, Outcome, done, thrown, and_then, continue}
use fio_relic.External.{Rapidjson}
use fio_relic.Tables.{Transaction, Receipt}
use fio_relic.Writer.State.{Writer}
use fio_relic.Writer.Batch.{push_receipt, push_transaction, read_receipt, save_receipts}
use fio_relic.Writer.Messages.{count_trx}
use fio_relic.Writer.Absorb.{SameLink, SameLink-trans}
use fio_relic.Writer.Traces.{read_receipts}
use fio_relic.Writer.Queues.{IsQueued, IsLoaded, push_receipt-IsLoaded, push_transaction-IsLoaded}

-- The given rows stand behind those queued, and no table and no part of the writer's role changed.
pub record Grew (ts : List Transaction) (rs : List Receipt) (w w' : Writer) : Type 0 where
  pub transactions : w'.insert_transactions ≡ w.insert_transactions ++ ts
  pub receipts : w'.insert_receipts ≡ w.insert_receipts ++ rs
  pub master : w'.i_am_master ≡ w.i_am_master
  pub writes : w'.no_traces ≡ w.no_traces
  pub confirmed : w'.confirmed_block ≡ w.confirmed_block
  pub irreversible : w'.irreversible ≡ w.irreversible
  pub tables : (w'.working ≡ w.working) × (w'.committed ≡ w.committed)
  pub link : SameLink w w'

pub Grew-refl : (w : Writer) → Grew [] [] w w
Grew-refl w = record {
  transactions = sym (append-nil w.insert_transactions);
  receipts = sym (append-nil w.insert_receipts);
  master = refl;
  writes = refl;
  confirmed = refl;
  irreversible = refl;
  tables = (refl, refl);
  link = record { connected = refl; has_websocket = refl; sent = refl; source = refl };
}

pub Grew-trans :
    (ts ts' : List Transaction) (rs rs' : List Receipt) (u v w : Writer)
    → Grew ts rs u v
    → Grew ts' rs' v w
    → Grew (ts ++ ts') (rs ++ rs') u w
Grew-trans ts ts' rs rs' u v w a b = record {
  transactions =
      b.transactions
      ∙ ap (λ (l : List Transaction). l ++ ts') a.transactions
      ∙ append_assoc u.insert_transactions ts ts';
  receipts =
      b.receipts
      ∙ ap (λ (l : List Receipt). l ++ rs') a.receipts
      ∙ append_assoc u.insert_receipts rs rs';
  master = b.master ∙ a.master;
  writes = b.writes ∙ a.writes;
  confirmed = b.confirmed ∙ a.confirmed;
  irreversible = b.irreversible ∙ a.irreversible;
  tables = (b.tables.0 ∙ a.tables.0, b.tables.1 ∙ a.tables.1);
  link = SameLink-trans u v w a.link b.link;
}

Grew-push_receipt : (r : Receipt) (w : Writer) → Grew [] (r ∷ []) w (push_receipt r w)
unfolding push_receipt
Grew-push_receipt r w = record {
  transactions = sym (append-nil w.insert_transactions);
  receipts = refl;
  master = refl;
  writes = refl;
  confirmed = refl;
  irreversible = refl;
  tables = (refl, refl);
  link = record { connected = refl; has_websocket = refl; sent = refl; source = refl };
}

Grew-push_transaction : (t : Transaction) (w : Writer) → Grew (t ∷ []) [] w (push_transaction t w)
unfolding push_transaction
Grew-push_transaction t w = record {
  transactions = refl;
  receipts = sym (append-nil w.insert_receipts);
  master = refl;
  writes = refl;
  confirmed = refl;
  irreversible = refl;
  tables = (refl, refl);
  link = record { connected = refl; has_websocket = refl; sent = refl; source = refl };
}

-- The receipts pushed one by one.
unfoldable pub push_receipts : List Receipt → Writer → Writer
push_receipts [] w = w
push_receipts (r ∷ rs) w = push_receipts rs (push_receipt r w)

push_receipts-Grew : (rs : List Receipt) (w : Writer) → Grew [] rs w (push_receipts rs w)
unfolding push_receipts
push_receipts-Grew [] w = Grew-refl w
push_receipts-Grew (r ∷ rs) w =
    Grew-trans [] [] (r ∷ []) rs w (push_receipt r w) _ (Grew-push_receipt r w)
      (push_receipts-Grew rs (push_receipt r w))

push_receipts-IsLoaded :
    (rs : List Receipt) (w : Writer) → IsLoaded w → IsLoaded (push_receipts rs w)
unfolding push_receipts
push_receipts-IsLoaded [] w l = l
push_receipts-IsLoaded (r ∷ rs) w l =
    push_receipts-IsLoaded rs (push_receipt r w) (push_receipt-IsLoaded r w l)

-- A transaction with its receipts, as saveTrace queues them, and counted.
unfoldable pub push_trace : Transaction → List Receipt → Writer → Writer
push_trace t rs w = count_trx (push_receipts rs (push_transaction t w))

pub push_trace-Grew :
    (t : Transaction) (rs : List Receipt) (w : Writer) → Grew (t ∷ []) rs w (push_trace t rs w)
unfolding push_trace count_trx
push_trace-Grew t rs w =
    let g =
      Grew-trans (t ∷ []) [] [] rs w (push_transaction t w) _ (Grew-push_transaction t w)
        (push_receipts-Grew rs (push_transaction t w)) in
    record {
      transactions = g.transactions;
      receipts = g.receipts;
      master = g.master;
      writes = g.writes;
      confirmed = g.confirmed;
      irreversible = g.irreversible;
      tables = g.tables;
      link = record {
        connected = g.link.connected;
        has_websocket = g.link.has_websocket;
        sent = g.link.sent;
        source = g.link.source;
      };
    }

pub push_trace-IsQueued :
    (t : Transaction) (rs : List Receipt) (w : Writer) → IsQueued w → IsQueued (push_trace t rs w)
unfolding push_trace count_trx
push_trace-IsQueued t rs w q =
    let l = push_receipts-IsLoaded rs (push_transaction t w) (push_transaction-IsLoaded t w q) in
    record {
      indexed = record { distinct = l.indexed.distinct; latest = l.indexed.latest };
      together = λ e. absurd (l.some_trx e);
    }

module _ (J : Rapidjson) (seq : ℕ) (n : ℤ) (time : Bytes) where
  -- Receipts that can be read are pushed, in their order.
  pub save_receipts-push_receipts :
      (items : List J.Value) (rs : List Receipt) (w : Writer)
      → read_receipts J seq n time items ≡ done rs
      → save_receipts J seq n time items w ≡ (done tt, push_receipts rs w)
  unfolding save_receipts read_receipts push_receipts
  save_receipts-push_receipts [] rs w h = let e : rs ≡ [] = cc in rw e refl
  save_receipts-push_receipts (item ∷ items) rs w h =
      pushed (read_receipt J seq n time item) (read_receipts J seq n time items)
        (save_receipts J seq n time items) h
        (λ r l e. save_receipts-push_receipts items l (push_receipt r w) e)
    where
      pushed :
          (o : Outcome Receipt) (q : Outcome (List Receipt)) (rest : Exec Writer (Unit {0}))
          → and_then o (λ r. and_then q (λ l. done (r ∷ l))) ≡ done rs
          → ((r : Receipt) (l : List Receipt)
              → q ≡ done l
              → rest (push_receipt r w) ≡ (done tt, push_receipts l (push_receipt r w)))
          → continue o (λ r v. rest (push_receipt r v)) w ≡ (done tt, push_receipts rs w)
      pushed (thrown e) q rest h k = absurd (ground arith)
      pushed (done r) (thrown e) rest h k = absurd (ground arith)
      pushed (done r) (done l) rest h k = let e : rs ≡ r ∷ l = cc in rw e (k r l refl)
