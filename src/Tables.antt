-- ===== src/Tables.antt =====
-- The tables that the program reads and writes, with their primary keys
-- (prototype/sql/mysql/Relic_mysql.sql), and one function for each SQL statement that
-- prototype/Writer.cpp and prototype/Cleaner.cpp prepare. A table is the list of its rows. Numbers
-- and texts are stored as given: column widths and collations are not modelled.
pub mod Rows
pub mod Replay
use fio_relic.Base.{
  ℕ, ◌+◌, List, [], ◌∷◌, ◌++◌, map, Bool, not, ◌&&◌, Option, none, some, if◌then◌else◌, ◌==◌,
  keep_if, any,
}
use fio_relic.Base.Int.{ℤ, pos, negsuc, ◌-ℤ◌, ltb_ℤ, leb_ℤ, eqb_ℤ}
use fio_relic.Base.Bytes.{Bytes, bytes_eq}

-- struct Trace and struct Transaction, rows of BKP_TRACES and TRANSACTIONS
pub record Trace : Type 0 where
  pub seq : ℕ
  pub block_num : ℤ
  pub block_time : Bytes
  pub trx_id : Bytes
  pub trace : Bytes

abbrev pub Transaction : Type 0
Transaction = Trace

-- struct Receipt, a row of RECEIPTS
pub record Receipt : Type 0 where
  pub seq : ℕ
  pub block_num : ℤ
  pub block_time : Bytes
  pub contract : Bytes
  pub action : Bytes
  pub receiver : Bytes
  pub recv_sequence : ℤ

-- a row of SYNC; `last_updated` in seconds
pub record SyncRow : Type 0 where
  pub source_id : ℤ
  pub block_num : ℤ
  pub block_time : Bytes
  pub block_id : Bytes
  pub irreversible : ℤ
  pub is_master : ℤ
  pub last_updated : ℕ

pub record Tables : Type 0 where
  pub sync : List SyncRow
  pub transactions : List Transaction
  pub receipts : List Receipt
  pub recv_sequence_max : List (Bytes × ℤ)
  pub bkp_traces : List Trace

-- INSERT IGNORE INTO TRANSACTIONS, INSERT IGNORE INTO BKP_TRACES: the key is seq
unfoldable pub insert_trace : List Trace → Trace → List Trace
insert_trace rows t = if any (λ r. r.seq == t.seq) rows then rows else rows ++ t ∷ []

abbrev pub same_receipt : Receipt → Receipt → Bool
same_receipt a b =
    bytes_eq a.receiver b.receiver
    && bytes_eq a.contract b.contract
    && bytes_eq a.action b.action
    && eqb_ℤ a.recv_sequence b.recv_sequence
    && a.seq == b.seq

-- INSERT IGNORE INTO RECEIPTS: the key is (receiver, contract, action, recv_sequence, seq)
unfoldable pub insert_receipt : List Receipt → Receipt → List Receipt
insert_receipt rows t = if any (λ r. same_receipt r t) rows then rows else rows ++ t ∷ []

-- INSERT INTO RECV_SEQUENCE_MAX … ON DUPLICATE KEY UPDATE: the key is account_name
unfoldable pub upsert_recv_seq : List (Bytes × ℤ) → Bytes × ℤ → List (Bytes × ℤ)
upsert_recv_seq [] entry = entry ∷ []
upsert_recv_seq ((name, n) ∷ rows) (account, m) =
    if bytes_eq name account
    then (account, m) ∷ rows
    else (name, n) ∷ upsert_recv_seq rows (account, m)

-- executeBatch runs the statement once for each addBatch, in order.
unfoldable pub insert_traces : List Trace → List Trace → List Trace
unfolding insert_trace
insert_traces rows [] = rows
insert_traces rows (t ∷ ts) = insert_traces (insert_trace rows t) ts

unfoldable pub insert_receipts : List Receipt → List Receipt → List Receipt
unfolding insert_receipt
insert_receipts rows [] = rows
insert_receipts rows (t ∷ ts) = insert_receipts (insert_receipt rows t) ts

unfoldable pub upsert_recv_seqs : List (Bytes × ℤ) → List (Bytes × ℤ) → List (Bytes × ℤ)
unfolding upsert_recv_seq
upsert_recv_seqs rows [] = rows
upsert_recv_seqs rows (e ∷ es) = upsert_recv_seqs (upsert_recv_seq rows e) es

-- DELETE … WHERE block_num >= n, and DELETE … WHERE block_num < n
abbrev pub before_block : ℤ → ℤ → Bool
before_block n block_num = ltb_ℤ block_num n

abbrev pub from_block : ℤ → ℤ → Bool
from_block n block_num = leb_ℤ n block_num

unfoldable pub delete_traces_from : ℤ → List Trace → List Trace
delete_traces_from n = keep_if λ r. before_block n r.block_num

unfoldable pub delete_receipts_from : ℤ → List Receipt → List Receipt
delete_receipts_from n = keep_if λ r. before_block n r.block_num

unfoldable pub prune_traces : ℤ → List Trace → List Trace
prune_traces n = keep_if λ r. from_block n r.block_num

unfoldable pub prune_receipts : ℤ → List Receipt → List Receipt
prune_receipts n = keep_if λ r. from_block n r.block_num

min_ℤ : ℤ → ℤ → ℤ
min_ℤ a b = if leb_ℤ a b then a else b

-- SELECT MIN(column); none is NULL, the minimum of no rows
unfoldable pub minimum : List ℤ → Option ℤ
unfolding min_ℤ
minimum [] = none
minimum (x ∷ xs) = elim (minimum xs) [ none ↦ some x | some m ↦ some (min_ℤ x m) ]

abbrev pub min_irreversible : List SyncRow → Option ℤ
min_irreversible rows = minimum (map (λ r. r.irreversible) rows)

abbrev pub min_block : List Transaction → Option ℤ
min_block rows = minimum (map (λ r. r.block_num) rows)

-- sth_clean_bkp: no row is below NULL
unfoldable pub clean_bkp : List SyncRow → List Trace → List Trace
clean_bkp sync rows = elim (min_irreversible sync) [ none ↦ rows | some m ↦ prune_traces m rows ]

update_row : (SyncRow → Bool) → (SyncRow → SyncRow) → SyncRow → SyncRow
update_row p f r = if p r then f r else r

abbrev pub has_source : ℤ → SyncRow → Bool
has_source source_id r = eqb_ℤ r.source_id source_id

-- sth_upd_sync_fork
unfoldable pub update_sync_fork : ℤ → ℤ → List SyncRow → List SyncRow
unfolding update_row
update_sync_fork block_num source_id =
    map (update_row (has_source source_id) (λ r. record r { block_num = block_num }))

-- sth_upd_sync1: the others are no masters; sth_upd_sync2: this one is
unfoldable pub demote_others : ℤ → List SyncRow → List SyncRow
unfolding update_row
demote_others source_id =
    map (update_row (λ r. not (has_source source_id r)) (λ r. record r { is_master = pos 0 }))

unfoldable pub promote : ℤ → List SyncRow → List SyncRow
unfolding update_row
promote source_id = map (update_row (has_source source_id) (λ r. record r { is_master = pos 1 }))

-- sth_upd_sync_head, with the time of the statement
unfoldable pub update_sync_head : ℤ → Bytes → Bytes → ℤ → ℤ → ℕ → List SyncRow → List SyncRow
unfolding update_row
update_sync_head block_num block_time block_id irreversible source_id now = map (
    update_row (has_source source_id) (λ r. record r {
      block_num = block_num;
      block_time = block_time;
      block_id = block_id;
      irreversible = irreversible;
      last_updated = now;
    }))
