-- ===== src/Tables/Rows.antt =====
-- Laws of the statements of Tables: which rows they leave, and in what order they may run.
use mathlib.Core.List.{append-nil, append_assoc}
use fio_relic.Base.{
  ℕ, ◌≡◌, refl, sym, ap, ◌∙◌, List, [], ◌∷◌, ◌++◌, Bool, ◌||◌, arith, if◌then◌else◌, ◌==◌, any,
  any-append, All, All-keep_if, keep_if-keep_if, Bool-cases, inl, inr, Option, none, some,
}
use fio_relic.Base.Int.{ℤ, ◌≤ℤ◌, ◌<ℤ◌, ltb_ℤ→lt}
use fio_relic.Base.Bytes.{Bytes, bytes_eq, bytes_eq→eq, bytes_eq_refl}
use fio_relic.Tables.{
  Trace, Receipt, insert_trace, insert_traces, upsert_recv_seq, upsert_recv_seqs,
  delete_traces_from, delete_receipts_from, prune_traces, prune_receipts, from_block,
}

-- A statement that deletes from a block on leaves rows below it only.
pub delete_traces_from-All :
    (n : ℤ) (rows : List Trace) → All (λ r. r.block_num <ℤ n) (delete_traces_from n rows)
unfolding delete_traces_from
delete_traces_from-All n rows =
    All-keep_if (λ r. r.block_num <ℤ n) _ rows (λ r. ltb_ℤ→lt r.block_num n)

pub delete_receipts_from-All :
    (n : ℤ) (rows : List Receipt) → All (λ r. r.block_num <ℤ n) (delete_receipts_from n rows)
unfolding delete_receipts_from
delete_receipts_from-All n rows =
    All-keep_if (λ r. r.block_num <ℤ n) _ rows (λ r. ltb_ℤ→lt r.block_num n)

-- Pruning to a block and then to a later one is pruning to the later one.
pub prune_traces-prune_traces :
    (m n : ℤ) (rows : List Trace)
    → m ≤ℤ n
    → prune_traces n (prune_traces m rows) ≡ prune_traces n rows
unfolding prune_traces
prune_traces-prune_traces m n rows h =
    keep_if-keep_if (λ r. from_block m r.block_num) (λ r. from_block n r.block_num) rows
      (λ r q. ground arith)

pub prune_receipts-prune_receipts :
    (m n : ℤ) (rows : List Receipt)
    → m ≤ℤ n
    → prune_receipts n (prune_receipts m rows) ≡ prune_receipts n rows
unfolding prune_receipts
prune_receipts-prune_receipts m n rows h =
    keep_if-keep_if (λ r. from_block m r.block_num) (λ r. from_block n r.block_num) rows
      (λ r q. ground arith)

abbrev pub has_seq : ℕ → List Trace → Bool
has_seq seq = any λ r. r.seq == seq

any-one : (t : Trace) (seq : ℕ) → has_seq seq (t ∷ []) ≡ (t.seq == seq)
unfolding any
any-one t seq = ground arith

-- After an insertion the table holds the key, and every key that it held.
pub has_seq-insert_trace :
    (rows : List Trace) (t : Trace) (seq : ℕ)
    → has_seq seq (insert_trace rows t) ≡ (has_seq seq rows || t.seq == seq)
unfolding insert_trace
has_seq-insert_trace rows t seq = elim (Bool-cases (has_seq t.seq rows)) [
  | inl held ↦ ground (arith, ap (λ (n : ℕ). has_seq n rows) {x = t.seq} {y = seq})
  | inr new ↦ ground (arith, any-append (λ (r : Trace). r.seq == seq) rows (t ∷ []), any-one t seq)
]

pub has_seq-insert_traces :
    (rows ts : List Trace) (seq : ℕ)
    → has_seq seq (insert_traces rows ts) ≡ (has_seq seq rows || has_seq seq ts)
unfolding insert_traces any
has_seq-insert_traces rows [] seq = ground arith
has_seq-insert_traces rows (t ∷ ts) seq =
    ground
      (arith, has_seq-insert_traces (insert_trace rows t) ts seq, has_seq-insert_trace rows t seq)

-- The value that a table holds for an account.
unfoldable pub recv_seq_of : Bytes → List (Bytes × ℤ) → Option ℤ
recv_seq_of account [] = none
recv_seq_of account ((name, n) ∷ rows) =
    if bytes_eq name account then some n else recv_seq_of account rows

pub recv_seq_of-upsert :
    (account : Bytes) (rows : List (Bytes × ℤ)) (name : Bytes) (n : ℤ)
    → recv_seq_of account (upsert_recv_seq rows (name, n))
      ≡ (if bytes_eq name account then some n else recv_seq_of account rows)
unfolding recv_seq_of upsert_recv_seq
recv_seq_of-upsert account [] name n = refl
recv_seq_of-upsert account ((other, m) ∷ rows) name n = elim (Bool-cases (bytes_eq other name)) [
  | inl same ↦ rw (bytes_eq→eq other name same, bytes_eq_refl name) (ground arith)
  | inr differ ↦ rw differ (
      ground (
        arith,
        recv_seq_of-upsert account rows name n,
        bytes_eq→eq other account,
        bytes_eq→eq name account,
        bytes_eq_refl account,
      ))
]

-- No account has two entries.
abbrev pub HasDistinctKeys : List (Bytes × ℤ) → Type 0
HasDistinctKeys [] = Unit {0}
HasDistinctKeys ((name, n) ∷ rows) = (recv_seq_of name rows ≡ none) × HasDistinctKeys rows

pub upsert-HasDistinctKeys :
    (rows : List (Bytes × ℤ)) (name : Bytes) (n : ℤ)
    → HasDistinctKeys rows
    → HasDistinctKeys (upsert_recv_seq rows (name, n))
unfolding upsert_recv_seq recv_seq_of
upsert-HasDistinctKeys [] name n h = (refl, tt)
upsert-HasDistinctKeys ((other, m) ∷ rows) name n h = elim (Bool-cases (bytes_eq other name)) [
  | inl same ↦ rw same (rw (← bytes_eq→eq other name same) h.0, h.1)
  | inr differ ↦ rw differ (
    rw (recv_seq_of-upsert other rows name n)
        (ground (arith, h.0, bytes_eq→eq name other, bytes_eq_refl other)),
    upsert-HasDistinctKeys rows name n h.1,
  )
]

abbrev pub or_else {ℓ} : {A : Type ℓ} → Option A → Option A → Option A
or_else none o = o
or_else (some a) o = some a

-- A batch of upserts with distinct accounts: each account has the batch's value, or else its own.
pub recv_seq_of-upsert_recv_seqs :
    (account : Bytes) (rows es : List (Bytes × ℤ))
    → HasDistinctKeys es
    → recv_seq_of account (upsert_recv_seqs rows es)
      ≡ or_else (recv_seq_of account es) (recv_seq_of account rows)
unfolding upsert_recv_seqs recv_seq_of
recv_seq_of-upsert_recv_seqs account rows [] h = refl
recv_seq_of-upsert_recv_seqs account rows ((name, n) ∷ es) h =
    let step = recv_seq_of-upsert account rows name n in
    let rest = recv_seq_of-upsert_recv_seqs account (upsert_recv_seq rows (name, n)) es h.1 in
    ground (
      arith,
      step,
      rest,
      h.0,
      bytes_eq→eq name account,
      ap (λ (b : Bytes). recv_seq_of b es) {x = name} {y = account},
    )

-- Inserting only adds rows at the end: those of the batch whose keys are new.
unfoldable pub added_traces : List Trace → List Trace → List Trace
added_traces rows [] = []
added_traces rows (t ∷ ts) =
    if has_seq t.seq rows then added_traces rows ts else t ∷ added_traces (insert_trace rows t) ts

pub insert_traces-append :
    (rows ts : List Trace) → insert_traces rows ts ≡ rows ++ added_traces rows ts
unfolding insert_traces insert_trace added_traces
insert_traces-append rows [] = sym (append-nil rows)
insert_traces-append rows (t ∷ ts) = elim (Bool-cases (has_seq t.seq rows)) [
  | inl held ↦ rw held (insert_traces-append rows ts)
  | inr new ↦ rw new (insert_traces-append (rows ++ t ∷ []) ts ∙ append_assoc rows (t ∷ []) _)
]
