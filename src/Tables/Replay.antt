-- ===== src/Tables/Replay.antt =====
-- The insertions of Tables repeated: rows whose keys are held are ignored.
use fio_relic.Base.{
  ◌≡◌, refl, List, [], ◌∷◌, Bool, true, arith, any, any-append, All, All-map, Bool-cases, inl, inr,
  ==_refl,
}
use fio_relic.Base.Int.{ℤ, eqb_ℤ}
use fio_relic.Base.Bytes.{bytes_eq_refl}
use fio_relic.Tables.{
  Trace, Receipt, insert_trace, insert_traces, insert_receipt, insert_receipts, same_receipt,
}
use fio_relic.Tables.Rows.{has_seq, has_seq-insert_traces}

insert_traces-held :
    (rows ts : List Trace)
    → All (λ (t : Trace). has_seq t.seq rows ≡ true) ts
    → insert_traces rows ts ≡ rows
unfolding insert_traces insert_trace
insert_traces-held rows [] h = refl
insert_traces-held rows (t ∷ ts) h = rw h.0 (insert_traces-held rows ts h.1)

pub self_held : (ts : List Trace) → All (λ (t : Trace). has_seq t.seq ts ≡ true) ts
unfolding any
self_held [] = tt
self_held (t ∷ ts) = (
  ground (arith, ==_refl t.seq),
  All-map (λ (a : Trace). has_seq a.seq ts ≡ true) _ (λ a h. ground arith) ts (self_held ts),
)

-- A batch that was inserted is ignored the second time.
pub insert_traces-replay :
    (rows ts : List Trace) → insert_traces (insert_traces rows ts) ts ≡ insert_traces rows ts
insert_traces-replay rows ts = insert_traces-held (insert_traces rows ts) ts (
    All-map (λ (a : Trace). has_seq a.seq ts ≡ true) _
      (λ a h. ground (arith, has_seq-insert_traces rows ts a.seq)) ts (self_held ts))

abbrev has_receipt : Receipt → List Receipt → Bool
has_receipt t = any λ r. same_receipt r t

eqb_ℤ_refl : (n : ℤ) → eqb_ℤ n n ≡ true
eqb_ℤ_refl n = ground arith

same_receipt_refl : (r : Receipt) → same_receipt r r ≡ true
same_receipt_refl r = rw (
  bytes_eq_refl r.receiver,
  bytes_eq_refl r.contract,
  bytes_eq_refl r.action,
  eqb_ℤ_refl r.recv_sequence,
  ==_refl r.seq,
)

has_receipt-one : (t r : Receipt) → has_receipt t (r ∷ []) ≡ same_receipt r t
unfolding any
has_receipt-one t r = ground arith

insert_receipt-holds :
    (rows : List Receipt) (t : Receipt) → has_receipt t (insert_receipt rows t) ≡ true
unfolding insert_receipt
insert_receipt-holds rows t = elim (Bool-cases (has_receipt t rows)) [
  | inl held ↦ rw held held
  | inr new ↦
      rw
        (
          new,
          any-append (λ (r : Receipt). same_receipt r t) rows (t ∷ []),
          has_receipt-one t t,
          same_receipt_refl t,
        )
        (ground arith)
]

insert_receipt-still :
    (rows : List Receipt) (t r : Receipt)
    → has_receipt r rows ≡ true
    → has_receipt r (insert_receipt rows t) ≡ true
unfolding insert_receipt
insert_receipt-still rows t r h = elim (Bool-cases (has_receipt t rows)) [
  | inl held ↦ rw held h
  | inr new ↦ rw (new, any-append (λ (x : Receipt). same_receipt x r) rows (t ∷ []), h)
]

insert_receipts-still :
    (rows ts : List Receipt) (r : Receipt)
    → has_receipt r rows ≡ true
    → has_receipt r (insert_receipts rows ts) ≡ true
unfolding insert_receipts
insert_receipts-still rows [] r h = h
insert_receipts-still rows (t ∷ ts) r h =
    insert_receipts-still (insert_receipt rows t) ts r (insert_receipt-still rows t r h)

insert_receipts-hold :
    (rows ts : List Receipt)
    → All (λ (t : Receipt). has_receipt t (insert_receipts rows ts) ≡ true) ts
unfolding insert_receipts
insert_receipts-hold rows [] = tt
insert_receipts-hold rows (t ∷ ts) = (
  insert_receipts-still (insert_receipt rows t) ts t (insert_receipt-holds rows t),
  insert_receipts-hold (insert_receipt rows t) ts,
)

insert_receipts-held :
    (rows ts : List Receipt)
    → All (λ (t : Receipt). has_receipt t rows ≡ true) ts
    → insert_receipts rows ts ≡ rows
unfolding insert_receipts insert_receipt
insert_receipts-held rows [] h = refl
insert_receipts-held rows (t ∷ ts) h = rw h.0 (insert_receipts-held rows ts h.1)

pub insert_receipts-replay :
    (rows ts : List Receipt)
    → insert_receipts (insert_receipts rows ts) ts ≡ insert_receipts rows ts
insert_receipts-replay rows ts =
    insert_receipts-held (insert_receipts rows ts) ts (insert_receipts-hold rows ts)
