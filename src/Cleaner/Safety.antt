-- ===== src/Cleaner/Safety.antt =====
-- What a round of Cleaner::Run never deletes (prototype/Cleaner.cpp).
use fio_relic.Base.{
  ℕ, zero, suc, Bool, true, false, Option, none, some, ◌≡◌, refl, ◌∙◌, arith, Bool-cases, inl, inr,
  if◌then◌else◌,
}
use fio_relic.Base.Int.{ℤ, pos, ◌+ℤ◌, ◌-ℤ◌, ◌≤ℤ◌, ltb_ℤ, leb_ℤ, ltb_ℤ→le, to_int32}
use fio_relic.Base.Exec.{Outcome, thrown, sql_error}
use fio_relic.External.{GetInt}
use fio_relic.Tables.{Tables, prune_traces, prune_receipts, min_block, min_irreversible}
use fio_relic.Tables.Rows.{prune_traces-prune_traces, prune_receipts-prune_receipts}
use fio_relic.Cleaner.{
  Cleaner, Statements, delete_below, next_bound, prune_loop, prune_from, prune_round,
  see_irreversible, check_round,
}

-- From block n on, TRANSACTIONS and RECEIPTS hold the same rows in both.
abbrev pub KeepsFrom : ℤ → Tables → Tables → Type 0
KeepsFrom n t t' =
    (prune_traces n t'.transactions ≡ prune_traces n t.transactions)
    × (prune_receipts n t'.receipts ≡ prune_receipts n t.receipts)

KeepsFrom-refl : (n : ℤ) (t : Tables) → KeepsFrom n t t
KeepsFrom-refl n t = (refl, refl)

-- A batch below the goal keeps what lies from the goal on.
KeepsFrom-delete_below :
    (bound n : ℤ) (t t' : Tables)
    → bound ≤ℤ n
    → KeepsFrom n (delete_below bound t) t'
    → KeepsFrom n t t'
unfolding delete_below
KeepsFrom-delete_below bound n t t' h k = (
  k.0 ∙ prune_traces-prune_traces bound n t.transactions h,
  k.1 ∙ prune_receipts-prune_receipts bound n t.receipts h,
)

-- The bound of a batch is never above the goal, even if the sum overflows.
next_bound-le : (from upto : ℤ) → next_bound from upto ≤ℤ upto
unfolding next_bound
next_bound-le from upto = elim (Bool-cases (ltb_ℤ upto (to_int32 (from +ℤ pos 10)))) [
  | inl clamped ↦ rw clamped (omega arith)
  | inr below ↦ rw below (omega (arith, ltb_ℤ→le upto (to_int32 (from +ℤ pos 10)) below))
]

prune_loop-KeepsFrom :
    (deletes : ℤ → Bool) (rounds : ℕ) (from upto : ℤ) (t : Tables)
    → KeepsFrom upto t (prune_loop deletes rounds from upto t).1
unfolding prune_loop
prune_loop-KeepsFrom deletes zero from upto t = KeepsFrom-refl upto t
prune_loop-KeepsFrom deletes (suc rounds) from upto t =
    let bound = next_bound from upto in
    elim (Bool-cases (ltb_ℤ from upto)) [
      | inr reached ↦ rw reached (KeepsFrom-refl upto t)
      | inl more ↦ elim (Bool-cases (deletes bound)) [
        | inr failed ↦ rw (more, failed) (KeepsFrom-refl upto t)
        | inl deleted ↦
            rw (more, deleted)
              (KeepsFrom-delete_below bound upto t
                (prune_loop deletes rounds bound upto (delete_below bound t)).1
                (next_bound-le from upto)
                (prune_loop-KeepsFrom deletes rounds bound upto (delete_below bound t)))
      ]
    ]

-- What a round that was at `c` has done, however it ended.
abbrev pub IsSafe : Cleaner → Cleaner → Type 0
IsSafe c c' =
    (c.last_irrev ≤ℤ c'.last_irrev)
    × KeepsFrom (to_int32 (c'.last_irrev -ℤ c.keep_blocks)) c.tables c'.tables

module _ (get_int : GetInt) (s : Statements) where
  IsSafe-same : (c : Cleaner) → IsSafe c c
  IsSafe-same c = (omega arith, KeepsFrom-refl _ c.tables)

  prune_round-IsSafe :
      (c : Cleaner) (m : ℤ)
      → c.last_irrev ≤ℤ m
      → IsSafe c (prune_round get_int s (record c { last_irrev = m })).1
  unfolding prune_round prune_from
  prune_round-IsSafe c m above = read s.first_block (get_int (min_block c.tables.transactions))
    where
      read :
          (queried : Bool) (answer : Option ℤ)
          → let x : Outcome (Unit {0}) × Cleaner =
              if queried
              then elim answer [
                | none ↦ (thrown sql_error, record c { last_irrev = m })
                | some from ↦
                    prune_from get_int s from
                      (to_int32 (m -ℤ c.keep_blocks))
                      (record c { last_irrev = m })
              ]
              else (thrown sql_error, record c { last_irrev = m }) in
            IsSafe c x.1
      read false answer = (above, KeepsFrom-refl _ c.tables)
      read true none = (above, KeepsFrom-refl _ c.tables)
      read true (some from) =
          (above, prune_loop-KeepsFrom s.deletes _ from (to_int32 (m -ℤ c.keep_blocks)) c.tables)

  see_irreversible-IsSafe : (m : ℤ) (c : Cleaner) → IsSafe c (see_irreversible get_int s m c).1
  unfolding see_irreversible
  see_irreversible-IsSafe m c = elim (Bool-cases (leb_ℤ m c.last_irrev)) [
    | inl still ↦ rw still (IsSafe-same c)
    | inr moved ↦ rw moved (prune_round-IsSafe c m (ground arith))
  ]

  -- Whatever the tables hold, whatever getInt answers or throws, whichever statement fails and
  -- whichever sum overflows: a round, however it ends, never moves the irreversible block that the
  -- cleaner knows back, and deletes no row of TRANSACTIONS or RECEIPTS from the block on that lies
  -- keep_blocks, as an int, below it.
  pub check_round_safe :
      (c : Cleaner)
      → let c' = (check_round get_int s c).1 in
        (c.last_irrev ≤ℤ c'.last_irrev)
        × KeepsFrom (to_int32 (c'.last_irrev -ℤ c.keep_blocks)) c.tables c'.tables
  unfolding check_round
  check_round_safe c = read s.irreversible (get_int (min_irreversible c.tables.sync))
    where
      read :
          (queried : Bool) (answer : Option ℤ)
          → let x : Outcome (Unit {0}) × Cleaner =
              if queried
              then elim answer [
                | none ↦ (thrown sql_error, c)
                | some m ↦ see_irreversible get_int s m c
              ]
              else (thrown sql_error, c) in
            IsSafe c x.1
      read false answer = IsSafe-same c
      read true none = IsSafe-same c
      read true (some m) = see_irreversible-IsSafe m c
