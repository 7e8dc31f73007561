-- ===== src/Cleaner/Prune.antt =====
-- The while loop of Cleaner::Run (prototype/Cleaner.cpp): it ends, and its batches delete what one
-- statement would; and what a round leaves.
use fio_relic.Base.{
  ℕ, zero, suc, Bool, true, ◌<◌, ◌≡◌, ap, ◌∙◌, if◌then◌else◌, arith, Bool-cases, inl, inr,
}
use fio_relic.Base.Int.{
  ℤ, pos, pos_part, ◌+ℤ◌, ◌-ℤ◌, ◌≤ℤ◌, ◌<ℤ◌, ltb_ℤ, +ℤ_parts, eq_of_parts, ltb_ℤ→lt, ltb_ℤ→le,
  FitsInt32, to_int32-fits,
}
use fio_relic.Base.Exec.{done}
use fio_relic.Tables.{Tables}
use fio_relic.Tables.Rows.{prune_traces-prune_traces, prune_receipts-prune_receipts}
use fio_relic.Cleaner.{delete_below, next_bound, prune_loop}

delete_below-delete_below :
    (m n : ℤ) (t : Tables) → m ≤ℤ n → delete_below n (delete_below m t) ≡ delete_below n t
unfolding delete_below
delete_below-delete_below m n t h = λ i. record t {
  transactions = prune_traces-prune_traces m n t.transactions h i;
  receipts = prune_receipts-prune_receipts m n t.receipts h i;
}

-- Ten blocks more fit an int, if nine more than the goal do.
sum_fits :
    (from upto : ℤ)
    → FitsInt32 from
    → FitsInt32 (upto +ℤ pos 9)
    → from <ℤ upto
    → FitsInt32 (from +ℤ pos 10)
sum_fits from upto f u h = (
  omega (arith, f.0, +ℤ_parts from (pos 10)),
  omega (arith, u.1, +ℤ_parts from (pos 10), +ℤ_parts upto (pos 9)),
)

-- A bound that is not above the goal and not below what fits, fits too.
between_fits :
    (from bound upto : ℤ)
    → FitsInt32 from
    → FitsInt32 (upto +ℤ pos 9)
    → from <ℤ bound
    → bound ≤ℤ upto
    → FitsInt32 bound
between_fits from bound upto f u h k =
    (omega (arith, f.0), omega (arith, u.1, +ℤ_parts upto (pos 9)))

-- Where no sum overflows, the bound of a batch lies above where it starts, by at most ten, and not
-- above the goal.
next_bound_bounds :
    (from upto : ℤ)
    → FitsInt32 from
    → FitsInt32 (upto +ℤ pos 9)
    → from <ℤ upto
    → (from <ℤ next_bound from upto)
      × (next_bound from upto ≤ℤ upto)
      × (next_bound from upto ≤ℤ from +ℤ pos 10)
unfolding next_bound
next_bound_bounds from upto f u h =
    rw (to_int32-fits (from +ℤ pos 10) (sum_fits from upto f u h))
      (ground (arith, +ℤ_parts from (pos 10)))

-- What the loop is to do: one deletion below the goal, if it is not reached.
abbrev pub pruned : ℤ → ℤ → Tables → Tables
pruned from upto t = if ltb_ℤ from upto then delete_below upto t else t

pruned-after_batch :
    (bound upto : ℤ) (t : Tables)
    → bound ≤ℤ upto
    → pruned bound upto (delete_below bound t) ≡ delete_below upto t
pruned-after_batch bound upto t h = elim (Bool-cases (ltb_ℤ bound upto)) [
  | inl more ↦ rw more (delete_below-delete_below bound upto t h)
  | inr last ↦
      let same : bound ≡ upto = eq_of_parts bound upto (omega (arith, ltb_ℤ→le bound upto last)) in
      rw last (ap (λ (b : ℤ). delete_below b t) same)
]

remaining_shrinks :
    (a b upto : ℤ) → a <ℤ b → a <ℤ upto → pos_part (upto -ℤ b) < pos_part (upto -ℤ a)
unfolding ◌-ℤ◌
remaining_shrinks a b upto h k = ground arith

-- Where the statements succeed, and minBlock and nine blocks more than the goal fit an int, so that no
-- sum overflows: with more rounds than blocks to go the loop ends, and its batches of ten blocks leave
-- exactly what one deletion below the goal leaves; if the goal is reached already it deletes nothing.
pub prune_loop_lem :
    (deletes : ℤ → Bool) (rounds : ℕ) (from upto : ℤ) (t : Tables)
    → ((bound : ℤ) → deletes bound ≡ true)
    → FitsInt32 from
    → FitsInt32 (upto +ℤ pos 9)
    → pos_part (upto -ℤ from) < rounds
    → prune_loop deletes rounds from upto t ≡ (done tt, pruned from upto t)
unfolding prune_loop
prune_loop_lem deletes zero from upto t all f u h = absurd (omega arith)
prune_loop_lem deletes (suc rounds) from upto t all f u h = elim (Bool-cases (ltb_ℤ from upto)) [
  | inl more ↦
      let bound = next_bound from upto in
      let inside = next_bound_bounds from upto f u (ltb_ℤ→lt from upto more) in
      rw (more, all bound)
        (prune_loop_lem deletes rounds bound upto (delete_below bound t) all
            (between_fits from bound upto f u inside.0 inside.1) u
            (omega (arith, remaining_shrinks from bound upto inside.0 (ltb_ℤ→lt from upto more), h))
          ∙ ap (λ (s : Tables). (done tt, s)) (pruned-after_batch bound upto t inside.1))
  | inr reached ↦ rw reached
]
