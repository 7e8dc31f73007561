-- ===== src/Cleaner/Rounds.antt =====
-- What one round of Cleaner::Run leaves (prototype/Cleaner.cpp).
use fio_relic.Base.{
  Option, suc, true, ◌-◌, ◌^◌, ◌≡◌, refl, sym, none, some, List, [], ◌∷◌, arith, All, All-map,
  All-keep_if, keep_if-id, Bool-cases, Option-cases, inl, inr, map,
}
use fio_relic.Base.Int.{
  ℤ, pos, negsuc, pos_part, ◌-ℤ◌, ◌+ℤ◌, +ℤ_parts, ◌≤ℤ◌, ◌<ℤ◌, ltb_ℤ, -ℤ_parts, ltb_ℤ→le, lt→leb_ℤ,
  le→leb_ℤ, FitsInt32, to_int32-fits, leb_ℤ→le,
}
use fio_relic.Base.Exec.{done}
use fio_relic.External.{GetInt, IsDocumentedInt}
use fio_relic.Tables.{
  Tables, Transaction, prune_traces, minimum, min_block, min_irreversible, from_block,
}
use fio_relic.Cleaner.{
  Cleaner, Statements, delete_below, rounds_for, prune_from, prune_round, see_irreversible,
  check_round, new_cleaner,
}
use fio_relic.Cleaner.Prune.{pruned, prune_loop_lem}

-- No row is left without a minimum.
minimum-none : (P : ℤ → Type 0) (xs : List ℤ) → minimum xs ≡ none → All P xs
unfolding minimum
minimum-none P [] h = tt
minimum-none P (x ∷ xs) h = absurd (ground arith)

minimum-le : (m : ℤ) (xs : List ℤ) → minimum xs ≡ some m → All (λ x. m ≤ℤ x) xs
unfolding minimum
minimum-le m [] h = tt
minimum-le m (x ∷ xs) h = elim (Option-cases (minimum xs)) [
  | inl e ↦ (ground arith, minimum-none (λ x. m ≤ℤ x) xs e)
  | inr (k, e) ↦ (
    ground arith,
    All-map (λ x. k ≤ℤ x) (λ x. m ≤ℤ x) (λ y below. ground arith) xs (minimum-le k xs e),
  )
]

All-of-map :
    (P : ℤ → Type 0) (rows : List Transaction)
    → All P (map (λ r. r.block_num) rows)
    → All (λ (r : Transaction). P r.block_num) rows
All-of-map P [] h = tt
All-of-map P (r ∷ rows) h = (h.0, All-of-map P rows h.1)

-- What a documented getInt gives for a value.
abbrev or_zero : Option ℤ → ℤ
or_zero none = pos 0
or_zero (some n) = n

-- The first block as getInt reads it.
abbrev pub first_block : List Transaction → ℤ
first_block rows = or_zero (min_block rows)

-- The block from which the loop starts is not above any row.
start-le :
    (rows : List Transaction) → All (λ (r : Transaction). first_block rows ≤ℤ r.block_num) rows
start-le rows = elim (Option-cases (min_block rows)) [
  | inl e ↦ All-of-map (λ x. first_block rows ≤ℤ x) rows (minimum-none _ _ e)
  | inr (k, e) ↦
      All-of-map (λ x. first_block rows ≤ℤ x) rows (rw (e, first_block) (minimum-le k _ e))
]

pruned-transactions :
    (from upto : ℤ) (t : Tables)
    → All (λ (r : Transaction). from ≤ℤ r.block_num) t.transactions
    → (pruned from upto t).transactions ≡ prune_traces upto t.transactions
unfolding delete_below prune_traces
pruned-transactions from upto t above = elim (Bool-cases (ltb_ℤ from upto)) [
  | inl more ↦ rw more
  | inr reached ↦ rw reached (
      sym (
        keep_if-id (λ r. from_block upto r.block_num) t.transactions
          (All-map (λ (r : Transaction). from ≤ℤ r.block_num) _
            (λ r h. le→leb_ℤ upto r.block_num (omega (arith, ltb_ℤ→le from upto reached)))
            t.transactions above)))
]

pruned-sync : (from upto : ℤ) (t : Tables) → (pruned from upto t).sync ≡ t.sync
unfolding delete_below
pruned-sync from upto t = ground arith

module _ (get_int : GetInt) (documented : IsDocumentedInt get_int) (s : Statements)
    (deleted : (bound : ℤ) → s.deletes bound ≡ true) (queried : s.first_block ≡ true) where
  get_int-first_block :
      (rows : List Transaction)
      → ((k : ℤ) → min_block rows ≡ some k → FitsInt32 k)
      → get_int (min_block rows) ≡ some (first_block rows)
  get_int-first_block rows fits = elim (Option-cases (min_block rows)) [
    | inl e ↦ rw (e, first_block) documented.null
    | inr (k, e) ↦ rw (e, first_block) (documented.fitting k (fits k e))
  ]

  first_block_fits :
      (rows : List Transaction)
      → ((k : ℤ) → min_block rows ≡ some k → FitsInt32 k)
      → FitsInt32 (first_block rows)
  first_block_fits rows fits = elim (Option-cases (min_block rows)) [
    | inl e ↦ rw (e, first_block) (omega arith, omega arith)
    | inr (k, e) ↦ rw (e, first_block) (fits k e)
  ]

  -- The loop of a round does not run out of rounds.
  prune_round_lem :
      (c : Cleaner)
      → ((k : ℤ) → min_block c.tables.transactions ≡ some k → FitsInt32 k)
      → FitsInt32 (c.last_irrev -ℤ c.keep_blocks)
      → FitsInt32 ((c.last_irrev -ℤ c.keep_blocks) +ℤ pos 9)
      → prune_round get_int s c ≡ (
        done tt,
        record c {
          tables =
              pruned (first_block c.tables.transactions) (c.last_irrev -ℤ c.keep_blocks) c.tables;
        },
      )
  unfolding prune_round prune_from rounds_for
  prune_round_lem c fit goal above =
      let upto = c.last_irrev -ℤ c.keep_blocks in
      let from = first_block c.tables.transactions in
      rw
        (
          queried,
          get_int-first_block c.tables.transactions fit,
          to_int32-fits upto goal,
          prune_loop_lem s.deletes (suc (pos_part (upto -ℤ from))) from upto c.tables deleted
              (first_block_fits c.tables.transactions fit) above (omega arith),
        )
        refl

  module _ (asked : s.irreversible ≡ true) where
    module _ (c : Cleaner) (m : ℤ) (irreversible : min_irreversible c.tables.sync ≡ some m)
        (fits : FitsInt32 m) (moved : c.last_irrev <ℤ m)
        (fit : (k : ℤ) → min_block c.tables.transactions ≡ some k → FitsInt32 k)
        (goal : FitsInt32 (m -ℤ c.keep_blocks))
        (above : FitsInt32 ((m -ℤ c.keep_blocks) +ℤ pos 9)) where
      check_round-eq : check_round get_int s c ≡ (
        done tt,
        record c {
          last_irrev = m;
          tables = pruned (first_block c.tables.transactions) (m -ℤ c.keep_blocks) c.tables;
        },
      )
      unfolding check_round see_irreversible
      check_round-eq =
          rw
            (
              asked,
              irreversible,
              documented.fitting m fits,
              lt→leb_ℤ m c.last_irrev moved,
              prune_round_lem (record c { last_irrev = m }) fit goal above,
            )
            refl

      -- A round whose statements succeed, with a documented getInt, that sees the smallest irreversible
      -- block m of SYNC above the one that it knows, where m, the first block of TRANSACTIONS,
      -- m - keep_blocks and nine blocks more than that fit an int, ends normally, remembers m, leaves in
      -- TRANSACTIONS exactly the rows from block m - keep_blocks on, and does not change SYNC.
      pub check_round_lem :
          ((check_round get_int s c).0 ≡ done tt)
          × ((check_round get_int s c).1.last_irrev ≡ m)
          × ((check_round get_int s c).1.tables.transactions
              ≡ prune_traces (m -ℤ c.keep_blocks) c.tables.transactions)
          × ((check_round get_int s c).1.tables.sync ≡ c.tables.sync)
      check_round_lem =
          let upto = m -ℤ c.keep_blocks in
          rw check_round-eq (
            refl,
            refl,
            pruned-transactions (first_block c.tables.transactions) upto c.tables
                (start-le c.tables.transactions),
            pruned-sync (first_block c.tables.transactions) upto c.tables,
          )

    -- A cleaner that was given no number of days keeps no history: after a round whose statements
    -- succeed, with a documented getInt, that sees a smallest irreversible block m above 0, where the
    -- first block of TRANSACTIONS and m + 10 fit an int, every row left in TRANSACTIONS lies above m.
    pub check_round_default :
        (t : Tables) (m : ℤ)
        → min_irreversible t.sync ≡ some m
        → pos 0 <ℤ m
        → m +ℤ pos 10 ≤ℤ pos (2 ^ 31 - 1)
        → ((k : ℤ) → min_block t.transactions ≡ some k → FitsInt32 k)
        → All
            (λ (r : Transaction). m <ℤ r.block_num)
            (check_round get_int s (new_cleaner t)).1.tables.transactions
    unfolding prune_traces
    check_round_default t m irreversible moved small fit =
        let next = -ℤ_parts m (negsuc 0) in
        let sum = +ℤ_parts m (pos 10) in
        let goal = +ℤ_parts (m -ℤ negsuc 0) (pos 9) in
        let left =
          (check_round_lem (new_cleaner t) m irreversible (omega (arith, sum), omega (arith, sum))
            moved fit (omega (arith, sum, next), omega (arith, sum, next))
            (omega (arith, sum, next, goal), omega (arith, sum, next, goal))).2 in
        rw left (
          All-keep_if (λ (r : Transaction). m <ℤ r.block_num) _ t.transactions
            (λ r h. omega (arith, leb_ℤ→le (m -ℤ negsuc 0) r.block_num h, next)))
