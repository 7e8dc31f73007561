-- ===== src/Writer/Division.antt =====
-- The faults of a completed block (the case 1010 in prototype/Writer.cpp), the division in its report
-- among them.
use fio_relic.Base.{
  ℕ, zero, suc, ◌≡◌, refl, ap, ◌∙◌, arith, Bool, true, false, Bool-cases, inl, inr,
}
use fio_relic.Base.Int.{ℤ}
use fio_relic.Base.Exec.{Outcome, Fault, division_by_zero, out_of_rounds}
use fio_relic.External.{Rapidjson, ResultSets, IsDocumented}
use fio_relic.Writer.State.{Writer, Env}
use fio_relic.Writer.Batch.{string_at}
use fio_relic.Writer.Messages.{get_block_time, long_at}
use fio_relic.Writer.Block.{absorb_block, confirm, count_block, report}
use fio_relic.Writer.Takeover.{check_master, must_check, collect}
use fio_relic.Writer.{on_block, block_at, settle_block, confirm_block}
use fio_relic.Writer.Absorb.{SameRole-absorb_block}
use fio_relic.Writer.Health.{check_master-due}
use fio_relic.Writer.Progress.{check_master_same}
use fio_relic.Writer.Durable.{report_counted, counted_still}
use fio_relic.Writer.Faults.{
  meets, AreApart, meets-continue, meets-string_at, meets-long_at, meets-get_block_time,
}

-- The rounds are there, or running out of them is not one of the given faults.
abbrev pub IsFueled : (Fault → Bool) → ℕ → Type 0
IsFueled bad zero = bad out_of_rounds ≡ false
IsFueled bad (suc rounds) = Unit {0}

module _ (rs : ResultSets) (J : Rapidjson) (d : IsDocumented rs) (bad : Fault → Bool)
    (apart : AreApart bad) where
  meets-check_master :
      (rounds : ℕ) (n l : ℤ) (env : Env) (w : Writer)
      → IsFueled bad rounds
      → meets bad (check_master rs J rounds n l env w).0 ≡ false
  unfolding check_master collect
  meets-check_master zero n l env w fueled = elim (Bool-cases (must_check n l env.now w)) [
    | inl due ↦ rw due fueled
    | inr not_due ↦ rw not_due refl
  ]
  meets-check_master (suc rounds) n l env w fueled = elim (Bool-cases (must_check n l env.now w)) [
    | inl due ↦ rw (check_master-due rs d J rounds n l env w due) apart.corrupted
    | inr not_due ↦ rw not_due refl
  ]

  meets-report :
      (now k : ℕ) (w : Writer) → w.blocks_counter ≡ suc k → meets bad (report now w).0 ≡ false
  meets-report now k w h = rw (report_counted now k w h) refl

  meets-confirm_block :
      (rounds k : ℕ) (env : Env) (n l : ℤ) (json : J.Value) (w : Writer)
      → IsFueled bad rounds
      → w.blocks_counter ≡ suc k
      → meets bad (confirm_block rs J rounds env n l json w).0 ≡ false
  unfolding confirm_block
  meets-confirm_block rounds k env n l json w fueled h =
      meets-continue bad (string_at J json "block_id") _ w
        (meets-string_at bad apart J json "block_id")
        (λ id.
          meets-continue bad (check_master rs J rounds n l env (confirm w)).0 _
            (check_master rs J rounds n l env (confirm w)).1
            (meets-check_master rounds n l env (confirm w) fueled)
            (λ _. meets-report env.now k _ (
              ap (λ (v : Writer). v.blocks_counter)
                (check_master_same rs J d rounds n l env (confirm w))
              ∙ counted_still k w h)))

  meets-settle_block :
      (rounds k : ℕ) (env : Env) (n l : ℤ) (json : J.Value) (w : Writer)
      → IsFueled bad rounds
      → w.blocks_counter ≡ suc k
      → meets bad (settle_block rs J rounds env n l json w).0 ≡ false
  unfolding settle_block
  meets-settle_block rounds k env n l json w fueled h =
      ground (arith, meets-confirm_block rounds k env n l json w fueled h)

  -- A completed block ends in no fault that is apart from those of its text.
  pub meets-on_block :
      (rounds : ℕ) (env : Env) (json : J.Value) (w : Writer)
      → IsFueled bad rounds
      → meets bad (on_block rs J rounds env json w).0 ≡ false
  unfolding on_block block_at count_block
  meets-on_block rounds env json w fueled =
      meets-continue bad (get_block_time J json) _ (count_block w)
        (meets-get_block_time bad apart J json)
        (λ time.
          meets-continue bad (long_at J json "last_irreversible") _ (count_block w)
            (meets-long_at bad apart J json "last_irreversible")
            (λ l.
              meets-continue bad (long_at J json "block_num") _ (count_block w)
                (meets-long_at bad apart J json "block_num")
                (λ n.
                  meets-settle_block rounds w.blocks_counter env n l json
                    (absorb_block n l (count_block w)) fueled
                    ((SameRole-absorb_block n l (count_block w)).counted ∙ omega arith))))

abbrev pub is_division : Fault → Bool
is_division division_by_zero = true
is_division _ = false

-- The outcome is a division by zero.
abbrev divides : {A : Type 0} → Outcome A → Bool
divides o = meets is_division o

is_division-IsFueled : (rounds : ℕ) → IsFueled is_division rounds
is_division-IsFueled zero = refl
is_division-IsFueled (suc rounds) = tt

-- With a documented result set no completed block ends in a division by zero, whatever the state
-- and the message.
on_block-divides :
    (rs : ResultSets) (J : Rapidjson) (d : IsDocumented rs) (rounds : ℕ) (env : Env)
    (json : J.Value) (w : Writer)
    → divides (on_block rs J rounds env json w).0 ≡ false
on_block-divides rs J d rounds env json w =
    meets-on_block rs J d is_division
      (record { access = refl; number = refl; range = refl; position = refl; corrupted = refl })
      rounds env json w (is_division-IsFueled rounds)
