-- ===== src/Writer/KeptByBlocks.antt =====
-- The rule for block messages (the case 1010 of prototype/Writer.cpp): a property survives them if
-- each change that the case makes keeps it.
use fio_relic.Base.{ℕ}
use fio_relic.Base.Int.{ℤ, negsuc, leb_ℤ, ltb_ℤ, ◌-ℤ◌, to_int32}
use fio_relic.Base.Exec.{Keeps, Outcome, done, thrown, Keeps-bind}
use fio_relic.External.{Rapidjson, ResultSets}
use fio_relic.Writer.State.{Writer, Env}
use fio_relic.Writer.Batch.{string_at}
use fio_relic.Writer.Messages.{long_at, get_block_time}
use fio_relic.Writer.Block.{
  count_block, absorb_block, confirm, reset_counters, report, trx_per_block,
}
use fio_relic.Writer.Takeover.{check_master}
use fio_relic.Writer.{confirm_block, settle_block, block_at, on_block}
use fio_relic.Writer.Rules.{Keeps-then, Keeps-modify, Keeps-if, Keeps-done}

module _ (rs : ResultSets) (J : Rapidjson) (P : Writer → Type 0) where
  -- Each elementary change of the case keeps the property.
  pub record IsKeptByBlocks : Type 0 where
    pub counts_block : (w : Writer) → P w → P (count_block w)
    pub absorbs : (n l : ℤ) (w : Writer) → P w → P (absorb_block n l w)
    pub confirms : (w : Writer) → P w → P (confirm w)
    pub checks : (rounds : ℕ) (n l : ℤ) (env : Env) → Keeps P (check_master rs J rounds n l env)
    pub resets : (now : ℕ) (w : Writer) → P w → P (reset_counters now w)

  module _ (k : IsKeptByBlocks) where
    report_of :
        (now : ℕ) (w : Writer) (o : Outcome ℕ)
        → P w
        → P (
            let r : Outcome ℤ × Writer = elim o [
              | thrown e ↦ (thrown e, w)
              | done figure ↦ (done (to_int32 w.confirmed_block), reset_counters now w)
            ] in
            r.1)
    report_of now w (thrown e) h = h
    report_of now w (done figure) h = k.resets now w h

    report-kept : (now : ℕ) → Keeps P (report now)
    unfolding report
    report-kept now = record { at = λ w h. report_of now w (trx_per_block w) h }

    confirm_block-kept :
        (rounds : ℕ) (env : Env) (n l : ℤ) (json : J.Value)
        → Keeps P (confirm_block rs J rounds env n l json)
    unfolding confirm_block
    confirm_block-kept rounds env n l json = Keeps-then P (string_at J json "block_id") _ (λ id.
        Keeps-modify P confirm _ k.confirms (
          Keeps-bind P (check_master rs J rounds n l env) _ (k.checks rounds n l env)
            (λ _. report-kept env.now)))

    settle_block-kept :
        (rounds : ℕ) (env : Env) (n l : ℤ) (json : J.Value)
        → Keeps P (settle_block rs J rounds env n l json)
    unfolding settle_block
    settle_block-kept rounds env n l json =
        Keeps-if (λ w. leb_ℤ w.unconfirmed_block w.confirmed_block)
          (λ w. (done (to_int32 w.unconfirmed_block), w)) _ (record { at = λ w h. h })
          (Keeps-if (λ w. ltb_ℤ (w.unconfirmed_block -ℤ w.confirmed_block) w.ack_every) _ _
            (Keeps-done (negsuc 0)) (confirm_block-kept rounds env n l json))

    block_at-kept :
        (rounds : ℕ) (env : Env) (n l : ℤ) (json : J.Value)
        → Keeps P (block_at rs J rounds env n l json)
    unfolding block_at
    block_at-kept rounds env n l json = record {
      at = λ w h.
          (settle_block-kept rounds env n l json).at (absorb_block n l w) (k.absorbs n l w h);
    }

    pub on_block-kept :
        (rounds : ℕ) (env : Env) (json : J.Value) → Keeps P (on_block rs J rounds env json)
    unfolding on_block
    on_block-kept rounds env json = Keeps-modify P count_block _ k.counts_block (
        Keeps-then P (get_block_time J json) _ (λ time.
          Keeps-then P (long_at J json "last_irreversible") _ (λ l.
            Keeps-then P (long_at J json "block_num") _ (λ n. block_at-kept rounds env n l json))))
