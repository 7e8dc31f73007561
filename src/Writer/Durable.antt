-- ===== src/Writer/Durable.antt =====
-- A master that confirms a block (the case 1010 of Writer::processData in prototype/Writer.cpp).
use fio_relic.Base.{ℕ, suc, ◌≡◌, refl, ap, ◌∙◌, arith, Bool, true, false, if◌then◌else◌}
use fio_relic.Base.Int.{ℤ, negsuc, ◌-ℤ◌, ◌<ℤ◌, ◌≤ℤ◌, leb_ℤ, ltb_ℤ, lt→leb_ℤ, le→ltb_ℤ, to_int32}
use fio_relic.Base.Bytes.{Bytes}
use fio_relic.Base.Exec.{Outcome, done}
use fio_relic.External.{Rapidjson, ResultSets}
use fio_relic.Tables.{Tables}
use fio_relic.Writer.State.{Writer, Env}
use fio_relic.Writer.Batch.{string_at, send_traces_batch, send_queue, write_queues}
use fio_relic.Writer.Messages.{commit_now}
use fio_relic.Writer.Block.{
  absorb_block, note_reversible, note_irreversible, flush_queues, send_bkp_batch, set_unconfirmed,
  confirm, report, trx_per_block, reset_counters,
}
use fio_relic.Writer.Takeover.{check_master, must_check}
use fio_relic.Writer.{block_at, settle_block, confirm_block}
use fio_relic.Writer.Absorb.{SameRole-absorb_block}
use fio_relic.Writer.Queues.{IsQueued, AfterBatch, send_traces_batch_lem}
use fio_relic.Writer.Runs.{note_reversible-IsQueued, note_irreversible-IsQueued}

pub report_counted :
    (now k : ℕ) (w : Writer)
    → w.blocks_counter ≡ suc k
    → report now w ≡ (done (to_int32 w.confirmed_block), reset_counters now w)
unfolding report trx_per_block
report_counted now k w h = rw h refl

-- A master does not check itself.
not_due :
    (n l : ℤ) (now : ℕ) (w : Writer) → w.i_am_master ≡ true → must_check n l now (confirm w) ≡ false
unfolding must_check confirm commit_now
not_due n l now w h = ground arith

pub absorb_block-not_due :
    (n l : ℤ) (now : ℕ) (w : Writer)
    → w.i_am_master ≡ true
    → must_check n l now (confirm (absorb_block n l w)) ≡ false
absorb_block-not_due n l now w h =
    not_due n l now (absorb_block n l w) ((SameRole-absorb_block n l w).master ∙ h)

pub counted_still :
    (k : ℕ) (w : Writer) → w.blocks_counter ≡ suc k → (confirm w).blocks_counter ≡ suc k
unfolding confirm commit_now
counted_still k w h = h

-- The master's part of what precedes the first test that may return.
noted : ℤ → ℤ → Writer → Writer
noted n l w = note_irreversible l (note_reversible n l w)

noted-working : (n l : ℤ) (w : Writer) → w.i_am_master ≡ true → (noted n l w).working ≡ w.working
unfolding noted note_irreversible note_reversible
noted-working n l w h = ground arith

noted-queue : (n l : ℤ) (w : Writer) → (noted n l w).insert_transactions ≡ w.insert_transactions
unfolding noted note_irreversible note_reversible
noted-queue n l w = ground arith

noted-receipts : (n l : ℤ) (w : Writer) → (noted n l w).insert_receipts ≡ w.insert_receipts
unfolding noted note_irreversible note_reversible
noted-receipts n l w = ground arith

noted-master : (n l : ℤ) (w : Writer) → w.i_am_master ≡ true → (noted n l w).i_am_master ≡ true
unfolding noted note_irreversible note_reversible
noted-master n l w h = ground arith

noted-ack : (n l : ℤ) (w : Writer) → (noted n l w).ack_every ≡ (note_reversible n l w).ack_every
unfolding noted note_irreversible
noted-ack n l w = ground arith

flush_queues-AfterBatch :
    (u : Writer) → u.i_am_master ≡ true → IsQueued u → AfterBatch u (flush_queues u)
unfolding flush_queues
flush_queues-AfterBatch u h q = flushed u.i_am_master h
  where
    flushed :
        (b : Bool) → b ≡ true → AfterBatch u (if b then send_traces_batch u else send_bkp_batch u)
    flushed true e = send_traces_batch_lem u q
    flushed false e = absurd (ground arith)

flush_queues-ack : (u : Writer) → (flush_queues u).ack_every ≡ u.ack_every
unfolding flush_queues send_traces_batch send_queue write_queues send_bkp_batch
flush_queues-ack u = ground arith

-- On a master, what precedes the first test that may return sends the batch.
pub absorb_block-AfterBatch :
    (n l : ℤ) (w : Writer) → w.i_am_master ≡ true → IsQueued w → AfterBatch w (absorb_block n l w)
unfolding absorb_block set_unconfirmed noted
absorb_block-AfterBatch n l w h q =
    let queued = note_irreversible-IsQueued l _ (note_reversible-IsQueued n l w q) in
    let after = flush_queues-AfterBatch (noted n l w) (noted-master n l w h) queued in
    record {
      queues = after.queues;
      keys = λ seq. after.keys seq ∙ rw (noted-working n l w h, noted-queue n l w) refl;
      rows = after.rows ∙ rw (noted-working n l w h, noted-queue n l w) refl;
      receipts = after.receipts ∙ rw (noted-working n l w h, noted-receipts n l w) refl;
      sequences = λ account.
          after.sequences account ∙ rw (noted-working n l w h, noted-receipts n l w) refl;
      others = (
        after.others.0 ∙ ap (λ (t : Tables). t.sync) (noted-working n l w h),
        after.others.1 ∙ ap (λ (t : Tables). t.bkp_traces) (noted-working n l w h),
      );
    }

-- Block n is confirmed by `w'` after `w`: everything is committed, and the queues and the tables are
-- those that AfterBatch describes.
pub record IsConfirmed (n : ℤ) (w w' : Writer) : Type 0 where
  pub confirmed : w'.confirmed_block ≡ n
  pub durable : w'.committed ≡ w'.working
  pub batch : AfterBatch w w'

pub IsConfirmed-absorb_block :
    (n l : ℤ) (now : ℕ) (w : Writer)
    → w.i_am_master ≡ true
    → IsQueued w
    → IsConfirmed n w (reset_counters now (confirm (absorb_block n l w)))
unfolding absorb_block set_unconfirmed confirm commit_now reset_counters
IsConfirmed-absorb_block n l now w h q =
    let after = absorb_block-AfterBatch n l w h q in
    record {
      confirmed = refl;
      durable = refl;
      batch = record {
        queues = after.queues;
        keys = after.keys;
        rows = after.rows;
        receipts = after.receipts;
        sequences = after.sequences;
        others = after.others;
      };
    }

pub absorb_block-ack :
    (n l : ℤ) (w : Writer) → (absorb_block n l w).ack_every ≡ (note_reversible n l w).ack_every
unfolding absorb_block set_unconfirmed noted
absorb_block-ack n l w = flush_queues-ack (noted n l w) ∙ noted-ack n l w

pub absorb_block-unconfirmed : (n l : ℤ) (w : Writer) → (absorb_block n l w).unconfirmed_block ≡ n
unfolding absorb_block set_unconfirmed
absorb_block-unconfirmed n l w = refl

-- Of two states, the one that waits with block n, or the one that acknowledges it.
abbrev pub answer : ℤ → ℤ → ℤ → Writer → Writer → Outcome ℤ × Writer
answer n confirmed ack_every waiting acknowledged =
    if ltb_ℤ (n -ℤ confirmed) ack_every
    then (done (negsuc 0), waiting)
    else (done (to_int32 n), acknowledged)

same_answer :
    (v u : Writer) {m n c d a b : ℤ} → m ≡ n → c ≡ d → a ≡ b → answer m c a v u ≡ answer n d b v u
same_answer v u em ec ea = rw (em, ec, ea) refl

module _ (rs : ResultSets) (J : Rapidjson) where
  confirm_block-calm :
      (rounds k : ℕ) (env : Env) (n l : ℤ) (json : J.Value) (id : Bytes) (w : Writer)
      → string_at J json "block_id" ≡ done id
      → must_check n l env.now (confirm w) ≡ false
      → w.blocks_counter ≡ suc k
      → confirm_block rs J rounds env n l json w
        ≡ (done (to_int32 w.unconfirmed_block), reset_counters env.now (confirm w))
  unfolding confirm_block check_master confirm
  confirm_block-calm rounds k env n l json id w has_id calm counted =
      rw (has_id, calm) (report_counted env.now k (confirm w) (counted_still k w counted))

  settle_block-answer :
      (rounds k : ℕ) (env : Env) (n l : ℤ) (json : J.Value) (id : Bytes) (w : Writer)
      → string_at J json "block_id" ≡ done id
      → must_check n l env.now (confirm w) ≡ false
      → w.blocks_counter ≡ suc k
      → leb_ℤ w.unconfirmed_block w.confirmed_block ≡ false
      → settle_block rs J rounds env n l json w
        ≡ answer w.unconfirmed_block w.confirmed_block w.ack_every w
            (reset_counters env.now (confirm w))
  unfolding settle_block
  settle_block-answer rounds k env n l json id w has_id calm counted late =
      rw (late, confirm_block-calm rounds k env n l json id w has_id calm counted) refl

  -- A completed block n above the confirmed one is acknowledged, or it waits: which of the two, the
  -- number of blocks says that have come since. The master is not checked.
  pub block_at-answer :
      (rounds k : ℕ) (env : Env) (n l : ℤ) (json : J.Value) (id : Bytes) (w : Writer)
      → string_at J json "block_id" ≡ done id
      → must_check n l env.now (confirm (absorb_block n l w)) ≡ false
      → w.blocks_counter ≡ suc k
      → w.confirmed_block <ℤ n
      → block_at rs J rounds env n l json w
        ≡ answer n w.confirmed_block
            (note_reversible n l w).ack_every
            (absorb_block n l w)
            (reset_counters env.now (confirm (absorb_block n l w)))
  unfolding block_at
  block_at-answer rounds k env n l json id w has_id calm counted above =
      let v = absorb_block n l w in
      let s = SameRole-absorb_block n l w in
      let unconfirmed = absorb_block-unconfirmed n l w in
      settle_block-answer rounds k env n l json id v has_id calm (s.counted ∙ counted)
        (rw (unconfirmed, s.confirmed) (lt→leb_ℤ n w.confirmed_block above))
      ∙ same_answer v _ unconfirmed s.confirmed (absorb_block-ack n l w)

  -- What a master acknowledges is stored: on a completed block n above the confirmed one, where at
  -- least the number of blocks for one acknowledgement have come since (one, if n is above the last
  -- irreversible block l), with a block id that can be read, a master whose queues belong together
  -- and that has counted the block answers n as an int, and IsConfirmed holds.
  pub block_at-IsConfirmed :
      (rounds k : ℕ) (env : Env) (n l : ℤ) (json : J.Value) (id : Bytes) (w : Writer)
      → string_at J json "block_id" ≡ done id
      → w.i_am_master ≡ true
      → IsQueued w
      → w.blocks_counter ≡ suc k
      → w.confirmed_block <ℤ n
      → (note_reversible n l w).ack_every ≤ℤ n -ℤ w.confirmed_block
      → let x = block_at rs J rounds env n l json w in
        (x.0 ≡ done (to_int32 n)) × IsConfirmed n w x.1
  unfolding block_at settle_block
  block_at-IsConfirmed rounds k env n l json id w has_id master q counted above due =
      rw
        (
          block_at-answer rounds k env n l json id w has_id
              (absorb_block-not_due n l env.now w master) counted above,
          le→ltb_ℤ (n -ℤ w.confirmed_block) (note_reversible n l w).ack_every due,
        )
        (refl, IsConfirmed-absorb_block n l env.now w master q)
