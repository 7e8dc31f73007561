-- ===== src/Tests/Restart.antt =====
-- A master that confirms a block and is then started again.
use fio_relic.Base.{true, ℕ, List, [], ◌∷◌, ◌≡◌, refl, keep_if}
use fio_relic.Base.Int.{pos, ◌-ℤ◌}
use fio_relic.Base.Bytes.{stol, bytes_eq}
use fio_relic.External.{positions, positions-IsDocumented}
use fio_relic.Writer.State.{Writer, Env}
use fio_relic.Writer.Batch.{string_at, send_traces_batch}
use fio_relic.Writer.Messages.{get_block_time, long_at}
use fio_relic.Writer.Block.{
  count_block, note_reversible, note_irreversible, flush_queues, absorb_block, set_unconfirmed,
  confirm, report, trx_per_block, reset_counters,
}
use fio_relic.Writer.Takeover.{check_master, must_check}
use fio_relic.Writer.{on_block, block_at, settle_block, confirm_block}
use fio_relic.Writer.Startup.{new_writer, sanity_check, check_rows, load_row}
use fio_relic.Writer.Sanity.{restart_forgets, run_blocks, sanity_check_lem, IsSane}
use fio_relic.Tests.{Node, block_message, json, master, master_row, slave_row, tables, env}

-- One completed block, which the master confirms and acknowledges.
abbrev pub history : List (ℕ × Env × Node)
history = (3, env, block_message) ∷ []

abbrev pub restarted : Writer
restarted = record (new_writer tables) {
  connected = true;
  committed = (run_blocks positions json history master).committed;
  working = (run_blocks positions json history master).committed;
}

confirmed_101 : (run_blocks positions json history master).confirmed_block ≡ pos 101
unfolding run_blocks on_block get_block_time long_at string_at stol count_block block_at
    settle_block absorb_block note_reversible note_irreversible flush_queues send_traces_batch
    set_unconfirmed confirm_block confirm check_master must_check report trx_per_block
    reset_counters bytes_eq ◌-ℤ◌
confirmed_101 = refl

restart_forgets_example : (sanity_check positions restarted).1.confirmed_block ≡ pos 100
unfolding run_blocks on_block get_block_time long_at string_at stol count_block block_at
    settle_block absorb_block note_reversible note_irreversible flush_queues send_traces_batch
    set_unconfirmed confirm_block confirm check_master must_check report trx_per_block
    reset_counters sanity_check check_rows load_row keep_if bytes_eq ◌-ℤ◌
restart_forgets_example =
    restart_forgets positions positions-IsDocumented json history master restarted master_row []
      refl refl refl refl refl

sanity_check_lem_example :
    IsSane
      (master_row ∷ [])
      (slave_row ∷ [])
      (master_row ∷ [])
      restarted
      (sanity_check positions restarted).1
unfolding run_blocks on_block get_block_time long_at string_at stol count_block block_at
    settle_block absorb_block note_reversible note_irreversible flush_queues send_traces_batch
    set_unconfirmed confirm_block confirm check_master must_check report trx_per_block
    reset_counters sanity_check check_rows load_row keep_if bytes_eq ◌-ℤ◌
sanity_check_lem_example = sanity_check_lem positions positions-IsDocumented restarted refl
