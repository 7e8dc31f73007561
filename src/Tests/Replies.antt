-- ===== src/Tests/Replies.antt =====
-- A block message that a master acknowledges, and a slave that takes over.
use fio_relic.Base.{false, [], ◌∷◌, ◌++◌, ◌≡◌, refl, All}
use fio_relic.Base.Int.{FitsInt32, pos, ◌+ℤ◌, ◌-ℤ◌, to_int32}
use fio_relic.Base.Bytes.{Bytes, codes, c_str, stol, bytes_eq}
use fio_relic.Base.Exec.{done}
use fio_relic.External.{positions, positions-IsDocumented}
use fio_relic.Writer.State.{Writer}
use fio_relic.Writer.Batch.{string_at, send_traces_batch}
use fio_relic.Writer.Messages.{get_block_time, long_at}
use fio_relic.Writer.Block.{
  count_block, note_reversible, note_irreversible, flush_queues, absorb_block, set_unconfirmed,
  confirm, report, trx_per_block, reset_counters,
}
use fio_relic.Writer.Takeover.{check_master, must_check, take_over}
use fio_relic.Writer.{
  on_read, process_data, verify_master, ensure_connection, split_message, dispatch, on_block,
  block_at, settle_block, confirm_block,
}
use fio_relic.Writer.Endings.{escapes, on_read-escapes}
use fio_relic.Writer.Reply.{replies, on_read-replies}
use fio_relic.Writer.Succession.{AfterTakeover, take_over_lem}
use fio_relic.Tests.{json, env, master, slave}
use fio_relic.Tests.Messages.{trace_row}

abbrev block_buffer : Bytes
block_buffer = 242 ∷ 3 ∷ 0 ∷ 0 ∷ 0 ∷ 0 ∷ 0 ∷ 0 ∷ codes "block"

abbrev confirmed : Writer
confirmed = (process_data positions json 3 env block_buffer (verify_master env master)).1

on_read-replies_example :
    (on_read positions json 3 env block_buffer master
      ≡ (done tt, record confirmed { sent = confirmed.sent ++ replies (pos 101) }))
    × All (λ text. stol text ≡ done (pos 101)) (replies (pos 101))
    × FitsInt32 (pos 101)
unfolding verify_master process_data ensure_connection split_message dispatch on_block
    get_block_time long_at string_at stol count_block block_at settle_block absorb_block
    note_reversible note_irreversible flush_queues send_traces_batch set_unconfirmed confirm_block
    confirm check_master must_check report trx_per_block reset_counters bytes_eq ◌-ℤ◌ to_int32 c_str
on_read-replies_example =
    on_read-replies positions json 3 env block_buffer master confirmed (pos 101) refl refl refl

on_read-escapes_example : escapes (on_read positions json 1 env block_buffer slave).0 ≡ false
on_read-escapes_example =
    on_read-escapes positions json positions-IsDocumented 0 env block_buffer slave

-- A slave with a trace in the backup table.
abbrev successor : Writer
successor = record slave { working = record slave.working { bkp_traces = trace_row ∷ [] } }

take_over_lem_example :
    (w' : Writer) × (take_over positions json 1 (pos 90) successor ≡ (done tt, w'))
    × AfterTakeover (pos 90 +ℤ pos 1) successor w'
take_over_lem_example =
    take_over_lem positions json positions-IsDocumented 0 (pos 90) successor refl
