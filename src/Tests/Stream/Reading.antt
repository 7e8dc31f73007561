-- ===== src/Tests/Stream/Reading.antt =====
-- The two blocks of Tests/Stream in a whole run, read by a master and by a slave, with a fork
-- between them, by a master whose client goes, and by one that is started again.
use fio_relic.Base.{inr, keep_if, ◌≡◌, [], ◌∷◌, refl, arith}
use fio_relic.Base.Exec.{done, ◌>>◌}
use fio_relic.External.{positions, positions-IsDocumented}
use fio_relic.Writer.History.{last_irreversible, IsAscending}
use fio_relic.Writer.{still_master, on_disconnect}
use fio_relic.Writer.Cut.{IsCut, read_stream-IsCut}
use fio_relic.Writer.Sequence.{read_stream}
use fio_relic.Writer.Stream.{IsServedByMaster, read_stream-IsServed}
use fio_relic.Writer.Startup.{new_writer}
use fio_relic.Writer.Repeated.{Repeats}
use fio_relic.Writer.Resumed.{IsResumed, resume, read_stream-IsResumed}
use fio_relic.Writer.Slave.Standby.{IsServedBySlave, read_stream-IsMirrored}
use fio_relic.Base.Int.{pos, ◌-ℤ◌}
use fio_relic.Writer.History.{last_number}
use fio_relic.Writer.Chapters.{IsOrderly, behind, read_chapters}
use fio_relic.Writer.Rewritten.{IsRewritten, write_chapters, read_chapters-IsRewritten}
use fio_relic.Base.{some}
use fio_relic.Base.Bytes.{bytes_eq}
use fio_relic.Base.Exec.{thrown, fix_me}
use fio_relic.Server.{make_address}
use fio_relic.Writer.Class.{lifecycle}
use fio_relic.Writer.Unconfigured.{listening}
use fio_relic.Writer.Whole.{IsDelivered, connection_of, run-IsDelivered}
use fio_relic.Base.Int.{negsuc}
use fio_relic.Writer.Slave.Mirror.{mirror}
use fio_relic.Writer.Slave.Backlog.{IsBackedUp, mirror_chapters, read_chapters-IsBackedUp}
use fio_relic.Tests.{configured, master_row, tables, json, master, slave}
use fio_relic.Tests.Stream.{
  chapter, fork_buffer, first_block, first_again, first_buffers_again, later_block, first_buffers,
  later_buffers,
}

read_stream-IsServed_example :
    let x = read_stream positions json 3 (first_buffers ∷ later_buffers ∷ []) master in
    (x.0 ≡ done tt) × IsServedByMaster (first_block ∷ later_block ∷ []) master x.1
unfolding IsAscending first_block later_block first_buffers later_buffers still_master keep_if
read_stream-IsServed_example =
    read_stream-IsServed positions json 3 (first_buffers ∷ later_buffers ∷ []) master refl refl
      (record { connected = refl; has_websocket = refl; listed = refl }) (refl, refl, refl) refl
      (omega arith, (omega arith, tt))

read_chapters-IsRewritten_example :
    let x =
      read_chapters positions json 3 (chapter ∷ []) (first_buffers ∷ later_buffers ∷ []) master in
    (x.0 ≡ done tt)
    × IsRewritten
        (first_block ∷ later_block ∷ [])
        (pos 100)
        (write_chapters (pos 1) (chapter ∷ []) tables)
        x.1
unfolding IsAscending IsOrderly last_irreversible last_number behind first_block later_block
    first_buffers later_buffers fork_buffer chapter still_master keep_if ◌-ℤ◌
read_chapters-IsRewritten_example =
    read_chapters-IsRewritten positions json 3 (chapter ∷ []) (first_buffers ∷ later_buffers ∷ [])
      master
      (record {
        master = refl;
        writes = refl;
        queues = (refl, refl, refl);
        linked = record { connected = refl; has_websocket = refl; listed = refl };
      })
      refl ((omega arith, tt), omega arith, (omega arith, (omega arith, tt)))

read_chapters-IsBackedUp_example :
    let x =
      read_chapters positions json 3 (chapter ∷ []) (first_buffers ∷ later_buffers ∷ []) slave in
    (x.0 ≡ done tt)
    × IsBackedUp
        (negsuc 0)
        (first_block ∷ later_block ∷ [])
        (pos 100)
        (mirror_chapters (negsuc 0) (pos 2) (chapter ∷ []) (mirror slave))
        x.1
unfolding IsAscending IsOrderly last_irreversible last_number behind first_block later_block
    first_buffers later_buffers fork_buffer chapter ◌-ℤ◌
read_chapters-IsBackedUp_example =
    read_chapters-IsBackedUp positions json 3 (chapter ∷ []) (first_buffers ∷ later_buffers ∷ [])
      slave (record { slave = refl; connected = refl; has_websocket = refl }) refl refl
      ((omega arith, tt), omega arith, (omega arith, (omega arith, tt)))
      ((inr (omega arith), tt), tt) (inr (omega arith), (inr (omega arith), tt))

read_stream-IsCut_example :
    let x =
      (do read_stream positions json 3 (first_buffers ∷ later_buffers ∷ []); on_disconnect)
        master in
    (x.0 ≡ done tt) × IsCut (first_block ∷ later_block ∷ []) master x.1
unfolding IsAscending first_block later_block first_buffers later_buffers still_master keep_if
read_stream-IsCut_example =
    read_stream-IsCut positions json 3 (first_buffers ∷ later_buffers ∷ []) master refl refl
      (record { connected = refl; has_websocket = refl; listed = refl }) (refl, refl, refl) refl
      (omega arith, (omega arith, tt))

read_stream-IsMirrored_example :
    let x = read_stream positions json 3 (first_buffers ∷ later_buffers ∷ []) slave in
    (x.0 ≡ done tt) × IsServedBySlave (first_block ∷ later_block ∷ []) slave x.1
unfolding IsAscending first_block later_block first_buffers later_buffers
read_stream-IsMirrored_example =
    read_stream-IsMirrored positions json 3 (first_buffers ∷ later_buffers ∷ []) slave refl refl
      refl refl refl (omega arith, (omega arith, tt)) (inr (omega arith), (inr (omega arith), tt))

read_stream-IsResumed_example :
    let t = (read_stream positions json 3 (first_buffers ∷ []) master).1.committed in
    let x =
      resume positions json 3 t (first_buffers_again ∷ later_buffers ∷ []) (new_writer tables) in
    (x.0 ≡ done tt) × IsResumed (first_again ∷ later_block ∷ []) master x.1
unfolding IsAscending Repeats first_block first_again later_block first_buffers first_buffers_again
    later_buffers still_master keep_if
read_stream-IsResumed_example =
    read_stream-IsResumed positions json 3 positions-IsDocumented (first_buffers ∷ [])
      (first_buffers_again ∷ later_buffers ∷ []) master (new_writer tables) master_row
      (record {
        master = refl;
        writes = refl;
        queues = (refl, refl, refl);
        linked = record { connected = refl; has_websocket = refl; listed = refl };
      })
      refl (omega arith, tt)
      (record {
        master = master_row;
        one_master = refl;
        few_slaves = omega arith;
        others = [];
        has_row = refl;
        is_master = refl;
      })
      refl refl (refl, refl, refl) (record { rows = refl; receipts = refl }, tt)
      (omega arith, (omega arith, tt))

run-IsDelivered_example :
    let x =
      (lifecycle positions json).run
        (some configured)
        (some tables)
        listening
        (some (connection_of positions json 3 (first_buffers ∷ later_buffers ∷ [])) ∷ [])
        (new_writer tables) in
    (x.0 ≡ thrown fix_me) × IsDelivered (first_block ∷ later_block ∷ []) master_row tables x.1
unfolding IsAscending first_block later_block first_buffers later_buffers keep_if make_address
    bytes_eq
run-IsDelivered_example =
    run-IsDelivered positions json 3 positions-IsDocumented configured tables master_row listening
      (first_buffers ∷ later_buffers ∷ []) [] tables refl
      (record {
        master = master_row;
        one_master = refl;
        few_slaves = omega arith;
        others = [];
        has_row = refl;
        is_master = refl;
      })
      (record { address = refl; opens = refl; sets_option = refl; binds = refl; listens = refl })
      (omega arith, (omega arith, tt))
