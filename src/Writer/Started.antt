-- ===== src/Writer/Started.antt =====
-- The start of a master on the tables that it finds (Writer::initialize and sanityCheck in
-- prototype/Writer.cpp).
use fio_relic.Base.{List, [], ◌∷◌, true, false, ◌≡◌, refl, some, keep_if, length, ◌≤◌, arith}
use fio_relic.Base.Int.{ℤ, pos, eqb_ℤ}
use fio_relic.Base.Exec.{done}
use fio_relic.External.{ResultSets, IsDocumented}
use fio_relic.Tables.{Tables, SyncRow, has_source}
use fio_relic.Writer.State.{Writer, commit}
use fio_relic.Writer.{still_master}
use fio_relic.Writer.Startup.{
  start_session, connect, sanity_check, check_rows, check_masters, check_slaves, check_started,
  fetch_source, load_row, is_master_row, is_slave_row,
}
use fio_relic.Writer.Fork.{HasEmptyQueues}
use fio_relic.Writer.Stream.{IsServing}

-- SYNC as a master finds it that is to start: one master, at most one slave, and the row of the
-- source, which is a master.
pub record IsStartable (source_id : ℤ) (row : SyncRow) (sync : List SyncRow) : Type 0 where
  pub master : SyncRow
  pub one_master : keep_if is_master_row sync ≡ master ∷ []
  pub few_slaves : length (keep_if is_slave_row sync) ≤ 1
  pub others : List SyncRow
  pub has_row : keep_if (has_source source_id) sync ≡ row ∷ others
  pub is_master : eqb_ℤ row.is_master (pos 0) ≡ false

check_slaves-few : (ss : List SyncRow) → length ss ≤ 1 → check_slaves ss ≡ done tt
unfolding check_slaves
check_slaves-few [] h = refl
check_slaves-few (s ∷ []) h = refl
check_slaves-few (s ∷ t ∷ ss) h = absurd (omega arith)

-- What starting makes of a writer.
abbrev pub started : Tables → SyncRow → Writer → Writer
started t r v = record v {
  connected = true;
  committed = t;
  working = t;
  confirmed_block = r.block_num;
  unconfirmed_block = r.block_num;
  irreversible = r.irreversible;
  i_am_master = true;
}

pub IsStartable-IsServing :
    (t : Tables) (r : SyncRow) (v : Writer)
    → IsStartable v.source_id r t.sync
    → v.no_traces ≡ false
    → HasEmptyQueues v
    → IsServing (record (started t r v) { has_websocket = true })
unfolding still_master keep_if
IsStartable-IsServing t r v s writes queues = record {
  master = refl;
  writes = writes;
  queues = queues;
  linked = record {
    connected = refl;
    has_websocket = refl;
    listed = rw (s.has_row, s.is_master) refl;
  };
}

module _ (rs : ResultSets) (d : IsDocumented rs) where
  pub start_session-starts :
      (t : Tables) (r : SyncRow) (v : Writer)
      → IsStartable v.source_id r t.sync
      → start_session rs (some t) v ≡ (done tt, started t r v)
  unfolding start_session connect sanity_check check_rows check_masters check_started fetch_source
      load_row commit
  start_session-starts t r v s =
      rw
        (
          s.one_master,
          d.first_row s.master [],
          check_slaves-few (keep_if is_slave_row t.sync) s.few_slaves,
          s.has_row,
          d.next_not_after r s.others,
          d.next_row r s.others,
          s.is_master,
        )
        refl
