-- ===== src/Writer/Messages.antt =====
-- The cases CHRONICLE_MSGTYPE_FORK and CHRONICLE_MSGTYPE_TX_TRACE of Writer::processData
-- (prototype/Writer.cpp), and getBlockTime.
use fio_relic.Base.{
  ℕ, ◌+◌, List, [], ◌∷◌, ◌++◌, Bool, true, false, not, if◌then◌else◌, ◌==◌, String,
}
use fio_relic.Base.Int.{ℤ, pos, negsuc, ◌-ℤ◌, leb_ℤ, to_int32}
use fio_relic.Base.Bytes.{Bytes, stol, stoul, codes, same_ignoring_case}
use fio_relic.Base.Exec.{
  Exec, Outcome, done, thrown, position_out_of_range, and_then, from_outcome, modify, pure, ◌>>=◌,
  ◌>>◌,
}
use fio_relic.External.{Rapidjson}
use fio_relic.Tables.{Trace, delete_traces_from, update_sync_fork}
use fio_relic.Writer.State.{Writer, commit}
use fio_relic.Writer.Batch.{fork_traces, save_trace, string_at, object_at, array_at}

-- bt.replace(bt.find("T"), 1, " "): without a 'T' the position is npos, and replace throws.
unfoldable pub replace_t : Bytes → Outcome Bytes
replace_t [] = thrown position_out_of_range
replace_t (b ∷ bs) =
    if b == b'T' then done (32 ∷ bs) else and_then (replace_t bs) λ rest. done (b ∷ rest)

-- commit, and justCommitted = true
unfoldable pub commit_now : Writer → Writer
unfolding commit
commit_now w = record (commit w) { just_committed = true }

-- sth_fork_bkp
unfoldable pub fork_bkp : ℤ → Writer → Writer
fork_bkp start_block w = record w {
  working = record w.working { bkp_traces = delete_traces_from start_block w.working.bkp_traces };
}

-- The fork's block becomes the next one, and what is queued for later blocks is dropped.
unfoldable pub rewind : ℤ → Writer → Writer
rewind block_num w = record w {
  confirmed_block = block_num -ℤ pos 1;
  unconfirmed_block = block_num -ℤ pos 1;
  insert_transactions = [];
  insert_receipts = [];
  upsert_recv_seq_max = [];
}

-- sth_upd_sync_fork
unfoldable pub write_sync_fork : Writer → Writer
write_sync_fork w = record w {
  working = record w.working {
    sync = update_sync_fork w.confirmed_block w.source_id w.working.sync;
  };
}

-- if (iAmMaster) forkTraces(blockNum) else …
unfoldable pub fork_rows : Bool → ℤ → Writer → Writer
fork_rows true start_block w = fork_traces start_block w
fork_rows false start_block w = fork_bkp start_block w

-- The statements between the early return of the case and its last one.
unfoldable pub apply_fork : ℤ → Writer → Writer
unfolding rewind fork_rows fork_traces fork_bkp write_sync_fork commit_now
apply_fork block_num w =
    commit_now (write_sync_fork (fork_rows w.i_am_master block_num (rewind block_num w)))

-- The case once the block number is read; the result is converted to int.
unfoldable pub fork_at : ℤ → Exec Writer ℤ
unfolding commit_now
fork_at block_num w =
    if leb_ℤ w.confirmed_block w.irreversible
    then (done (to_int32 (block_num -ℤ pos 1)), commit_now w)
    else (
      done (to_int32 (apply_fork block_num (commit_now w)).confirmed_block),
      apply_fork block_num (commit_now w),
    )

-- sth: the row that a slave keeps for the backup table.
unfoldable pub push_bkp_trace : Trace → Writer → Writer
push_bkp_trace t w = record w { insert_bkp_traces = w.insert_bkp_traces ++ t ∷ [] }

unfoldable pub count_trx : Writer → Writer
count_trx w = record w { trx_counter = w.trx_counter + 1 }

module _ (J : Rapidjson) where
  unfoldable pub long_at : J.Value → String → Outcome ℤ
  long_at v key = and_then (string_at J v key) stol

  -- getBlockTime
  unfoldable pub get_block_time : J.Value → Outcome Bytes
  unfolding replace_t
  get_block_time json = and_then (string_at J json "block_timestamp") replace_t

  -- case 1001
  unfoldable pub on_fork : J.Value → Exec Writer ℤ
  on_fork json = do block_num ← from_outcome (long_at json "block_num"); fork_at block_num

  -- std::stoul(actionTraces[0]["receipt"]["global_sequence"].GetString())
  unfoldable pub trx_seq_of : J.Value → Outcome ℕ
  trx_seq_of first =
      and_then (object_at J first "receipt")
        λ receipt. and_then (string_at J receipt "global_sequence") stoul

  -- The two branches that store the trace.
  unfoldable pub store_trace : ℕ → ℤ → Bytes → J.Value → Bytes → Exec Writer (Unit {0})
  store_trace trx_seq block_num block_time trace json_str w =
      if w.i_am_master
      then save_trace J trx_seq block_num block_time trace json_str w
      else (do
        id ← from_outcome (string_at J trace "id")
        modify (
            push_bkp_trace (record {
              seq = trx_seq;
              block_num = block_num;
              block_time = block_time;
              trx_id = id;
              trace = json_str;
            })))
          w

  -- The case from `auto blockTime` on, for the first action trace.
  unfoldable pub keep_trace : ℤ → J.Value → J.Value → J.Value → Bytes → Exec Writer ℤ
  keep_trace block_num json trace first json_str = do
    block_time ← from_outcome (get_block_time json)
    trx_seq ← from_outcome (trx_seq_of first)
    store_trace trx_seq block_num block_time trace json_str
    modify count_trx
    pure (negsuc 0)

  -- The test of the array's size.
  unfoldable pub keep_if_any : ℤ → J.Value → J.Value → List J.Value → Bytes → Exec Writer ℤ
  keep_if_any block_num json trace [] json_str = pure (negsuc 0)
  keep_if_any block_num json trace (first ∷ rest) json_str =
      keep_trace block_num json trace first json_str

  -- The case from `trace` on: a trace that was not executed, or has no action trace, is skipped.
  unfoldable pub on_new_trace : ℤ → J.Value → Bytes → Exec Writer ℤ
  on_new_trace block_num json json_str = do
    trace ← from_outcome (object_at J json "trace")
    status ← from_outcome (string_at J trace "status")
    if not (same_ignoring_case status (codes "executed")) then pure (negsuc 0) else do
      items ← from_outcome (array_at J trace "action_traces")
      keep_if_any block_num json trace items json_str

  -- The test of the block, once its number is read.
  unfoldable pub trace_at : ℤ → J.Value → Bytes → Exec Writer ℤ
  trace_at block_num json json_str w =
      if leb_ℤ block_num w.confirmed_block
      then (done (negsuc 0), w)
      else on_new_trace block_num json json_str w

  -- case 1003
  unfoldable pub on_trace : J.Value → Bytes → Exec Writer ℤ
  on_trace json json_str = do
    block_num ← from_outcome (long_at json "block_num")
    trace_at block_num json json_str
