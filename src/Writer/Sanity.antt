-- ===== src/Writer/Sanity.antt =====
-- What sanityCheck (prototype/Writer.cpp) has verified when it returns, with result sets that behave
-- as documented; and what a restarted writer knows of the blocks that were acknowledged.
use fio_relic.Base.{
  ◌⊎◌, inl, inr, Bool-cases, ℕ, List, [], ◌∷◌, true, false, ◌≡◌, refl, ap, ◌∙◌, keep_if, arith,
  length, ◌≤◌, not,
}
use fio_relic.Base.Int.{pos, eqb_ℤ, to_int32}
use fio_relic.Base.Exec.{Outcome, done, continue, continue-holds}
use fio_relic.External.{Rapidjson, ResultSets, IsDocumented}
use fio_relic.Tables.{Tables, SyncRow, has_source}
use fio_relic.Writer.State.{Writer, Env}
use fio_relic.Writer.Startup.{
  check_rows, sanity_check, check_masters, check_slaves, fetch_source, load_row, check_started,
  is_master_row, is_slave_row,
}
use fio_relic.Writer.{on_block}
use fio_relic.Writer.Progress.{SyncIs, on_block-SyncIs}

-- The answers were sane and `w'` is what the writer made of `w`: one master, at most one slave, a
-- row of this source, whose values are loaded, and a master that has started if this is a slave.
pub record IsSane (masters slaves mine : List SyncRow) (w w' : Writer) : Type 0 where
  pub master : SyncRow
  pub one_master : masters ≡ master ∷ []
  pub few_slaves : length slaves ≤ 1
  pub row : SyncRow
  pub others : List SyncRow
  pub has_row : mine ≡ row ∷ others
  pub confirmed : w'.confirmed_block ≡ row.block_num
  pub unconfirmed : w'.unconfirmed_block ≡ row.block_num
  pub irreversible : w'.irreversible ≡ row.irreversible
  pub role : w'.i_am_master ≡ not (eqb_ℤ row.is_master (pos 0))
  pub unwritten : (w'.working ≡ w.working) × (w'.committed ≡ w.committed)
  pub started :
      (w'.i_am_master ≡ true)
      ⊎ (eqb_ℤ (to_int32 master.block_num) (pos 0) ≡ false)
        × (eqb_ℤ (to_int32 master.irreversible) (pos 0) ≡ false)

check_slaves-le : (ss : List SyncRow) → check_slaves ss ≡ done tt → length ss ≤ 1
unfolding check_slaves
check_slaves-le [] h = omega arith
check_slaves-le (s ∷ []) h = omega arith
check_slaves-le (s ∷ t ∷ ss) h = absurd (ground arith)

check_started_same : (m : SyncRow) (w : Writer) → (check_started m w).1 ≡ w
unfolding check_started
check_started_same m w = ground arith

load_row_lem :
    (r : SyncRow) (w w' : Writer)
    → w' ≡ load_row r w
    → (w'.confirmed_block ≡ r.block_num)
      × (w'.unconfirmed_block ≡ r.block_num)
      × (w'.irreversible ≡ r.irreversible)
      × (w'.i_am_master ≡ not (eqb_ℤ r.is_master (pos 0)))
      × ((w'.working ≡ w.working) × (w'.committed ≡ w.committed))
unfolding load_row
load_row_lem r w w' h = rw h (refl, refl, refl, refl, (refl, refl))

check_started_started :
    (m : SyncRow) (w : Writer)
    → (check_started m w).0 ≡ done tt
    → ((check_started m w).1.i_am_master ≡ true)
      ⊎ (eqb_ℤ (to_int32 m.block_num) (pos 0) ≡ false)
        × (eqb_ℤ (to_int32 m.irreversible) (pos 0) ≡ false)
unfolding check_started
check_started_started m w h = elim (Bool-cases w.i_am_master) [
  | inl master ↦ inl (ground arith)
  | inr slave ↦ inr (ground arith)
]

-- The conclusion about an action that returns.
abbrev SaneOnReturn :
    List SyncRow → List SyncRow → List SyncRow → Writer → Outcome (Unit {0}) × Writer → Type 0
SaneOnReturn masters slaves mine w x = x.0 ≡ done tt → IsSane masters slaves mine w x.1

check_started-IsSane :
    (m r : SyncRow) (ss rest : List SyncRow) (w : Writer)
    → check_slaves ss ≡ done tt
    → SaneOnReturn (m ∷ []) ss (r ∷ rest) w (check_started m (load_row r w))
check_started-IsSane m r ss rest w few h =
    let loaded = load_row_lem r w _ (check_started_same m (load_row r w)) in
    record {
      master = m;
      one_master = refl;
      few_slaves = check_slaves-le ss few;
      row = r;
      others = rest;
      has_row = refl;
      confirmed = loaded.0;
      unconfirmed = loaded.1;
      irreversible = loaded.2;
      role = loaded.3;
      unwritten = loaded.4;
      started = check_started_started m (load_row r w) h;
    }

module _ (rs : ResultSets) (J : Rapidjson) where
  -- The state after a history of block messages.
  unfoldable pub run_blocks : List (ℕ × Env × J.Value) → Writer → Writer
  run_blocks [] w = w
  run_blocks ((rounds, env, json) ∷ ms) w = run_blocks ms (on_block rs J rounds env json w).1

module _ (rs : ResultSets) (d : IsDocumented rs) where
  -- The part of the checks behind the count of slaves.
  fetched-IsSane :
      (m : SyncRow) (ss mine : List SyncRow) (w : Writer)
      → check_slaves ss ≡ done tt
      → SaneOnReturn
          (m ∷ [])
          ss
          mine
          w
          (continue (fetch_source rs mine) (λ r v. check_started m (load_row r v)) w)
  unfolding fetch_source
  fetched-IsSane m ss [] w few = rw d.no_row (λ h. absurd (ground arith))
  fetched-IsSane m ss (r ∷ rest) w few =
      rw (d.next_not_after r rest, d.next_row r rest) (check_started-IsSane m r ss rest w few)

  check_rows-IsSane :
      (masters slaves mine : List SyncRow) (w : Writer)
      → SaneOnReturn masters slaves mine w (check_rows rs masters slaves mine w)
  unfolding check_rows check_masters
  check_rows-IsSane [] ss mine w = λ h. absurd (ground arith)
  check_rows-IsSane (m ∷ n ∷ ms) ss mine w = λ h. absurd (ground arith)
  check_rows-IsSane (m ∷ []) ss mine w = rw (d.first_row m []) (
      continue-holds (SaneOnReturn (m ∷ []) ss mine w) (check_slaves ss) _ w
        (λ _ few. fetched-IsSane m ss mine w few) (λ e _ h. absurd (ground arith)))

  -- If sanityCheck returns, SYNC has exactly one master and at most one slave, there is a row of
  -- this source, and the writer has loaded the first such row: the confirmed and the unconfirmed
  -- block are its block number, the irreversible block is its irreversible, and the writer is the
  -- master where its is_master is not 0; no table is changed; and if it is a slave, the master has a
  -- block and an irreversible block other than 0 (as ints).
  pub sanity_check_lem :
      (w : Writer)
      → (sanity_check rs w).0 ≡ done tt
      → IsSane
          (keep_if is_master_row w.working.sync)
          (keep_if is_slave_row w.working.sync)
          (keep_if (has_source w.source_id) w.working.sync)
          w
          (sanity_check rs w).1
  unfolding sanity_check
  sanity_check_lem w =
      check_rows-IsSane (keep_if is_master_row w.working.sync) (keep_if is_slave_row w.working.sync)
        (keep_if (has_source w.source_id) w.working.sync) w

  module _ (J : Rapidjson) where
    run_blocks-SyncIs :
        (ms : List (ℕ × Env × J.Value)) (rows : List SyncRow) (w : Writer)
        → SyncIs rows w
        → SyncIs rows (run_blocks rs J ms w)
    unfolding run_blocks
    run_blocks-SyncIs [] rows w h = h
    run_blocks-SyncIs ((rounds, env, json) ∷ ms) rows w h =
        run_blocks-SyncIs ms rows _ ((on_block-SyncIs rs J d rounds env json rows).at w h)

    -- A restart forgets what was confirmed: after any history of block messages, whatever blocks it
    -- acknowledged, a new writer that is connected to what the old one has committed, with the same
    -- source, and passes its sanity check starts from the block number that SYNC held before that
    -- history, where SYNC holds a row of this source and the old writer had no change of SYNC that was
    -- not committed.
    pub restart_forgets :
        (ms : List (ℕ × Env × J.Value)) (w v : Writer) (r : SyncRow) (rest : List SyncRow)
        → w.committed.sync ≡ w.working.sync
        → keep_if (has_source w.source_id) w.working.sync ≡ r ∷ rest
        → v.working ≡ (run_blocks rs J ms w).committed
        → v.source_id ≡ w.source_id
        → (sanity_check rs v).0 ≡ done tt
        → (sanity_check rs v).1.confirmed_block ≡ r.block_num
    restart_forgets ms w v r rest durable mine connected source returned =
        let sane = sanity_check_lem v returned in
        let kept = run_blocks-SyncIs ms w.working.sync w (refl, durable) in
        let seen : v.working.sync ≡ w.working.sync =
          ap (λ (t : Tables). t.sync) connected ∙ kept.1 in
        let same : keep_if (has_source v.source_id) v.working.sync ≡ r ∷ rest =
          rw (seen, source) mine in
        sane.confirmed ∙ ground (arith, sane.has_row, same)
