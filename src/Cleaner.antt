-- ===== src/Cleaner.antt =====
-- prototype/Cleaner.cpp and Cleaner.h: the rounds that delete the history below the last
-- irreversible block, in batches of ten blocks. The int variables of the source are integers, and what
-- is computed of them wraps around as an int does.
pub mod Prune
pub mod Rounds
pub mod Safety
pub mod Configuration
pub mod Class
use fio_relic.Base.{
  ℕ, zero, suc, ◌+◌, ◌*◌, Bool, true, false, Option, none, some, List, [], ◌∷◌, if◌then◌else◌,
}
use fio_relic.Base.Int.{ℤ, pos, negsuc, pos_part, ◌+ℤ◌, ◌-ℤ◌, ltb_ℤ, leb_ℤ, to_int32}
use fio_relic.Base.Exec.{
  Exec, Outcome, done, thrown, no_reconnect, out_of_rounds, sql_error, throw, pure, ◌>>=◌, ◌>>◌,
}
use fio_relic.External.{GetInt}
use fio_relic.Tables.{Tables, prune_traces, prune_receipts, min_irreversible, min_block}

-- The object: the connection of class Database with the tables that it shows, and the two ints.
-- They are those that are committed: each batch and each answer of SYNC is followed by a commit.
pub record Cleaner : Type 0 where
  pub connected : Bool
  pub tables : Tables
  pub last_irrev : ℤ
  pub keep_blocks : ℤ

-- The initial values of Cleaner.h, over the tables that a new session sees.
abbrev pub new_cleaner : Tables → Cleaner
new_cleaner t = record { connected = false; tables = t; last_irrev = pos 0; keep_blocks = negsuc 0 }

-- if (keepDays >= 0) keepBlocks = keepDays * 24 * 7200; for getOptions of Cleaner and of Writer
unfoldable pub kept_blocks : ℤ → ℤ → ℤ
kept_blocks (pos days) default_blocks = pos (days * 24 * 7200)
kept_blocks (negsuc n) default_blocks = default_blocks

-- The statements of the while loop for one batch, with the commit. The deletion from RECEIPTS is
-- executed twice; the second one finds no row.
unfoldable pub delete_below : ℤ → Tables → Tables
delete_below block t = record t {
  transactions = prune_traces block t.transactions;
  receipts = prune_receipts block t.receipts;
}

-- int deleteUpto = minBlock + 10; if (deleteUpto > uptoBlock) deleteUpto = uptoBlock; an int that
-- overflows wraps around.
unfoldable pub next_bound : ℤ → ℤ → ℤ
next_bound min_block_ upto =
    let bound = to_int32 (min_block_ +ℤ pos 10) in if ltb_ℤ upto bound then upto else bound

-- while (minBlock < uptoBlock) …, where the first argument says for each bound whether the statements
-- of its batch and the commit succeed. Without the commit the tables are as before. The number is fuel.
unfoldable pub prune_loop : (ℤ → Bool) → ℕ → ℤ → ℤ → Exec Tables (Unit {0})
prune_loop deletes zero from upto t = (thrown out_of_rounds, t)
prune_loop deletes (suc rounds) from upto t =
    let bound = next_bound from upto in
    let rest = prune_loop deletes rounds bound upto (delete_below bound t) in
    if ltb_ℤ from upto
    then (if deletes bound then rest else (thrown sql_error, t))
    else (done tt, t)

-- Fuel that is enough where minBlock + 10 does not overflow: each batch but the last moves the bound
-- by ten blocks. Where it does, the bound becomes negative, and the loop begins once more.
unfoldable pub rounds_for : ℤ → ℤ → ℕ
rounds_for from upto = suc (pos_part (upto -ℤ from))

-- Whether the statements of a round succeed: the query and the commit for the irreversible block, the
-- query for the first block, and those of the batch with the given bound.
pub record Statements : Type 0 where
  pub irreversible : Bool
  pub first_block : Bool
  pub deletes : ℤ → Bool

module _ (get_int : GetInt) (s : Statements) where
  -- The batches from a first block on, up to a block.
  unfoldable pub prune_from : ℤ → ℤ → Exec Cleaner (Unit {0})
  prune_from from upto c =
      let x = prune_loop s.deletes (rounds_for from upto) from upto c.tables in
      (x.0, record c { tables = x.1 })

  -- The round from the computation of uptoBlock on.
  unfoldable pub prune_round : Exec Cleaner (Unit {0})
  unfolding prune_from
  prune_round c =
      if s.first_block
      then elim (get_int (min_block c.tables.transactions)) [
        | none ↦ (thrown sql_error, c)
        | some from ↦ prune_from from (to_int32 (c.last_irrev -ℤ c.keep_blocks)) c
      ]
      else (thrown sql_error, c)

  -- The test of the irreversible block that was read, and the rest of the round: `continue` if it has
  -- not moved.
  unfoldable pub see_irreversible : ℤ → Exec Cleaner (Unit {0})
  unfolding prune_round
  see_irreversible min_irrev c =
      if leb_ℤ min_irrev c.last_irrev
      then (done tt, c)
      else prune_round (record c { last_irrev = min_irrev })

  -- The round from the query for the irreversible block on.
  unfoldable pub check_round : Exec Cleaner (Unit {0})
  unfolding see_irreversible
  check_round c =
      if s.irreversible
      then elim (get_int (min_irreversible c.tables.sync)) [
        | none ↦ (thrown sql_error, c)
        | some min_irrev ↦ see_irreversible min_irrev c
      ]
      else (thrown sql_error, c)

-- What a pass of the endless loop of Run meets: what isValid and reconnect answer, where a new session
-- sees the tables that are given, and its statements.
pub record Pass : Type 0 where
  pub valid : Bool
  pub reconnects : Option Tables
  pub statements : Statements

-- The connection in the pass.
unfoldable pub reconnect : Pass → Exec Cleaner (Unit {0})
reconnect p c = if p.valid then (done tt, c) else elim p.reconnects [
  | none ↦ (thrown no_reconnect, c)
  | some t ↦ (done tt, record c { tables = t })
]

-- One pass of the endless loop of Run.
unfoldable pub run_round : GetInt → Pass → Exec Cleaner (Unit {0})
unfolding reconnect check_round
run_round get_int p = do reconnect p; check_round get_int p.statements

-- getOptions, for the number of days that the option parser gives: false, with nothing stored, where
-- it throws.
unfoldable pub get_options : Option ℤ → Cleaner → Bool × Cleaner
get_options none c = (false, c)
get_options (some days) c = (true, record c { keep_blocks = kept_blocks days c.keep_blocks })

-- The endless loop of Run, which only an exception leaves; the list is fuel, one pass for each of its
-- elements.
unfoldable pub run_rounds : GetInt → List Pass → Exec Cleaner (Unit {0})
unfolding run_round
run_rounds get_int [] = throw out_of_rounds
run_rounds get_int (p ∷ more) = let rest = run_rounds get_int more in (do run_round get_int p; rest)

-- Database::Initialize: the driver's connect throws, or the session sees the given tables.
unfoldable pub connect : Option Tables → Exec Cleaner (Unit {0})
connect none c = (thrown sql_error, c)
connect (some t) c = (done tt, record c { connected = true; tables = t })

-- setAutoCommit and the four calls of prepareStatement.
abbrev prepare : Bool → Exec Cleaner (Unit {0})
prepare succeeds c = (if succeeds then done tt else thrown sql_error, c)

-- Cleaner::Run: without options it returns.
unfoldable pub run : GetInt → Option ℤ → Option Tables → Bool → List Pass → Exec Cleaner (Unit {0})
unfolding get_options connect run_rounds
run get_int days answer prepares passes c =
    let (parsed, c') = get_options days c in
    if parsed
    then (do connect answer; prepare prepares; run_rounds get_int passes) c'
    else (done tt, c')

-- Cleaner::Close, with Database::Close, for whether the driver's close succeeds; where it throws, the
-- connection stays. The deleted statements are not in the state.
unfoldable pub close : Bool → Exec Cleaner (Unit {0})
close closes c =
    if c.connected
    then (if closes then (done tt, record c { connected = false }) else (thrown sql_error, c))
    else (done tt, c)

-- The destructor of Cleaner, and that of Database, which closes again; both catch what Close throws.
unfoldable pub destroy : Bool → Bool → Cleaner → Cleaner
unfolding close
destroy closes again c = (close again (close closes c).1).1
