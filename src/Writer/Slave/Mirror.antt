-- ===== src/Writer/Slave/Mirror.antt =====
-- A store that keeps, of the blocks that a slave reads, what the backup table is to hold, the
-- description of what the slave's queue and its clearing of old rows come to (prototype/Writer.cpp,
-- the case 1010).
use fio_relic.Base.{List, [], ◌∷◌, ◌++◌, map, false, ◌≡◌, refl, ap, ◌∙◌, if◌then◌else◌, arith}
use fio_relic.Base.Int.{ℤ, pos, ◌-ℤ◌, leb_ℤ, ltb_ℤ, to_int32}
use fio_relic.External.{Rapidjson}
use fio_relic.Tables.{
  Tables, Trace, insert_trace, insert_traces, clean_bkp, prune_traces, prune_receipts,
}
use fio_relic.Writer.State.{Writer}
use fio_relic.Writer.Block.{
  absorb_block, note_reversible, note_irreversible, prune_history, flush_queues, send_bkp_batch,
  set_unconfirmed,
}
use fio_relic.Writer.Store.{TraceMessage, row}
use fio_relic.Writer.Absorb.{later}
use fio_relic.Writer.History.{last_irreversible}
use fio_relic.Writer.Settled.{BlockMessage}

-- The last irreversible block that was seen, and the tables.
pub record Mirror : Type 0 where
  pub irreversible : ℤ
  pub tables : Tables

abbrev pub mirror : Writer → Mirror
mirror w = record { irreversible = w.irreversible; tables = w.working }

-- Block l is irreversible: the backup loses the rows below all sources' last irreversible blocks,
-- and the history those more than `keep` blocks below l, unless `keep` is negative.
abbrev pub forget : ℤ → ℤ → Tables → Tables
forget keep l t =
    let upto = to_int32 (l -ℤ keep) in
    record t {
      bkp_traces = clean_bkp t.sync t.bkp_traces;
      receipts = if leb_ℤ (pos 0) keep then prune_receipts upto t.receipts else t.receipts;
      transactions =
          if leb_ℤ (pos 0) keep then prune_traces upto t.transactions else t.transactions;
    }

abbrev pub move_on : ℤ → ℤ → Mirror → Mirror
move_on keep l m =
    if ltb_ℤ m.irreversible l
    then record { irreversible = l; tables = forget keep l m.tables }
    else m

module _ {J : Rapidjson} where
  -- A store that writes the transactions into the backup, each as it comes.
  unfoldable pub back_up : {n : ℤ} → List (TraceMessage J n) → Tables → Tables
  back_up [] t = t
  back_up (m ∷ ms) t = back_up ms (record t { bkp_traces = insert_trace t.bkp_traces (row m) })

  pub back_up_lem :
      {n : ℤ} (ms : List (TraceMessage J n)) (t : Tables)
      → back_up ms t
        ≡ record t { bkp_traces = insert_traces t.bkp_traces (map (row {J = J} {n = n}) ms) }
  unfolding back_up insert_traces
  back_up_lem [] t = refl
  back_up_lem (m ∷ ms) t =
      back_up_lem ms (record t { bkp_traces = insert_trace t.bkp_traces (row m) })

  -- A completed block: what it makes irreversible goes first, and then its transactions come.
  abbrev pub mirror_block : ℤ → BlockMessage J → Mirror → Mirror
  mirror_block keep b m =
      let m' = move_on keep b.irreversible m in record m' { tables = back_up b.traces m'.tables }

  unfoldable pub mirror_blocks : ℤ → List (BlockMessage J) → Mirror → Mirror
  mirror_blocks keep [] m = m
  mirror_blocks keep (b ∷ bs) m = mirror_blocks keep bs (mirror_block keep b m)

  pub mirror_blocks-snoc :
      (keep : ℤ) (bs : List (BlockMessage J)) (b : BlockMessage J) (m : Mirror)
      → mirror_blocks keep (bs ++ b ∷ []) m ≡ mirror_block keep b (mirror_blocks keep bs m)
  unfolding mirror_blocks
  mirror_blocks-snoc keep [] b m = refl
  mirror_blocks-snoc keep (a ∷ bs) b m = mirror_blocks-snoc keep bs b (mirror_block keep a m)

-- What a slave has done with its queue `ts` and the last irreversible block l, in `w'` after `w`.
pub record HasMirrored (l : ℤ) (ts : List Trace) (w w' : Writer) : Type 0 where
  pub irreversible : w'.irreversible ≡ (move_on w.keep_blocks l (mirror w)).irreversible
  pub tables :
      let t = (move_on w.keep_blocks l (mirror w)).tables in
      w'.working ≡ record t { bkp_traces = insert_traces t.bkp_traces ts }
  pub queue : w'.insert_bkp_traces ≡ []
  pub keep : w'.keep_blocks ≡ w.keep_blocks

-- What precedes the slave's batch.
record HasMovedOn (l : ℤ) (w w' : Writer) : Type 0 where
  mirrored : mirror w' ≡ move_on w.keep_blocks l (mirror w)
  queue : w'.insert_bkp_traces ≡ w.insert_bkp_traces
  keep : w'.keep_blocks ≡ w.keep_blocks
  slave : w'.i_am_master ≡ false

-- What a slave does with the numbers of a block.
noted-HasMovedOn :
    (n l : ℤ) (w : Writer)
    → w.i_am_master ≡ false
    → HasMovedOn l w (note_irreversible l (note_reversible n l w))
unfolding note_irreversible note_reversible prune_history
noted-HasMovedOn n l w slave = record {
  mirrored = ground arith;
  queue = ground arith;
  keep = ground arith;
  slave = ground arith;
}

flush_queues-slave : (w : Writer) → w.i_am_master ≡ false → flush_queues w ≡ send_bkp_batch w
unfolding flush_queues
flush_queues-slave w slave = rw slave refl

pub absorb_block-HasMirrored :
    (n l : ℤ) (w : Writer)
    → w.i_am_master ≡ false
    → HasMirrored l w.insert_bkp_traces w (absorb_block n l w)
unfolding absorb_block set_unconfirmed send_bkp_batch
absorb_block-HasMirrored n l w slave =
    let v = note_irreversible l (note_reversible n l w) in
    let h = noted-HasMovedOn n l w slave in
    rw (flush_queues-slave v h.slave) (record {
      irreversible = ap (λ (m : Mirror). m.irreversible) h.mirrored;
      tables = rw h.queue (
          ap
            (λ (m : Mirror). record m.tables {
              bkp_traces = insert_traces m.tables.bkp_traces w.insert_bkp_traces;
            })
            h.mirrored);
      queue = refl;
      keep = h.keep;
    })

move_on-later : (keep l : ℤ) (m : Mirror) → (move_on keep l m).irreversible ≡ later m.irreversible l
move_on-later keep l m = ground arith

-- The last irreversible block is the latest that the blocks name.
pub mirror_blocks-irreversible :
    {J : Rapidjson} (keep : ℤ) (bs : List (BlockMessage J)) (m : Mirror)
    → (mirror_blocks keep bs m).irreversible ≡ last_irreversible m.irreversible bs
unfolding mirror_blocks last_irreversible
mirror_blocks-irreversible keep [] m = refl
mirror_blocks-irreversible keep (b ∷ bs) m =
    mirror_blocks-irreversible keep bs (mirror_block keep b m)
    ∙ ap (λ (i : ℤ). last_irreversible i bs) (move_on-later keep b.irreversible m)
