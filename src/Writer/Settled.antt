-- ===== src/Writer/Settled.antt =====
-- A completed block behind its traces, read by a master (the cases 1003 and 1010 of
-- Writer::processData in prototype/Writer.cpp): it waits or is acknowledged.
use fio_relic.Base.{
  arith, ap, ℕ, List, map, true, false, ◌≡◌, refl, Bool, ◌∙◌, if◌then◌else◌, ◌⊎◌, inl, inr,
}
use fio_relic.Base.Int.{ℤ, ◌<ℤ◌, ◌≤ℤ◌, ltb_ℤ, negsuc, ◌-ℤ◌, to_int32}
use fio_relic.Base.Bytes.{Bytes}
use fio_relic.Base.Exec.{Outcome, done}
use fio_relic.External.{Rapidjson, ResultSets}
use fio_relic.Writer.State.{Writer, Env}
use fio_relic.Writer.Batch.{string_at}
use fio_relic.Writer.Messages.{long_at, get_block_time, commit_now}
use fio_relic.Writer.Block.{count_block, note_reversible, absorb_block, reset_counters, confirm}
use fio_relic.Writer.{on_block}
use fio_relic.Writer.Fork.{HasEmptyQueues}
use fio_relic.Writer.Queues.{AfterBatch}
use fio_relic.Writer.Durable.{
  IsConfirmed-absorb_block, absorb_block-AfterBatch, absorb_block-not_due, block_at-answer,
}
use fio_relic.Writer.Absorb.{
  later, absorb_block-later, SameLink, SameLink-trans, SameRole-absorb_block,
}
use fio_relic.Writer.Queues.{IsQueued}
use fio_relic.Writer.Growth.{Grew}
use fio_relic.Writer.Store.{Agrees, TraceMessage, row, write_all, receipts_of}
use fio_relic.Writer.Chain.{
  IsReady, written-Agrees, count_block-IsQueued, count_block-Grew, count_block-counted,
}

-- A completed block with the transactions that precede it, and the environment in which it is read:
-- parts that the case reads can be read.
pub record BlockMessage (J : Rapidjson) : Type 0 where
  pub number : ℤ
  pub traces : List (TraceMessage J number)
  pub json : J.Value
  pub env : Env
  pub irreversible : ℤ
  pub time : Bytes
  pub id : Bytes
  pub has_time : get_block_time J json ≡ done time
  pub has_irreversible : long_at J json "last_irreversible" ≡ done irreversible
  pub has_number : long_at J json "block_num" ≡ done number
  pub has_id : string_at J json "block_id" ≡ done id

-- What a master has done behind such a block: its session is that of a store that writes each
-- message at once, its queues are empty, and it knows the last irreversible block.
pub record HasRead (J : Rapidjson) (b : BlockMessage J) (w w' : Writer) : Type 0 where
  pub master : w'.i_am_master ≡ true
  pub writes : w'.no_traces ≡ false
  pub queues : HasEmptyQueues w'
  pub session : Agrees w'.working (write_all b.traces w.working)
  pub link : SameLink w w'
  pub irreversible : w'.irreversible ≡ later w.irreversible b.irreversible

-- The block waits for its acknowledgement, and nothing was committed.
abbrev pub Waits : Writer → Writer → Type 0
Waits w w' = (w'.confirmed_block ≡ w.confirmed_block) × (w'.committed ≡ w.committed)

-- The block is confirmed, and everything is committed.
abbrev pub IsDurable : ℤ → Writer → Type 0
IsDurable n w' = (w'.confirmed_block ≡ n) × (w'.committed ≡ w'.working)

HasRead-AfterBatch :
    (J : Rapidjson) (b : BlockMessage J) (w v w' : Writer)
    → HasEmptyQueues w
    → Grew (map (row {J = J} {n = b.number}) b.traces) (receipts_of b.traces) w v
    → w'.i_am_master ≡ true
    → w'.no_traces ≡ false
    → SameLink v w'
    → AfterBatch v w'
    → w'.irreversible ≡ later v.irreversible b.irreversible
    → HasRead J b w w'
HasRead-AfterBatch J b w v w' empty g master writes link a noted = record {
  master = master;
  writes = writes;
  queues = a.queues;
  session = written-Agrees J b.number b.traces w v w' empty g a;
  link = SameLink-trans w v w' g.link link;
  irreversible = noted ∙ ap (λ (i : ℤ). later i b.irreversible) g.irreversible;
}

acknowledged-role :
    (now : ℕ) (w : Writer)
    → let w' = reset_counters now (confirm w) in
      (w'.i_am_master ≡ w.i_am_master) × (w'.no_traces ≡ w.no_traces) × SameLink w w'
unfolding reset_counters confirm commit_now
acknowledged-role now w =
    (refl, refl, record { connected = refl; has_websocket = refl; sent = refl; source = refl })

reset-irreversible :
    (now : ℕ) (w : Writer) → (reset_counters now (confirm w)).irreversible ≡ w.irreversible
unfolding reset_counters confirm commit_now
reset-irreversible now w = refl

-- A block that is not irreversible does not wait.
pub few_wait :
    (n l : ℤ) (w : Writer)
    → w.confirmed_block <ℤ n
    → ltb_ℤ (n -ℤ w.confirmed_block) (note_reversible n l w).ack_every ≡ true
    → n ≤ℤ l
unfolding note_reversible ◌-ℤ◌
few_wait n l w above few = ground arith

count_block-IsReady :
    (J : Rapidjson) (n : ℤ) (w : Writer) → IsReady J n w → IsReady J n (count_block w)
unfolding count_block
count_block-IsReady J n w r = record { master = r.master; writes = r.writes; above = r.above }

module _ (rs : ResultSets) (J : Rapidjson) (rounds : ℕ) where
  -- The two ends of a block: it waits, with the answer -1, and is irreversible, or it is acknowledged.
  abbrev pub Settles : BlockMessage J → Writer → Outcome ℤ × Writer → Type 0
  Settles b w x =
      HasRead J b w x.1
      × (((x.0 ≡ done (negsuc 0)) × Waits w x.1 × (b.number ≤ℤ b.irreversible))
          ⊎ ((x.0 ≡ done (to_int32 b.number)) × IsDurable b.number x.1))

  -- A block behind a state that has grown by its traces.
  pub on_block-Settles :
      (b : BlockMessage J) (w u : Writer)
      → HasEmptyQueues w
      → Grew (map (row {J = J} {n = b.number}) b.traces) (receipts_of b.traces) w u
      → IsQueued u
      → IsReady J b.number u
      → Settles b w (on_block rs J rounds b.env b.json u)
  unfolding on_block
  on_block-Settles b w u empty grew queued ready =
      let v = count_block u in
      let g = count_block-Grew _ _ w u grew in
      let q = count_block-IsQueued u queued in
      let s = SameRole-absorb_block b.number b.irreversible v in
      let r = count_block-IsReady J b.number u ready in
      let c = IsConfirmed-absorb_block b.number b.irreversible b.env.now v r.master q in
      let a = absorb_block-AfterBatch b.number b.irreversible v r.master q in
      let noted = absorb_block-later b.number b.irreversible v in
      let (master, writes, link) =
        acknowledged-role b.env.now (absorb_block b.number b.irreversible v) in
      rw
        (
          b.has_time,
          b.has_irreversible,
          b.has_number,
          block_at-answer rs J rounds u.blocks_counter b.env b.number b.irreversible b.json b.id v
              b.has_id (absorb_block-not_due b.number b.irreversible b.env.now v r.master)
              (count_block-counted u) r.above,
        )
        (settles
          (ltb_ℤ (b.number -ℤ v.confirmed_block)
            (note_reversible b.number b.irreversible v).ack_every)
          (few_wait b.number b.irreversible v r.above)
          (HasRead-AfterBatch J b w v _ empty g (s.master ∙ r.master) (s.writes ∙ r.writes) s.link a
            noted)
          (HasRead-AfterBatch J b w v _ empty g (master ∙ s.master ∙ r.master)
            (writes ∙ s.writes ∙ r.writes) (SameLink-trans v _ _ s.link link) c.batch
            (reset-irreversible b.env.now (absorb_block b.number b.irreversible v) ∙ noted))
          (s.confirmed ∙ g.confirmed, s.durable ∙ g.tables.1) (c.confirmed, c.durable))
    where
      settles :
          (few : Bool) {waiting acknowledged : Writer}
          → (few ≡ true → b.number ≤ℤ b.irreversible)
          → HasRead J b w waiting
          → HasRead J b w acknowledged
          → Waits w waiting
          → IsDurable b.number acknowledged
          → Settles b w
              (if few then (done (negsuc 0), waiting) else (done (to_int32 b.number), acknowledged))
      settles true wait read read' waits durable = (read, inl (refl, waits, wait refl))
      settles false wait read read' waits durable = (read', inr (refl, durable))

  pub Settles-done :
      (b : BlockMessage J) (w : Writer) (x : Outcome ℤ × Writer)
      → Settles b w x
      → (r : ℤ) × (x ≡ (done r, x.1)) × Settles b w (done r, x.1)
  Settles-done b w x (h, inl (e, waits, old)) =
      (negsuc 0, ap (λ (o : Outcome ℤ). (o, x.1)) e, (h, inl (refl, waits, old)))
  Settles-done b w x (h, inr (e, durable)) =
      (to_int32 b.number, ap (λ (o : Outcome ℤ). (o, x.1)) e, (h, inr (refl, durable)))
