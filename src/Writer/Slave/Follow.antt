-- ===== src/Writer/Slave/Follow.antt =====
-- The end of a block, read by a slave (the case 1010 of Writer::processData in
-- prototype/Writer.cpp), beside a store that backs up each trace as it comes.
use fio_relic.Base.{
  ℕ, ◌+◌, ◌*◌, ◌^◌, [], map, Bool, true, false, ◌≡◌, refl, ◌∙◌, ◌⊎◌, inl, inr, if◌then◌else◌, ◌≤◌,
  arith,
}
use fio_relic.Base.Int.{ℤ, negsuc, ◌-ℤ◌, ◌<ℤ◌, ◌≤ℤ◌, ltb_ℤ, to_int32}
use fio_relic.Base.Exec.{Outcome, done}
use fio_relic.External.{Rapidjson, ResultSets}
use fio_relic.Tables.{Tables}
use fio_relic.Writer.State.{Writer}
use fio_relic.Writer.Messages.{commit_now}
use fio_relic.Writer.Block.{count_block, absorb_block, note_reversible, confirm, reset_counters}
use fio_relic.Writer.Takeover.{must_check}
use fio_relic.Writer.{on_block}
use fio_relic.Writer.Absorb.{SameRole-absorb_block}
use fio_relic.Writer.Durable.{block_at-answer, absorb_block-unconfirmed}
use fio_relic.Writer.Store.{row}
use fio_relic.Writer.Chain.{count_block-counted}
use fio_relic.Writer.Settled.{few_wait, BlockMessage, Waits, IsDurable}
use fio_relic.Writer.History.{Ends}
use fio_relic.Writer.Slave.Mirror.{
  Mirror, mirror, mirror_block, back_up_lem, absorb_block-HasMirrored,
}
use fio_relic.Writer.Slave.Queued.{IsAttached, queue_rows}

-- The slave has no cause to check the master: the block is irreversible, or at most a minute has
-- passed since the slave's retirement.
abbrev pub IsCalm : {J : Rapidjson} → ℕ → BlockMessage J → Type 0
IsCalm retired b = (b.number ≤ℤ b.irreversible) ⊎ (b.env.now ≤ retired + 60 * 10 ^ 9)

calm-must_check :
    (n l : ℤ) (now : ℕ) (w : Writer)
    → (n ≤ℤ l) ⊎ (now ≤ w.retired_time + 60 * 10 ^ 9)
    → must_check n l now (confirm w) ≡ false
unfolding must_check confirm commit_now
calm-must_check n l now w h = ground arith

same_mirror :
    {i j : ℤ} {t u : Tables}
    → i ≡ j
    → t ≡ u
    → ◌≡◌ {A = Mirror}
        (record { irreversible = i; tables = t })
        (record { irreversible = j; tables = u })
same_mirror e et = rw (e, et) refl

confirmed-IsDurable :
    (n : ℤ) (now : ℕ) (u : Writer)
    → u.unconfirmed_block ≡ n
    → IsDurable n (reset_counters now (confirm u))
unfolding reset_counters confirm commit_now
confirmed-IsDurable n now u e = (e, refl)

module _ {J : Rapidjson} where
  -- The slave has read a block: it holds what that store holds, and its queue is empty.
  pub record HasFollowed (b : BlockMessage J) (w w' : Writer) : Type 0 where
    pub attached : IsAttached w'
    pub sent : w'.sent ≡ w.sent
    pub source : w'.source_id ≡ w.source_id
    pub session : mirror w' ≡ mirror_block w.keep_blocks b (mirror w)
    pub queue : w'.insert_bkp_traces ≡ []
    pub keep : w'.keep_blocks ≡ w.keep_blocks
    pub retired : w'.retired_time ≡ w.retired_time

  -- The block's transactions are queued and the block is counted.
  abbrev loaded : BlockMessage J → Writer → Writer
  loaded b w = count_block (queue_rows (map row b.traces) w)

  absorbed : BlockMessage J → Writer → Writer
  absorbed b w = absorb_block b.number b.irreversible (loaded b w)

  absorbed-HasFollowed :
      (b : BlockMessage J) (w : Writer)
      → IsAttached w
      → w.insert_bkp_traces ≡ []
      → HasFollowed b w (absorbed b w)
  unfolding absorbed count_block queue_rows
  absorbed-HasFollowed b w k empty =
      let v = loaded b w in
      let s = SameRole-absorb_block b.number b.irreversible v in
      let h = absorb_block-HasMirrored b.number b.irreversible v k.slave in
      record {
        attached = record {
          slave = s.master ∙ k.slave;
          connected = s.link.connected ∙ k.connected;
          has_websocket = s.link.has_websocket ∙ k.has_websocket;
        };
        sent = s.link.sent;
        source = s.link.source;
        session = same_mirror h.irreversible (h.tables ∙ rw (empty, back_up_lem b.traces _) refl);
        queue = h.queue;
        keep = h.keep;
        retired = s.retired;
      }

  confirmed-HasFollowed :
      (b : BlockMessage J) (now : ℕ) (w u : Writer)
      → HasFollowed b w u
      → HasFollowed b w (reset_counters now (confirm u))
  unfolding reset_counters confirm commit_now
  confirmed-HasFollowed b now w u h = record {
    attached = record {
      slave = h.attached.slave;
      connected = h.attached.connected;
      has_websocket = h.attached.has_websocket;
    };
    sent = h.sent;
    source = h.source;
    session = h.session;
    queue = h.queue;
    keep = h.keep;
    retired = h.retired;
  }

module _ (rs : ResultSets) (J : Rapidjson) (rounds : ℕ) where
  -- A block above the one that it calls the last irreversible one is confirmed.
  abbrev pub IsPrompt : BlockMessage J → Writer → Type 0
  IsPrompt b w' = b.irreversible <ℤ b.number → w'.confirmed_block ≡ b.number

  -- What the end of a block is to do for a slave.
  abbrev pub IsFollowed : BlockMessage J → Writer → Outcome ℤ × Writer → Type 0
  IsFollowed b w x =
      (r : ℤ) × (x.0 ≡ done r) × HasFollowed b w x.1 × Ends b.number w r x.1 × IsPrompt b x.1

  -- A block behind its queued transactions.
  pub on_block-IsFollowed :
      (b : BlockMessage J) (w : Writer)
      → IsAttached w
      → w.insert_bkp_traces ≡ []
      → w.confirmed_block <ℤ b.number
      → IsCalm w.retired_time b
      → IsFollowed b w (on_block rs J rounds b.env b.json (queue_rows (map row b.traces) w))
  unfolding on_block queue_rows count_block absorbed
  on_block-IsFollowed b w k empty above calm =
      let v = loaded b w in
      let u = absorbed b w in
      let s = SameRole-absorb_block b.number b.irreversible v in
      let h = absorbed-HasFollowed b w k empty in
      rw
        (
          b.has_time,
          b.has_irreversible,
          b.has_number,
          block_at-answer rs J rounds w.blocks_counter b.env b.number b.irreversible b.json b.id v
              b.has_id (calm-must_check b.number b.irreversible b.env.now u (rw h.retired calm))
              (count_block-counted (queue_rows (map row b.traces) w)) above,
        )
        (followed
          (ltb_ℤ (b.number -ℤ v.confirmed_block)
            (note_reversible b.number b.irreversible v).ack_every)
          (few_wait b.number b.irreversible v above) h (confirmed-HasFollowed b b.env.now w u h)
          (s.confirmed, s.durable)
          (confirmed-IsDurable b.number b.env.now u
            (absorb_block-unconfirmed b.number b.irreversible v)))
    where
      followed :
          (few : Bool) {waiting acknowledged : Writer}
          → (few ≡ true → b.number ≤ℤ b.irreversible)
          → HasFollowed b w waiting
          → HasFollowed b w acknowledged
          → Waits w waiting
          → IsDurable b.number acknowledged
          → IsFollowed b w
              (if few then (done (negsuc 0), waiting) else (done (to_int32 b.number), acknowledged))
      followed true wait read read' waits durable =
          let old = wait refl in
          (negsuc 0, refl, read, inl (refl, waits), λ above. absurd (omega arith))
      followed false wait read read' waits durable =
          (to_int32 b.number, refl, read', inr (refl, durable), λ above. durable.0)
