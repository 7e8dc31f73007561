-- ===== src/Writer/Acks.antt =====
-- When a completed block is acknowledged (the case 1010 of prototype/Writer.cpp).
use fio_relic.Base.{
  ℕ, List, [], ◌∷◌, Bool, true, false, ◌≡◌, refl, ◌⊎◌, if◌then◌else◌, arith, inl, inr,
}
use fio_relic.Base.Int.{ℤ, negsuc, ◌≤ℤ◌, ◌<ℤ◌, ◌-ℤ◌, leb_ℤ, ltb_ℤ, to_int32, leb_ℤ→le, ltb_ℤ→lt}
use fio_relic.Base.Exec.{Keeps, Outcome, done, continue-holds}
use fio_relic.External.{Rapidjson, ResultSets}
use fio_relic.Tables.{Transaction}
use fio_relic.Writer.State.{Writer, Env}
use fio_relic.Writer.Batch.{
  string_at, push_receipt, push_transaction, fork_traces, send_traces_batch, send_queue,
  write_queues,
}
use fio_relic.Writer.Messages.{commit_now, fork_bkp}
use fio_relic.Writer.Block.{absorb_block, confirm, report, reset_counters}
use fio_relic.Writer.Takeover.{check_master, become_master}
use fio_relic.Writer.{block_at, settle_block, confirm_block}
use fio_relic.Writer.Rules.{save_trace-kept}
use fio_relic.Writer.Checked.{check_master-kept}

-- The two counters agree: nothing is left to be confirmed.
abbrev IsSettled : Writer → Type 0
IsSettled w = w.unconfirmed_block ≡ w.confirmed_block

-- Fewer blocks than `ack_every` wait for an acknowledgement, or none does.
abbrev pub IsWithinBatch : Writer → Type 0
IsWithinBatch w =
    (w.unconfirmed_block ≤ℤ w.confirmed_block)
    ⊎ (w.unconfirmed_block -ℤ w.confirmed_block <ℤ w.ack_every)

IsSettled-IsWithinBatch : (w : Writer) → IsSettled w → IsWithinBatch w
IsSettled-IsWithinBatch w h = inl (rw h (omega arith))

IsSettled-send_queue :
    (w : Writer) (ts : List Transaction) → IsSettled w → IsSettled (send_queue ts w)
unfolding send_queue write_queues
IsSettled-send_queue w [] h = h
IsSettled-send_queue w (t ∷ ts) h = h

module _ (rs : ResultSets) (J : Rapidjson) where
  check_master-IsSettled :
      (rounds : ℕ) (n l : ℤ) (env : Env) → Keeps IsSettled (check_master rs J rounds n l env)
  unfolding become_master fork_traces commit_now fork_bkp push_receipt push_transaction
      send_traces_batch
  check_master-IsSettled = check_master-kept rs J IsSettled (record {
    becomes = λ w h. h;
    forks = λ n w h. h;
    saves = save_trace-kept J IsSettled (λ r w h. h) (λ t w h. h);
    sends = λ w h. IsSettled-send_queue w w.insert_transactions h;
    cleans = λ n w h. h;
  })

  -- A property of an action's result that is claimed where it returns.
  abbrev OnReturn : (Writer → Type 0) → Outcome ℤ × Writer → Type 0
  OnReturn P x = (r : ℤ) → x.0 ≡ done r → P x.1

  report-IsSettled : (now : ℕ) (w : Writer) → IsSettled w → OnReturn IsSettled (report now w)
  unfolding report reset_counters
  report-IsSettled now w h r e = ground arith

  confirm_block-IsSettled :
      (rounds : ℕ) (env : Env) (n l : ℤ) (json : J.Value) (w : Writer)
      → OnReturn IsSettled (confirm_block rs J rounds env n l json w)
  unfolding confirm_block confirm commit_now
  confirm_block-IsSettled rounds env n l json w =
      continue-holds (OnReturn IsSettled) (string_at J json "block_id") _ w
        (λ id _.
          continue-holds (OnReturn IsSettled) (check_master rs J rounds n l env (confirm w)).0 _
            (check_master rs J rounds n l env (confirm w)).1
            (λ _ _.
              report-IsSettled env.now _
                ((check_master-IsSettled rounds n l env).at (confirm w) refl))
            (λ e _ r h. cc))
        (λ e _ r h. cc)

  -- After a completed block that is processed without an exception, the blocks since the last
  -- confirmed one are fewer than `ack_every`, or there are none.
  pub block_at-IsWithinBatch :
      (rounds : ℕ) (env : Env) (n l : ℤ) (json : J.Value) (w : Writer) (r : ℤ)
      → (block_at rs J rounds env n l json w).0 ≡ done r
      → IsWithinBatch (block_at rs J rounds env n l json w).1
  unfolding block_at settle_block
  block_at-IsWithinBatch rounds env n l json w r =
      let w' = absorb_block n l w in
      settled w' r (leb_ℤ w'.unconfirmed_block w'.confirmed_block)
        (ltb_ℤ (w'.unconfirmed_block -ℤ w'.confirmed_block) w'.ack_every) refl refl
    where
      settled :
          (w' : Writer) (r : ℤ) (old few : Bool)
          → leb_ℤ w'.unconfirmed_block w'.confirmed_block ≡ old
          → ltb_ℤ (w'.unconfirmed_block -ℤ w'.confirmed_block) w'.ack_every ≡ few
          → let x : Outcome ℤ × Writer =
              if old
              then (done (to_int32 w'.unconfirmed_block), w')
              else if few
              then (done (negsuc 0), w')
              else confirm_block rs J rounds env n l json w' in
            x.0 ≡ done r → IsWithinBatch x.1
      settled w' r true few is_old is_few e =
          inl (leb_ℤ→le w'.unconfirmed_block w'.confirmed_block is_old)
      settled w' r false true is_old is_few e =
          inr (ltb_ℤ→lt (w'.unconfirmed_block -ℤ w'.confirmed_block) w'.ack_every is_few)
      settled w' r false false is_old is_few e =
          IsSettled-IsWithinBatch (confirm_block rs J rounds env n l json w').1
            (confirm_block-IsSettled rounds env n l json w' r e)
