-- ===== src/Writer/Reply.antt =====
-- What Writer::onRead writes back to its client (prototype/Writer.cpp).
use mathlib.Core.List.{append-nil}
use mathlib.Core.Path.{subst}
use fio_relic.Base.{ℕ, ◌-◌, ◌^◌, ◌≡◌, refl, List, [], ◌∷◌, ◌++◌, true, All, arith}
use fio_relic.Base.Int.{ℤ, pos, negsuc, ◌≤ℤ◌, FitsInt32, le→leb_ℤ, lt→leb_ℤ}
use fio_relic.Base.Bytes.{Bytes, stol}
use fio_relic.Base.Decimal.{to_string, stol-to_string}
use fio_relic.Base.Exec.{Outcome, done}
use fio_relic.External.{Rapidjson, ResultSets}
use fio_relic.Writer.State.{Writer, Env}
use fio_relic.Writer.Answers.{ReturnsInt, process_data-ReturnsInt}
use fio_relic.Writer.{on_read, process_data, verify_master, write_ack}

-- The texts that answer what processData returns.
abbrev pub replies : ℤ → List Bytes
replies (pos n) = to_string (pos n) ∷ []
replies (negsuc n) = []

replies-read_back :
    (ack : ℤ) → ack ≤ℤ pos (2 ^ 31 - 1) → All (λ text. stol text ≡ done ack) (replies ack)
replies-read_back (pos n) h = (stol-to_string (pos n) (omega arith) (omega arith), tt)
replies-read_back (negsuc n) h = tt

module _ (rs : ResultSets) (J : Rapidjson) where
  fits_int :
      (rounds : ℕ) (env : Env) (buffer : Bytes) (w v : Writer) (ack : ℤ)
      → process_data rs J rounds env buffer w ≡ (done ack, v)
      → FitsInt32 ack
  fits_int rounds env buffer w v ack processed =
      subst (λ (x : Outcome ℤ × Writer). ReturnsInt x.0) processed
        (process_data-ReturnsInt rs J rounds env buffer w)

  -- Where processData returns, a stream is there and the write succeeds, onRead returns too and changes
  -- nothing more than the texts sent: none behind them for a negative answer, and else one, from which
  -- std::stol reads the answer back. The answer is an int of 32 bits, whatever the message was.
  pub on_read-replies :
      (rounds : ℕ) (env : Env) (buffer : Bytes) (w v : Writer) (ack : ℤ)
      → process_data rs J rounds env buffer (verify_master env w) ≡ (done ack, v)
      → v.has_websocket ≡ true
      → env.writes ≡ true
      → (on_read rs J rounds env buffer w ≡ (done tt, record v { sent = v.sent ++ replies ack }))
        × All (λ text. stol text ≡ done ack) (replies ack)
        × FitsInt32 ack
  unfolding on_read write_ack
  on_read-replies rounds env buffer w v (pos n) processed there writes =
      let fits = fits_int rounds env buffer (verify_master env w) v (pos n) processed in
      (
        rw (processed, le→leb_ℤ (pos 0) (pos n) (omega arith), there, writes) refl,
        replies-read_back (pos n) fits.1,
        fits,
      )
  on_read-replies rounds env buffer w v (negsuc n) processed there writes = (
    rw (processed, lt→leb_ℤ (pos 0) (negsuc n) (omega arith), append-nil v.sent) refl,
    tt,
    fits_int rounds env buffer (verify_master env w) v (negsuc n) processed,
  )
