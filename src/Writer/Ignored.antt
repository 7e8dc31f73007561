-- ===== src/Writer/Ignored.antt =====
-- Messages that Writer::processData reads and drops (prototype/Writer.cpp).
use fio_relic.Base.{
  arith, not, ◌≢◌, ◌⊎◌, inl, inr, ℕ, List, [], Bool, true, false, ◌≡◌, refl, if◌then◌else◌,
}
use fio_relic.Base.Int.{ℤ, negsuc}
use fio_relic.Base.Bytes.{Bytes, codes, same_ignoring_case}
use fio_relic.Base.Exec.{Outcome, done, pure, from_outcome, ◌>>=◌}
use fio_relic.External.{Rapidjson, ResultSets}
use fio_relic.Writer.State.{Writer, Env}
use fio_relic.Writer.{dispatch}
use fio_relic.Writer.Batch.{string_at, object_at, array_at}
use fio_relic.Writer.Messages.{long_at, on_trace, trace_at, on_new_trace, keep_if_any}

-- A trace that is read and dropped: it was not executed, or it has no action trace.
pub record IsUnstored (J : Rapidjson) (json : J.Value) : Type 0 where
  pub number : ℤ
  pub trace : J.Value
  pub status : Bytes
  pub has_block : long_at J json "block_num" ≡ done number
  pub has_trace : object_at J json "trace" ≡ done trace
  pub has_status : string_at J trace "status" ≡ done status
  pub nothing :
      (same_ignoring_case status (codes "executed") ≡ false)
      ⊎ (array_at J trace "action_traces" ≡ done [])

-- A message of a type that the switch does not name, or such a trace.
abbrev pub IsIgnored : (J : Rapidjson) → ℕ → J.Value → Type 0
IsIgnored J msg_type json =
    ((msg_type ≢ 1001) × (msg_type ≢ 1003) × (msg_type ≢ 1010))
    ⊎ ((msg_type ≡ 1003) × IsUnstored J json)

module _ (J : Rapidjson) where
  on_new_trace-unstored :
      (k : ℤ) (json : J.Value) (text : Bytes) (w : Writer)
      → (u : IsUnstored J json) → on_new_trace J k json text w ≡ (done (negsuc 0), w)
  unfolding on_new_trace keep_if_any
  on_new_trace-unstored k json text w u =
      rw (u.has_trace, u.has_status)
        (dropped (same_ignoring_case u.status (codes "executed"))
          (array_at J u.trace "action_traces") u.nothing)
    where
      dropped :
          (executed : Bool) (items : Outcome (List J.Value))
          → (executed ≡ false) ⊎ (items ≡ done [])
          → (if not executed
                then pure (negsuc 0)
                else do vs ← from_outcome items; keep_if_any J k json u.trace vs text)
              w
            ≡ (done (negsuc 0), w)
      dropped false items h = refl
      dropped true items (inl h) = absurd (ground arith)
      dropped true items (inr h) = rw h refl

  trace_at-unstored :
      (k : ℤ) (json : J.Value) (text : Bytes) (w : Writer)
      → IsUnstored J json
      → trace_at J k json text w ≡ (done (negsuc 0), w)
  unfolding trace_at
  trace_at-unstored k json text w u = ground (arith, on_new_trace-unstored k json text w u)

module _ (rs : ResultSets) (J : Rapidjson) (rounds : ℕ) where
  pub dispatch-ignored :
      (env : Env) (msg_type : ℕ) (json : J.Value) (text : Bytes) (w : Writer)
      → IsIgnored J msg_type json
      → dispatch rs J rounds env msg_type json text w ≡ (done (negsuc 0), w)
  unfolding dispatch on_trace
  dispatch-ignored env msg_type json text w (inl (fork, trace, block)) = ground arith
  dispatch-ignored env msg_type json text w (inr (e, u)) =
      rw (e, u.has_block) (trace_at-unstored J u.number json text w u)
