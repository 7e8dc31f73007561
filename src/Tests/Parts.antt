-- ===== src/Tests/Parts.antt =====
-- The cleaner, the server, the formatted output and the end of the program.
use fio_relic.Base.{
  any, ◌+◌, true, false, ℕ, List, [], ◌∷◌, ◌++◌, ◌≡◌, refl, some, arith, All, length,
}
use fio_relic.Base.Int.{ℤ, pos, ltb_ℤ, to_int32, ◌+ℤ◌, ◌-ℤ◌, ◌<ℤ◌, ◌≤ℤ◌}
use fio_relic.Base.Bytes.{Bytes, codes, c_str, bytes_eq}
use fio_relic.Base.Exec.{done, modify, pure}
use fio_relic.External.{checked_int, checked_int-IsDocumentedInt}
use fio_relic.Tables.{Tables, Transaction, prune_traces, minimum}
use fio_relic.Cleaner.{Cleaner, Statements, new_cleaner, prune_loop, check_round}
use fio_relic.Cleaner.Prune.{pruned, prune_loop_lem}
use fio_relic.Cleaner.Safety.{KeepsFrom, check_round_safe}
use fio_relic.Cleaner.Rounds.{check_round_lem, check_round_default}
use fio_relic.Server.{Connection, serve, read}
use fio_relic.Server.Service.{serve_once, Throws}
use fio_relic.Utils.{crlf, Arg, warning, prefix, format_v, write_v}
use fio_relic.Utils.Format.{format_v_lem, write_v_plain}
use fio_relic.Options.{string, std_out_configuration, std_out_whole_configuration, print_options}
use fio_relic.Options.Printing.{std_out_configuration_lem}
use fio_relic.Tests.{tables}

abbrev trx_at : ℕ → Transaction
trx_at n = record { seq = n; block_num = pos n; block_time = []; trx_id = []; trace = [] }

-- Blocks below and above the irreversible block 90 of the table SYNC.
abbrev full : Tables
full = record tables { transactions = trx_at 60 ∷ trx_at 75 ∷ trx_at 90 ∷ trx_at 95 ∷ [] }

prune_loop_lem_example :
    prune_loop (λ b. true) 26 (pos 60) (pos 85) full ≡ (done tt, pruned (pos 60) (pos 85) full)
unfolding ◌-ℤ◌ ◌+ℤ◌
prune_loop_lem_example =
    prune_loop_lem (λ b. true) 26 (pos 60) (pos 85) full (λ b. refl) (ground arith) (ground arith)
      (omega arith)

abbrev keeping : Cleaner
keeping = record (new_cleaner full) { keep_blocks = pos 10 }

-- A round of which every statement succeeds.
abbrev answering : Statements
answering = record { irreversible = true; first_block = true; deletes = λ b. true }

check_round_lem_example :
    let x = check_round checked_int answering keeping in
    (x.0 ≡ done tt)
    × (x.1.last_irrev ≡ pos 90)
    × (x.1.tables.transactions ≡ prune_traces (pos 90 -ℤ pos 10) full.transactions)
    × (x.1.tables.sync ≡ tables.sync)
unfolding minimum ◌-ℤ◌ ◌+ℤ◌
check_round_lem_example =
    check_round_lem checked_int checked_int-IsDocumentedInt answering (λ b. refl) refl refl keeping
      (pos 90) refl (ground arith) (omega arith) (λ k e. ground arith) (ground arith) (ground arith)

check_round_default_example :
    All
      (λ (r : Transaction). pos 90 <ℤ r.block_num)
      (check_round checked_int answering (new_cleaner full)).1.tables.transactions
unfolding minimum ◌+ℤ◌
check_round_default_example =
    check_round_default checked_int checked_int-IsDocumentedInt answering (λ b. refl) refl refl full
      (pos 90) refl (omega arith) (omega arith) (λ k e. ground arith)

-- A round whose second batch fails.
abbrev failing : Statements
failing = record { irreversible = true; first_block = true; deletes = λ b. ltb_ℤ b (pos 75) }

check_round_safe_example :
    let c' = (check_round checked_int failing keeping).1 in
    (pos 0 ≤ℤ c'.last_irrev) × KeepsFrom (to_int32 (c'.last_irrev -ℤ pos 10)) full c'.tables
check_round_safe_example = check_round_safe checked_int failing keeping

abbrev caller : Connection ℕ
caller = record { handshake = true; messages = 4 ∷ 6 ∷ [] }

-- A server that adds what it reads.
serve_once_example :
    let x =
      serve (λ n. n) (λ m. modify (λ n. n + m)) (pure tt) (some caller ∷ some caller ∷ []) 0 in
    Throws x × (x ≡ read (λ n. n) (λ m. modify (λ n. n + m)) (pure tt) caller 0)
serve_once_example =
    serve_once (λ n. n) (λ m. modify (λ n. n + m)) (pure tt) caller (some caller ∷ []) 0

-- A printf that knows no conversions.
abbrev copy : Bytes → List Arg → Bytes
copy format args = format

format_v_lem_example :
    (length (format_v copy (codes "ready") []).0 ≡ 4095)
    × ((format_v copy (codes "ready") []).1 ≡ false)
format_v_lem_example = format_v_lem copy (codes "ready") []

abbrev no_number : ℤ → Bytes
no_number n = []

abbrev no_double : ℕ → Bytes
no_double n = []

std_out_configuration_lem_example :
    (std_out_configuration no_number no_double
        ((codes "ip", string (codes "0")) ∷ [])
        (codes "ip" ∷ [])
      ≡ codes "Configuration:" ++ crlf)
    × (std_out_whole_configuration no_number no_double
          ((codes "db-password", string (codes "secret")) ∷ [])
        ≡ codes "Configuration:" ++ crlf ++ codes "db-password=secret" ++ crlf)
unfolding std_out_configuration std_out_whole_configuration print_options any bytes_eq c_str
std_out_configuration_lem_example =
    std_out_configuration_lem no_number no_double [] [] (codes "ip", string (codes "0"))
      (codes "db-password") (codes "secret") (codes "ip" ∷ [])

write_v_plain_example :
    write_v copy warning (codes "ready") [] ≡ (codes "WARNING: ready" ++ 13 ∷ 10 ∷ []) ∷ []
unfolding prefix
write_v_plain_example =
    write_v_plain copy warning (codes "ready") [] (λ n e. absurd (ground arith)) (omega arith)
      (omega arith) refl
