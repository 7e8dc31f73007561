-- ===== src/Writer/Buffers.antt =====
-- The bytes of the messages that precede the end of a block, and what they leave in the queues of a
-- master (Writer::onRead in prototype/Writer.cpp).
use mathlib.Core.List.{append-nil}
use fio_relic.Base.{
  Option, none, ℕ, List, [], ◌∷◌, ◌++◌, map, Bool, true, false, ◌≡◌, refl, ap, ◌∙◌, ◌&&◌,
  if◌then◌else◌, some,
}
use fio_relic.Base.Int.{ℤ}
use fio_relic.Base.Bytes.{Bytes}
use fio_relic.Base.Exec.{done}
use fio_relic.External.{Rapidjson}
use fio_relic.Tables.{Transaction, Receipt}
use fio_relic.Writer.State.{Writer, Env}
use fio_relic.Writer.{split_message, verify_master, still_master}
use fio_relic.Writer.Queues.{IsQueued}
use fio_relic.Writer.Runs.{verify_master-IsQueued}
use fio_relic.Writer.Growth.{
  Grew, Grew-refl, Grew-trans, push_trace, push_trace-Grew, push_trace-IsQueued,
}
use fio_relic.Writer.Store.{TraceMessage, row, receipts_of}
use fio_relic.Writer.Chain.{IsReady, Grew-IsReady}
use fio_relic.Writer.Ignored.{IsIgnored}

-- What a message says: a transaction of block n to store, or nothing.
abbrev pub Says : (J : Rapidjson) (n : ℤ) → Option (TraceMessage J n) → ℕ → J.Value → Bytes → Type 0
Says J n none msg_type json text = IsIgnored J msg_type json
Says J n (some m) msg_type json text = (msg_type ≡ 1003) × (json ≡ m.json) × (text ≡ m.text)

-- The bytes of a message that precedes the end of block n, and what its reading meets.
pub record TraceBuffer (J : Rapidjson) (n : ℤ) : Type 0 where
  pub message : Option (TraceMessage J n)
  pub buffer : Bytes
  pub msg_type : ℕ
  pub opts : ℕ
  pub text : Bytes
  pub json : J.Value
  pub env : Env
  pub valid : env.valid ≡ true
  pub writes : env.writes ≡ true
  pub header : split_message buffer ≡ done (msg_type, opts, text)
  pub parsed : J.parse text ≡ some json
  pub says : Says J n message msg_type json text

-- A writer with a connection and a stream, which SYNC calls the master.
pub record IsLinked (w : Writer) : Type 0 where
  pub connected : w.connected ≡ true
  pub has_websocket : w.has_websocket ≡ true
  pub listed : still_master w.source_id w.working.sync ≡ true

pub IsLinked-Grew :
    (ts : List Transaction) (rows : List Receipt) (w w' : Writer)
    → Grew ts rows w w'
    → IsLinked w
    → IsLinked w'
IsLinked-Grew ts rows w w' g k = record {
  connected = g.link.connected ∙ k.connected;
  has_websocket = g.link.has_websocket ∙ k.has_websocket;
  listed = rw (g.link.source, g.tables.0) k.listed;
}

-- A master that SYNC lists stays one, and nothing is queued.
pub verify_master-Grew : (env : Env) (w : Writer) → IsLinked w → Grew [] [] w (verify_master env w)
unfolding verify_master
verify_master-Grew env w k = rw k.listed (verified (w.i_am_master && w.just_committed))
  where
    verified :
        (flag : Bool) → Grew [] [] w (if flag then record w { just_committed = false } else w)
    verified true =
        let g = Grew-refl w in
        record {
          transactions = g.transactions;
          receipts = g.receipts;
          master = refl;
          writes = refl;
          confirmed = refl;
          irreversible = refl;
          tables = (refl, refl);
          link = record { connected = refl; has_websocket = refl; sent = refl; source = refl };
        }
    verified false = Grew-refl w

-- A step that queues nothing.
pub Grew-then :
    (ts : List Transaction) (rows : List Receipt) (u v w : Writer)
    → Grew ts rows u v
    → Grew [] [] v w
    → Grew ts rows u w
Grew-then ts rows u v w a b =
    let g = Grew-trans ts [] rows [] u v w a b in
    record {
      transactions =
          g.transactions
          ∙ ap (λ (l : List Transaction). u.insert_transactions ++ l) (append-nil ts);
      receipts = g.receipts ∙ ap (λ (l : List Receipt). u.insert_receipts ++ l) (append-nil rows);
      master = g.master;
      writes = g.writes;
      confirmed = g.confirmed;
      irreversible = g.irreversible;
      tables = g.tables;
      link = g.link;
    }

module _ {J : Rapidjson} {n : ℤ} where
  abbrev pub with_message :
      Option (TraceMessage J n) → List (TraceMessage J n) → List (TraceMessage J n)
  with_message none ms = ms
  with_message (some m) ms = m ∷ ms

  -- The transactions that they say.
  abbrev pub messages : List (TraceBuffer J n) → List (TraceMessage J n)
  messages [] = []
  messages (b ∷ bs) = with_message b.message (messages bs)

  -- What reading one of them leaves.
  abbrev pub push_said : Option (TraceMessage J n) → Writer → Writer
  push_said none w = w
  push_said (some m) w = push_trace (row m) m.receipts w

  abbrev pub push_buffer : TraceBuffer J n → Writer → Writer
  push_buffer b w = push_said b.message (verify_master b.env w)

  unfoldable pub push_buffers : List (TraceBuffer J n) → Writer → Writer
  push_buffers [] w = w
  push_buffers (b ∷ bs) w = push_buffers bs (push_buffer b w)

  push_said-IsLinked :
      (o : Option (TraceMessage J n)) (w : Writer) → IsLinked w → IsLinked (push_said o w)
  push_said-IsLinked none w k = k
  push_said-IsLinked (some m) w k = IsLinked-Grew _ _ w _ (push_trace-Grew (row m) m.receipts w) k

  push_said-IsReady :
      (o : Option (TraceMessage J n)) (w : Writer) → IsReady J n w → IsReady J n (push_said o w)
  push_said-IsReady none w r = r
  push_said-IsReady (some m) w r = Grew-IsReady J n _ _ w _ (push_trace-Grew (row m) m.receipts w) r

  push_said-IsQueued :
      (o : Option (TraceMessage J n)) (w : Writer) → IsQueued w → IsQueued (push_said o w)
  push_said-IsQueued none w q = q
  push_said-IsQueued (some m) w q = push_trace-IsQueued (row m) m.receipts w q

  push_said-Grew :
      (o : Option (TraceMessage J n)) (ms : List (TraceMessage J n)) (u w : Writer)
      → Grew (map row ms) (receipts_of ms) (push_said o u) w
      → Grew (map row (with_message o ms)) (receipts_of (with_message o ms)) u w
  unfolding receipts_of
  push_said-Grew none ms u w g = g
  push_said-Grew (some m) ms u w g =
      Grew-trans (row m ∷ []) _ m.receipts _ u (push_trace (row m) m.receipts u) w
        (push_trace-Grew (row m) m.receipts u) g

  pub push_buffer-IsLinked :
      (b : TraceBuffer J n) (w : Writer) → IsLinked w → IsLinked (push_buffer b w)
  push_buffer-IsLinked b w k =
      push_said-IsLinked b.message _ (IsLinked-Grew [] [] w _ (verify_master-Grew b.env w k) k)

  pub push_buffer-IsReady :
      (b : TraceBuffer J n) (w : Writer)
      → IsLinked w
      → IsReady J n w
      → IsReady J n (push_buffer b w)
  push_buffer-IsReady b w k r =
      push_said-IsReady b.message _ (Grew-IsReady J n [] [] w _ (verify_master-Grew b.env w k) r)

  pub push_buffers-Grew :
      (bs : List (TraceBuffer J n)) (w : Writer)
      → IsLinked w
      → Grew (map row (messages bs)) (receipts_of (messages bs)) w (push_buffers bs w)
  unfolding push_buffers receipts_of
  push_buffers-Grew [] w k = Grew-refl w
  push_buffers-Grew (b ∷ bs) w k =
      Grew-trans [] _ [] _ w (verify_master b.env w) _ (verify_master-Grew b.env w k) (
        push_said-Grew b.message (messages bs) (verify_master b.env w) _
          (push_buffers-Grew bs (push_buffer b w) (push_buffer-IsLinked b w k)))

  pub push_buffers-IsQueued :
      (bs : List (TraceBuffer J n)) (w : Writer) → IsQueued w → IsQueued (push_buffers bs w)
  unfolding push_buffers
  push_buffers-IsQueued [] w q = q
  push_buffers-IsQueued (b ∷ bs) w q =
      push_buffers-IsQueued bs (push_buffer b w)
        (push_said-IsQueued b.message _ (verify_master-IsQueued b.env w q))
