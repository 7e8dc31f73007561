-- ===== src/Server/Service.antt =====
-- How long WebsocketServer::Run serves (prototype/WebsocketServer.cpp).
use fio_relic.Base.{List, [], ◌∷◌, Option, none, some, ◌≡◌, refl, arith}
use fio_relic.Base.Exec.{
  Exec, Outcome, done, thrown, Fault, continue, continue-holds, socket_handshake,
}
use fio_relic.Server.{
  Setup, Connection, initialize, run, read_loop, read, serve, or_socket_error, accept_async,
}

-- The action ends in an exception.
abbrev pub Throws : {S : Type 0} → Outcome (Unit {0}) × S → Type 0
Throws x = (e : Fault) × (x.0 ≡ thrown e)

module _ {S M : Type 0} (attach : S → S) (on_read : M → Exec S (Unit {0}))
    (on_disconnect : Exec S (Unit {0})) where
  read_loop-Throws : (ms : List M) (s : S) → Throws (read_loop attach on_read on_disconnect ms s)
  unfolding read_loop accept_async
  read_loop-Throws [] s =
      continue-holds Throws (on_disconnect s).0 _ (on_disconnect s).1 (λ _ _. (_, refl))
        (λ e _. (e, refl))
  read_loop-Throws (m ∷ ms) s =
      continue-holds Throws (on_read m s).0 _ (on_read m s).1
        (λ _ _. read_loop-Throws ms (on_read m s).1) (λ e _. (e, refl))

  read-Throws : (c : Connection M) (s : S) → Throws (read attach on_read on_disconnect c s)
  unfolding read
  read-Throws c s =
      continue-holds Throws (or_socket_error c.handshake socket_handshake) _ (attach s)
        (λ _ _. read_loop-Throws c.messages (attach s)) (λ e _. (e, refl))

  then-Throws :
      (o : Outcome (Unit {0})) (s : S) (f : Unit {0} → Exec S (Unit {0}))
      → Throws (o, s)
      → continue o f s ≡ (o, s)
  then-Throws (done a) s f (e, h) = absurd (ground arith)
  then-Throws (thrown e) s f h = refl

  -- Whatever the handlers do, the server serves one connection: when its first connection ends, an
  -- exception leaves the loop, and what the server does is the same with no later connection at all.
  pub serve_once :
      (c : Connection M) (later : List (Option (Connection M))) (s : S)
      → let x = serve attach on_read on_disconnect (some c ∷ later) s in
        Throws x × (x ≡ read attach on_read on_disconnect c s)
  unfolding serve
  serve_once c later s =
      let x = read attach on_read on_disconnect c s in
      let stops =
        then-Throws x.0 x.1 (λ _. serve attach on_read on_disconnect later) (read-Throws c s) in
      (rw stops (read-Throws c s), stops)

  serve-Throws :
      (c : Option (Connection M)) (later : List (Option (Connection M))) (s : S)
      → Throws (serve attach on_read on_disconnect (c ∷ later) s)
  unfolding serve
  serve-Throws none later s = (_, refl)
  serve-Throws (some c) later s = (serve_once c later s).0

  -- Run does not return where there is a connection to accept, or an accept that fails.
  pub run-Throws :
      (a : Setup) (c : Option (Connection M)) (later : List (Option (Connection M))) (s : S)
      → Throws (run attach on_read on_disconnect a (c ∷ later) s)
  unfolding run
  run-Throws a c later s =
      let x = initialize attach on_read on_disconnect a s in
      continue-holds Throws x.0 _ x.1 (λ _ _. serve-Throws c later x.1) (λ e _. (e, refl))
