-- ===== src/Writer/Sequence.antt =====
-- The blocks that a writer reads from its websocket, one behind the other (Writer::onRead in
-- prototype/Writer.cpp).
use mathlib.Core.List.{append-nil, append_assoc}
use fio_relic.Base.{ℕ, List, [], ◌∷◌, ◌++◌, All, ◌≡◌, refl, sym, arith}
use fio_relic.Base.Int.{ℤ, ◌<ℤ◌}
use fio_relic.Base.Exec.{Exec, done, pure, continue-returns, ◌>>◌}
use fio_relic.External.{Rapidjson, ResultSets}
use fio_relic.Tables.{Tables}
use fio_relic.Writer.State.{Writer}
use fio_relic.Writer.Settled.{BlockMessage}
use fio_relic.Writer.Served.{BlockBuffers, read_block_buffers}
use fio_relic.Writer.History.{
  IsAscending, last_number, last_number-snoc, blocks, IsServed, IsBetween, IsBetween-start,
  IsBetween-IsAnswered, IsAnswered,
}

module _ (rs : ResultSets) (J : Rapidjson) (rounds : ℕ) where
  unfoldable pub read_stream : List (BlockBuffers J) → Exec Writer (Unit {0})
  read_stream [] = pure tt
  read_stream (b ∷ bs) = let rest = read_stream bs in (do read_block_buffers rs J rounds b; rest)

  -- A store and a condition on the blocks for which the reading of each block is answered.
  module _ (IsBehind : List (BlockMessage J) → Tables → Type 0)
      (IsKept : List (BlockMessage J) → Writer → Type 0) (IsExpected : BlockBuffers J → Type 0)
      (answered : (read : List (BlockMessage J)) (b : BlockBuffers J) (w : Writer)
        → IsBehind read w.working
        → IsKept read w
        → w.confirmed_block <ℤ b.block.number
        → IsExpected b
        → IsAnswered IsBehind IsKept read b.block w (read_block_buffers rs J rounds b w)) where
    read_stream-from :
        (read : List (BlockMessage J)) (given : List ℤ) (bs : List (BlockBuffers J)) (w v : Writer)
        → IsBetween IsBehind IsKept read given w v
        → IsAscending (last_number w.confirmed_block read) (blocks bs)
        → All IsExpected bs
        → let x = read_stream bs v in
          (x.0 ≡ done tt) × IsServed IsBehind IsKept (read ++ blocks bs) w x.1
    unfolding read_stream IsAscending
    read_stream-from read given [] w v i h e =
        rw (append-nil read)
          (refl, record { answers = given; each = i.each; sent = i.sent; stored = i.stored })
    read_stream-from read given (b ∷ bs) w v i h (e, es) =
        let x = read_block_buffers rs J rounds b v in
        let a = answered read b v i.stored.session i.stored.kept (omega arith) e in
        continue-returns
          (λ y. (y.0 ≡ done tt) × IsServed IsBehind IsKept (read ++ blocks (b ∷ bs)) w y.1) x.0 tt
          (λ _. read_stream bs) x.1 a.returns
          (rw (sym (append_assoc read (b.block ∷ []) (blocks bs))) (
            read_stream-from (read ++ b.block ∷ []) (given ++ a.answer ∷ []) bs w x.1
              (IsBetween-IsAnswered IsBehind IsKept read given b.block w v x i h.0 a)
              (rw (last_number-snoc w.confirmed_block read b.block) h.1) es))

    -- Blocks of ascending numbers above the confirmed one are served, from a state in which everything
    -- is committed.
    pub read_stream-serves :
        (bs : List (BlockBuffers J)) (w : Writer)
        → IsBehind [] w.working
        → IsKept [] w
        → w.committed ≡ w.working
        → IsAscending w.confirmed_block (blocks bs)
        → All IsExpected bs
        → let x = read_stream bs w in (x.0 ≡ done tt) × IsServed IsBehind IsKept (blocks bs) w x.1
    unfolding last_number
    read_stream-serves bs w session kept durable ascending expected =
        read_stream-from [] [] bs w w (IsBetween-start IsBehind IsKept w session kept durable)
          ascending expected
