-- ===== src/Writer/Chapters.antt =====
-- Blocks and forks as they come over a websocket (Writer::onRead in prototype/Writer.cpp).
use fio_relic.Base.{ℕ, List, [], ◌∷◌}
use fio_relic.Base.Int.{ℤ, pos, ◌-ℤ◌, ◌<ℤ◌}
use fio_relic.Base.Exec.{Exec, ◌>>◌}
use fio_relic.External.{Rapidjson, ResultSets}
use fio_relic.Writer.State.{Writer}
use fio_relic.Writer.{on_read}
use fio_relic.Writer.History.{last_irreversible, IsAscending, last_number, blocks}
use fio_relic.Writer.Served.{BlockBuffers}
use fio_relic.Writer.Sequence.{read_stream}
use fio_relic.Writer.Undone.{ForkBuffer}

-- Blocks, and a fork behind them.
pub record Chapter (J : Rapidjson) : Type 0 where
  pub blocks : List (BlockBuffers J)
  pub fork : ForkBuffer J

module _ {J : Rapidjson} where
  -- The confirmed block behind the chapters.
  unfoldable pub behind : ℤ → List (Chapter J) → ℤ
  behind confirmed [] = confirmed
  behind confirmed (c ∷ cs) = behind (c.fork.number -ℤ pos 1) cs

  -- The numbers of the blocks ascend from the confirmed block, and behind a fork at n from n; and the
  -- last block before a fork is above the last irreversible one.
  unfoldable pub IsOrderly : ℤ → ℤ → List (Chapter J) → List (BlockBuffers J) → Type 0
  IsOrderly confirmed irreversible [] last = IsAscending confirmed (blocks last)
  IsOrderly confirmed irreversible (c ∷ cs) last =
      let bs = blocks c.blocks in
      let l = last_irreversible irreversible bs in
      IsAscending confirmed bs
      × (l <ℤ last_number confirmed bs)
      × IsOrderly (c.fork.number -ℤ pos 1) l cs last

module _ (rs : ResultSets) (J : Rapidjson) (rounds : ℕ) where
  unfoldable pub read_chapter : Chapter J → Exec Writer (Unit {0})
  read_chapter c = do read_stream rs J rounds c.blocks; on_read rs J rounds c.fork.env c.fork.buffer

  unfoldable pub read_chapters : List (Chapter J) → List (BlockBuffers J) → Exec Writer (Unit {0})
  read_chapters [] last = read_stream rs J rounds last
  read_chapters (c ∷ cs) last = let rest = read_chapters cs last in (do read_chapter c; rest)
