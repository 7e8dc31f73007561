-- ===== src/Writer/Repeated.antt =====
-- A store that writes blocks twice, the rows of which have keys: what is held already is left alone
-- (the statements with IGNORE and ON DUPLICATE KEY of prototype/Writer.cpp).
use mathlib.Core.List.{append_assoc}
use fio_relic.Base.{List, [], ◌∷◌, ◌++◌, map, Option, none, some, ◌≡◌, refl, sym, ap, ◌∙◌}
use fio_relic.Base.Int.{ℤ}
use fio_relic.Base.Bytes.{Bytes}
use fio_relic.External.{Rapidjson}
use fio_relic.Tables.{Tables, Transaction, Receipt, insert_traces, insert_receipts, insert_trace}
use fio_relic.Tables.Rows.{recv_seq_of, or_else}
use fio_relic.Tables.Replay.{insert_traces-replay, insert_receipts-replay}
use fio_relic.Writer.Queues.{last_recv_seq}
use fio_relic.Writer.Store.{
  Agrees, row, receipts_of, write_all, write_all-Agrees, write_all-transactions, write_all-receipts,
  write_all-sequences, write_all-others, or_else_assoc, last_recv_seq-++, insert_receipts-append,
}
use fio_relic.Writer.Settled.{BlockMessage}
use fio_relic.Writer.Stream.{write_blocks}

insert_traces-++ :
    (rows xs ys : List Transaction)
    → insert_traces rows (xs ++ ys) ≡ insert_traces (insert_traces rows xs) ys
unfolding insert_traces
insert_traces-++ rows [] ys = refl
insert_traces-++ rows (x ∷ xs) ys = insert_traces-++ (insert_trace rows x) xs ys

insert_traces-again :
    (rows xs ys : List Transaction)
    → insert_traces (insert_traces rows xs) (xs ++ ys) ≡ insert_traces rows (xs ++ ys)
insert_traces-again rows xs ys =
    insert_traces-++ (insert_traces rows xs) xs ys
    ∙ ap (λ (l : List Transaction). insert_traces l ys) (insert_traces-replay rows xs)
    ∙ sym (insert_traces-++ rows xs ys)

insert_receipts-again :
    (rows xs ys : List Receipt)
    → insert_receipts (insert_receipts rows xs) (xs ++ ys) ≡ insert_receipts rows (xs ++ ys)
insert_receipts-again rows xs ys =
    insert_receipts-append (insert_receipts rows xs) xs ys
    ∙ ap (λ (l : List Receipt). insert_receipts l ys) (insert_receipts-replay rows xs)
    ∙ sym (insert_receipts-append rows xs ys)

or_else_absorbs : (a b c : Option ℤ) → or_else (or_else a b) (or_else b c) ≡ or_else (or_else a b) c
or_else_absorbs none none c = refl
or_else_absorbs none (some n) c = refl
or_else_absorbs (some n) b c = refl

module _ {J : Rapidjson} where
  -- The rows that the blocks say.
  unfoldable rows_of_blocks : List (BlockMessage J) → List Transaction
  rows_of_blocks [] = []
  rows_of_blocks (b ∷ bs) = map row b.traces ++ rows_of_blocks bs

  unfoldable receipts_of_blocks : List (BlockMessage J) → List Receipt
  receipts_of_blocks [] = []
  receipts_of_blocks (b ∷ bs) = receipts_of b.traces ++ receipts_of_blocks bs

  -- What the store has behind the blocks, table by table.
  record IsWrittenOut (bs : List (BlockMessage J)) (t u : Tables) : Type 0 where
    transactions : u.transactions ≡ insert_traces t.transactions (rows_of_blocks bs)
    receipts : u.receipts ≡ insert_receipts t.receipts (receipts_of_blocks bs)
    sequences :
        (account : Bytes)
        → recv_seq_of account u.recv_sequence_max
          ≡ or_else
              (last_recv_seq account (receipts_of_blocks bs))
              (recv_seq_of account t.recv_sequence_max)
    others : (u.sync ≡ t.sync) × (u.bkp_traces ≡ t.bkp_traces)

  write_blocks-IsWrittenOut :
      (bs : List (BlockMessage J)) (t : Tables) → IsWrittenOut bs t (write_blocks bs t)
  unfolding write_blocks rows_of_blocks receipts_of_blocks insert_traces insert_receipts
      last_recv_seq
  write_blocks-IsWrittenOut [] t = record {
    transactions = refl;
    receipts = refl;
    sequences = λ account. refl;
    others = (refl, refl);
  }
  write_blocks-IsWrittenOut (b ∷ bs) t =
      let h = write_blocks-IsWrittenOut bs (write_all b.traces t) in
      record {
        transactions =
            h.transactions
            ∙ rw (write_all-transactions b.traces t)
                (sym (insert_traces-++ t.transactions (map row b.traces) (rows_of_blocks bs)));
        receipts =
            h.receipts
            ∙ rw (write_all-receipts b.traces t) (
                sym (
                  insert_receipts-append t.receipts (receipts_of b.traces)
                    (receipts_of_blocks bs)));
        sequences = λ account.
            h.sequences account
            ∙ rw
                (
                  write_all-sequences account b.traces t,
                  last_recv_seq-++ account (receipts_of b.traces) (receipts_of_blocks bs),
                )
                (sym (or_else_assoc (last_recv_seq account (receipts_of_blocks bs)) _ _));
        others = (
          h.others.0 ∙ (write_all-others b.traces t).0,
          h.others.1 ∙ (write_all-others b.traces t).1,
        );
      }

  pub write_blocks-others :
      (bs : List (BlockMessage J)) (t : Tables) → (write_blocks bs t).sync ≡ t.sync
  write_blocks-others bs t = (write_blocks-IsWrittenOut bs t).others.0

  pub write_blocks-Agrees :
      (bs : List (BlockMessage J)) (t u : Tables)
      → Agrees t u
      → Agrees (write_blocks bs t) (write_blocks bs u)
  unfolding write_blocks
  write_blocks-Agrees [] t u a = a
  write_blocks-Agrees (b ∷ bs) t u a = write_blocks-Agrees bs _ _ (write_all-Agrees b.traces t u a)

  -- The block writes the same rows and the same receipts. The clocks and what else the world does
  -- while it is read may differ.
  pub record SaysAgain (a b : BlockMessage J) : Type 0 where
    pub rows : map row a.traces ≡ map row b.traces
    pub receipts : receipts_of a.traces ≡ receipts_of b.traces

  -- The first of the blocks `all` say, one by one, what the blocks `bs` say.
  unfoldable pub Repeats : List (BlockMessage J) → List (BlockMessage J) → Type 0
  Repeats all [] = Unit {0}
  Repeats [] (b ∷ bs) = ⊥
  Repeats (a ∷ all) (b ∷ bs) = SaysAgain a b × Repeats all bs

  pub Repeats-++ : (all xs ys : List (BlockMessage J)) → Repeats all (xs ++ ys) → Repeats all xs
  unfolding Repeats
  Repeats-++ all [] ys h = tt
  Repeats-++ [] (x ∷ xs) ys h = h
  Repeats-++ (a ∷ all) (x ∷ xs) ys h = (h.0, Repeats-++ all xs ys h.1)

  -- What the blocks say behind those that repeat others.
  record SaysMore (all bs : List (BlockMessage J)) : Type 0 where
    more_rows : List Transaction
    rows : rows_of_blocks all ≡ rows_of_blocks bs ++ more_rows
    more_receipts : List Receipt
    receipts : receipts_of_blocks all ≡ receipts_of_blocks bs ++ more_receipts

  Repeats-SaysMore : (all bs : List (BlockMessage J)) → Repeats all bs → SaysMore all bs
  unfolding Repeats rows_of_blocks receipts_of_blocks
  Repeats-SaysMore all [] h = record {
    more_rows = rows_of_blocks all;
    rows = refl;
    more_receipts = receipts_of_blocks all;
    receipts = refl;
  }
  Repeats-SaysMore [] (b ∷ bs) h = absurd h
  Repeats-SaysMore (a ∷ all) (b ∷ bs) h =
      let s = Repeats-SaysMore all bs h.1 in
      record {
        more_rows = s.more_rows;
        rows = rw (h.0.rows, s.rows) (sym (append_assoc (map row b.traces) _ _));
        more_receipts = s.more_receipts;
        receipts = rw (h.0.receipts, s.receipts) (sym (append_assoc (receipts_of b.traces) _ _));
      }

  -- Blocks of which the first ones repeat what is held already leave what they leave without it.
  pub write_blocks-replay :
      (all xs : List (BlockMessage J)) (t : Tables)
      → Repeats all xs
      → Agrees (write_blocks all (write_blocks xs t)) (write_blocks all t)
  write_blocks-replay all xs t h =
      let first = write_blocks-IsWrittenOut xs t in
      let again = write_blocks-IsWrittenOut all (write_blocks xs t) in
      let once = write_blocks-IsWrittenOut all t in
      let said = Repeats-SaysMore all xs h in
      record {
        transactions =
            again.transactions
            ∙ rw (first.transactions, said.rows)
                (insert_traces-again t.transactions (rows_of_blocks xs) said.more_rows)
            ∙ sym once.transactions;
        receipts =
            again.receipts
            ∙ rw (first.receipts, said.receipts)
                (insert_receipts-again t.receipts (receipts_of_blocks xs) said.more_receipts)
            ∙ sym once.receipts;
        sequences = λ account.
            rw
              (
                again.sequences account,
                first.sequences account,
                once.sequences account,
                said.receipts,
                last_recv_seq-++ account (receipts_of_blocks xs) said.more_receipts,
              )
              (or_else_absorbs (last_recv_seq account said.more_receipts) _ _);
        others = (
          again.others.0 ∙ first.others.0 ∙ sym once.others.0,
          again.others.1 ∙ first.others.1 ∙ sym once.others.1,
        );
      }
