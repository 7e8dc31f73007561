-- ===== src/Writer/History.antt =====
-- A sequence of blocks, each with its traces, that a writer reads from its websocket
-- (Writer::onRead in prototype/Writer.cpp), beside a store that the reading of one block follows.
use mathlib.Core.List.{append-nil, append_assoc}
use fio_relic.Base.{
  ℕ, ◌+◌, List, [], ◌∷◌, ◌++◌, map, ◌≡◌, refl, sym, ap, ◌∙◌, ◌⊎◌, inl, inr, length, length-append,
  arith,
}
use fio_relic.Base.Int.{ℤ, negsuc, ◌<ℤ◌, ◌≤ℤ◌, to_int32}
use fio_relic.Base.Bytes.{Bytes}
use fio_relic.Base.Exec.{Outcome, done}
use fio_relic.External.{Rapidjson}
use fio_relic.Tables.{Tables}
use fio_relic.Writer.State.{Writer}
use fio_relic.Writer.Absorb.{later}
use fio_relic.Writer.Reply.{replies}
use fio_relic.Writer.Settled.{BlockMessage, Waits, IsDurable}
use fio_relic.Writer.Served.{BlockBuffers}

-- The last answer, and the texts that answer all.
unfoldable pub last_answer : ℤ → List ℤ → ℤ
last_answer r [] = r
last_answer r (a ∷ given) = last_answer a given

unfoldable pub all_replies : List ℤ → List Bytes
all_replies [] = []
all_replies (a ∷ given) = replies a ++ all_replies given

last_answer-snoc : (r : ℤ) (given : List ℤ) (a : ℤ) → last_answer r (given ++ a ∷ []) ≡ a
unfolding last_answer
last_answer-snoc r [] a = refl
last_answer-snoc r (b ∷ given) a = last_answer-snoc b given a

all_replies-snoc :
    (given : List ℤ) (a : ℤ) → all_replies (given ++ a ∷ []) ≡ all_replies given ++ replies a
unfolding all_replies
all_replies-snoc [] a = append-nil (replies a)
all_replies-snoc (b ∷ given) a =
    ap (λ (l : List Bytes). replies b ++ l) (all_replies-snoc given a)
    ∙ sym (append_assoc (replies b) (all_replies given) (replies a))

-- The two ends of block n, with the answer r: it waits, or it is acknowledged.
abbrev pub Ends : ℤ → Writer → ℤ → Writer → Type 0
Ends n w r w' = ((r ≡ negsuc 0) × Waits w w') ⊎ ((r ≡ to_int32 n) × IsDurable n w')

module _ {J : Rapidjson} where
  -- The number of the last block, if there is one.
  unfoldable pub last_number : ℤ → List (BlockMessage J) → ℤ
  last_number n [] = n
  last_number n (b ∷ bs) = last_number b.number bs

  -- The numbers ascend, all above the given one.
  unfoldable pub IsAscending : ℤ → List (BlockMessage J) → Type 0
  IsAscending n [] = Unit {0}
  IsAscending n (b ∷ bs) = (n <ℤ b.number) × IsAscending b.number bs

  pub last_number-snoc :
      (n : ℤ) (bs : List (BlockMessage J)) (b : BlockMessage J)
      → last_number n (bs ++ b ∷ []) ≡ b.number
  unfolding last_number
  last_number-snoc n [] b = refl
  last_number-snoc n (a ∷ bs) b = last_number-snoc a.number bs b

  -- The last irreversible block that they name, if it is later than the given one.
  unfoldable pub last_irreversible : ℤ → List (BlockMessage J) → ℤ
  last_irreversible i [] = i
  last_irreversible i (b ∷ bs) = last_irreversible (later i b.irreversible) bs

  pub last_irreversible-snoc :
      (i : ℤ) (bs : List (BlockMessage J)) (b : BlockMessage J)
      → last_irreversible i (bs ++ b ∷ []) ≡ later (last_irreversible i bs) b.irreversible
  unfolding last_irreversible
  last_irreversible-snoc i [] b = refl
  last_irreversible-snoc i (a ∷ bs) b = last_irreversible-snoc (later i a.irreversible) bs b

  abbrev pub blocks : List (BlockBuffers J) → List (BlockMessage J)
  blocks bs = map (λ (b : BlockBuffers J). b.block) bs

-- What a store has behind the given blocks is said by IsBehind, and what else is to hold of the
-- writer then by IsKept.
module _ {J : Rapidjson} (IsBehind : List (BlockMessage J) → Tables → Type 0)
    (IsKept : List (BlockMessage J) → Writer → Type 0) where
  -- What the blocks leave, read by `w`, with the answer r to the last one (-1 if there is none): the
  -- first of them are stored and the others wait. What is committed is what the store has behind
  -- the stored blocks, the last of which is the confirmed block; the session is what the store has
  -- behind all of them; and the answer is -1, or no block waits and it is the confirmed block as an
  -- int.
  pub record IsStored (bs : List (BlockMessage J)) (w : Writer) (r : ℤ) (w' : Writer) : Type 0 where
    pub stored : List (BlockMessage J)
    pub waiting : List (BlockMessage J)
    pub parts : bs ≡ stored ++ waiting
    pub durable : IsBehind stored w'.committed
    pub session : IsBehind bs w'.working
    pub confirmed : w'.confirmed_block ≡ last_number w.confirmed_block stored
    pub kept : IsKept bs w'
    pub answer : (r ≡ negsuc 0) ⊎ ((waiting ≡ []) × (r ≡ to_int32 w'.confirmed_block))

  -- The blocks have one answer each, what was sent has grown by the texts of those that are not
  -- negative, and with the last answer the blocks leave what IsStored describes.
  pub record IsServed (bs : List (BlockMessage J)) (w w' : Writer) : Type 0 where
    pub answers : List ℤ
    pub each : length answers ≡ length bs
    pub sent : w'.sent ≡ w.sent ++ all_replies answers
    pub stored : IsStored bs w (last_answer (negsuc 0) answers) w'

  -- The state between two blocks, with the answers given so far.
  pub record IsBetween (bs : List (BlockMessage J)) (given : List ℤ) (w w' : Writer) : Type 0 where
    pub stored : IsStored bs w (last_answer (negsuc 0) given) w'
    pub low : w'.confirmed_block ≤ℤ last_number w.confirmed_block bs
    pub sent : w'.sent ≡ w.sent ++ all_replies given
    pub each : length given ≡ length bs

  -- What the reading of one more block is to do.
  pub record IsAnswered (bs : List (BlockMessage J)) (b : BlockMessage J) (w : Writer)
      (x : Outcome (Unit {0}) × Writer) : Type 0 where
    pub answer : ℤ
    pub returns : x.0 ≡ done tt
    pub sent : x.1.sent ≡ w.sent ++ replies answer
    pub session : IsBehind (bs ++ b ∷ []) x.1.working
    pub kept : IsKept (bs ++ b ∷ []) x.1
    pub ends : Ends b.number w answer x.1

  pub IsBetween-start :
      (w : Writer)
      → IsBehind [] w.working
      → IsKept [] w
      → w.committed ≡ w.working
      → IsBetween [] [] w w
  unfolding last_number last_answer all_replies
  IsBetween-start w session kept durable = record {
    stored = record {
      stored = [];
      waiting = [];
      parts = refl;
      durable = rw durable session;
      session = session;
      confirmed = refl;
      kept = kept;
      answer = inl refl;
    };
    low = omega arith;
    sent = sym (append-nil w.sent);
    each = refl;
  }

  -- The next block, when it waits and when it is acknowledged.
  IsStored-Ends :
      (bs : List (BlockMessage J)) (b : BlockMessage J) (r : ℤ) (w v : Writer)
      (x : Outcome (Unit {0}) × Writer)
      → IsStored bs w r v
      → (a : IsAnswered bs b v x) → Ends b.number v a.answer x.1
      → IsStored (bs ++ b ∷ []) w a.answer x.1
  IsStored-Ends bs b r w v x s a (inl (e, waits)) = record {
    stored = s.stored;
    waiting = s.waiting ++ b ∷ [];
    parts =
        ap (λ (l : List (BlockMessage J)). l ++ b ∷ []) s.parts
        ∙ append_assoc s.stored s.waiting (b ∷ []);
    durable = rw waits.1 s.durable;
    session = a.session;
    confirmed = waits.0 ∙ s.confirmed;
    kept = a.kept;
    answer = inl e;
  }
  IsStored-Ends bs b r w v x s a (inr (e, durable)) = record {
    stored = bs ++ b ∷ [];
    waiting = [];
    parts = sym (append-nil (bs ++ b ∷ []));
    durable = rw durable.1 a.session;
    session = a.session;
    confirmed = durable.0 ∙ sym (last_number-snoc w.confirmed_block bs b);
    kept = a.kept;
    answer = inr (refl, e ∙ ap to_int32 (sym durable.0));
  }

  low-Ends :
      (n m r : ℤ) (v u : Writer)
      → v.confirmed_block ≤ℤ m
      → m <ℤ n
      → Ends n v r u
      → u.confirmed_block ≤ℤ n
  low-Ends n m r v u low above (inl (e, waits)) = rw waits.0 (omega arith)
  low-Ends n m r v u low above (inr (e, durable)) = rw durable.0 (omega arith)

  pub IsBetween-IsAnswered :
      (bs : List (BlockMessage J)) (given : List ℤ) (b : BlockMessage J) (w v : Writer)
      (x : Outcome (Unit {0}) × Writer)
      → IsBetween bs given w v
      → last_number w.confirmed_block bs <ℤ b.number
      → (a : IsAnswered bs b v x) → IsBetween (bs ++ b ∷ []) (given ++ a.answer ∷ []) w x.1
  IsBetween-IsAnswered bs given b w v x i above a = record {
    stored =
        rw (last_answer-snoc (negsuc 0) given a.answer)
          (IsStored-Ends bs b _ w v x i.stored a a.ends);
    low =
        rw (last_number-snoc w.confirmed_block bs b)
          (low-Ends b.number _ a.answer v x.1 i.low above a.ends);
    sent =
        a.sent
        ∙ ap (λ (l : List Bytes). l ++ replies a.answer) i.sent
        ∙ append_assoc w.sent (all_replies given) (replies a.answer)
        ∙ ap (λ (l : List Bytes). w.sent ++ l) (sym (all_replies-snoc given a.answer));
    each =
        length-append given (a.answer ∷ [])
        ∙ ap (λ (n : ℕ). n + 1) i.each
        ∙ sym (length-append bs (b ∷ []));
  }
