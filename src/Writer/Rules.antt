-- ===== src/Writer/Rules.antt =====
-- Rules by which an action of the Writer is shown to keep a property of its state.
use fio_relic.Base.{ℕ, List, [], ◌∷◌, Bool, true, false, Option, none, some, if◌then◌else◌}
use fio_relic.Base.Int.{ℤ}
use fio_relic.Base.Bytes.{Bytes}
use fio_relic.Base.Exec.{
  Exec, Keeps, Outcome, modify, pure, from_outcome, or_throw, continue-holds, ◌>>=◌, Fault,
}
use fio_relic.External.{Rapidjson}
use fio_relic.Tables.{Transaction, Receipt}
use fio_relic.Writer.State.{Writer}
use fio_relic.Writer.Batch.{
  save_trace, save_rows, save_receipts, read_receipt, push_receipt, push_transaction, string_at,
  array_at,
}

module _ {A B : Type 0} (P : Writer → Type 0) where
  pub Keeps-then :
      (o : Outcome A) (f : A → Exec Writer B)
      → ((a : A) → Keeps P (f a))
      → Keeps P (from_outcome o >>= f)
  Keeps-then o f k = record {
    at = λ w h. continue-holds (λ x. P x.1) o f w (λ a _. (k a).at w h) (λ _ _. h);
  }

module _ {B : Type 0} (P : Writer → Type 0) where
  pub Keeps-modify :
      (g : Writer → Writer) (m : Exec Writer B)
      → ((w : Writer) → P w → P (g w))
      → Keeps P m
      → Keeps P (modify g >>= λ _. m)
  Keeps-modify g m kg km = record { at = λ w h. km.at (g w) (kg w h) }

pub Keeps-if :
    {A : Type 0} {P : Writer → Type 0} (test : Writer → Bool) (m n : Exec Writer A)
    → Keeps P m
    → Keeps P n
    → Keeps P (λ w. if test w then m w else n w)
Keeps-if {P} test m n km kn = record { at = λ w h. go w h (test w) }
  where
    go : (w : Writer) → P w → (b : Bool) → P (if b then m w else n w).1
    go w h true = km.at w h
    go w h false = kn.at w h

pub Keeps-change :
    {P : Writer → Type 0} (g : Writer → Writer)
    → ((w : Writer) → P w → P (g w))
    → Keeps P (modify g)
Keeps-change g k = record { at = k }

pub Keeps-choose :
    {A : Type 0} {P : Writer → Type 0} (b : Bool) (m n : Exec Writer A)
    → Keeps P m
    → Keeps P n
    → Keeps P (if b then m else n)
Keeps-choose true m n km kn = km
Keeps-choose false m n km kn = kn

pub Keeps-done : {A : Type 0} {P : Writer → Type 0} (a : A) → Keeps P (pure {S = Writer} a)
Keeps-done a = record { at = λ w h. h }

pub or_throw-Keeps :
    {A : Type 0} {P : Writer → Type 0} (o : Option A) (e : Fault) → Keeps P (or_throw o e)
or_throw-Keeps none e = record { at = λ w h. h }
or_throw-Keeps (some a) e = record { at = λ w h. h }

-- saveTrace keeps what the two pushes keep.
module _ (J : Rapidjson) (P : Writer → Type 0)
    (keeps_receipt : (r : Receipt) (w : Writer) → P w → P (push_receipt r w))
    (keeps_trx : (t : Transaction) (w : Writer) → P w → P (push_transaction t w)) where
  save_receipts-kept :
      (seq : ℕ) (n : ℤ) (time : Bytes) (items : List J.Value)
      → Keeps P (save_receipts J seq n time items)
  unfolding save_receipts
  save_receipts-kept seq n time [] = Keeps-done tt
  save_receipts-kept seq n time (item ∷ items) =
      Keeps-then P (read_receipt J seq n time item) _ (λ r.
        Keeps-modify P (push_receipt r) _ (keeps_receipt r) (save_receipts-kept seq n time items))

  pub save_trace-kept :
      (seq : ℕ) (n : ℤ) (time : Bytes) (trace : J.Value) (text : Bytes)
      → Keeps P (save_trace J seq n time trace text)
  unfolding save_trace save_rows
  save_trace-kept seq n time trace text =
      Keeps-if (λ w. w.no_traces) _ _ (Keeps-done tt)
        (Keeps-then P (string_at J trace "id") _ (λ id.
          Keeps-modify P (push_transaction _) _ (keeps_trx _) (
            Keeps-then P (array_at J trace "action_traces") _
              (λ items. save_receipts-kept seq n time items))))
