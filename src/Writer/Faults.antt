-- ===== src/Writer/Faults.antt =====
-- Which faults the readers of messages, and saveTrace, can throw (prototype/Writer.cpp): none that is
-- apart from those of rapidjson, std::stol, std::stoul and std::string::replace.
use fio_relic.Base.{
  ℕ, ◌≡◌, refl, arith, List, [], ◌∷◌, Bool, true, false, Option, none, some, Bool-cases, inl, inr,
  String, ◌==◌, if◌then◌else◌,
}
use fio_relic.Base.Int.{ℤ}
use fio_relic.Base.Bytes.{
  Bytes, stol, stoul, read_sign, skip_spaces, read_digits, starts_with_digit, long_value,
}
use fio_relic.Base.Exec.{
  Exec, Outcome, done, thrown, Fault, and_then, from_option, continue, json_access, not_a_number,
  number_out_of_range, position_out_of_range, sync_corrupted,
}
use fio_relic.External.{Rapidjson}
use fio_relic.Writer.State.{Writer}
use fio_relic.Writer.Batch.{
  string_at, object_at, array_at, member, read_receipt, save_receipts, save_rows, save_trace,
}
use fio_relic.Writer.Messages.{get_block_time, long_at, replace_t, trx_seq_of}

-- The outcome is a fault of the given ones.
abbrev pub meets : {A : Type 0} → (Fault → Bool) → Outcome A → Bool
meets bad (done a) = false
meets bad (thrown e) = bad e

-- The given faults are none of those that a message can cause by its text.
pub record AreApart (bad : Fault → Bool) : Type 0 where
  pub access : bad json_access ≡ false
  pub number : bad not_a_number ≡ false
  pub range : bad number_out_of_range ≡ false
  pub position : bad position_out_of_range ≡ false
  pub corrupted : bad sync_corrupted ≡ false

module _ (bad : Fault → Bool) where
  pub meets-and_then :
      {A B : Type 0} (o : Outcome A) (f : A → Outcome B)
      → meets bad o ≡ false
      → ((a : A) → meets bad (f a) ≡ false)
      → meets bad (and_then o f) ≡ false
  meets-and_then (done a) f h g = g a
  meets-and_then (thrown e) f h g = h

  pub meets-continue :
      {S A B : Type 0} (o : Outcome A) (f : A → Exec S B) (s : S)
      → meets bad o ≡ false
      → ((a : A) → meets bad (f a s).0 ≡ false)
      → meets bad (continue o f s).0 ≡ false
  meets-continue (done a) f s h g = g a
  meets-continue (thrown e) f s h g = h

  pub meets-from_option :
      {A : Type 0} (o : Option A) (e : Fault) → bad e ≡ false → meets bad (from_option o e) ≡ false
  meets-from_option none e h = h
  meets-from_option (some a) e h = refl

  pub meets-if :
      {A : Type 0} (b : Bool) (x y : Outcome A)
      → meets bad x ≡ false
      → meets bad y ≡ false
      → meets bad (if b then x else y) ≡ false
  meets-if true x y h k = h
  meets-if false x y h k = k

module _ (bad : Fault → Bool) (apart : AreApart bad) where
  meets-long_value : (negative : Bool) (n : ℕ) → meets bad (long_value negative n) ≡ false
  unfolding long_value
  meets-long_value negative n = ground (arith, apart.range)

  pub meets-stol : (s : Bytes) → meets bad (stol s) ≡ false
  unfolding stol
  meets-stol s =
      meets-if bad (starts_with_digit (read_sign (skip_spaces s)).1) _ _
        (meets-long_value (read_sign (skip_spaces s)).0
          (read_digits 0 (read_sign (skip_spaces s)).1))
        apart.number

  pub meets-stoul : (s : Bytes) → meets bad (stoul s) ≡ false
  unfolding stoul
  meets-stoul s =
      meets-if bad (starts_with_digit (read_sign (skip_spaces s)).1) _ _
        (meets-if bad _ (done _) (thrown number_out_of_range) refl apart.range) apart.number

  pub meets-replace_t : (s : Bytes) → meets bad (replace_t s) ≡ false
  unfolding replace_t
  meets-replace_t [] = apart.position
  meets-replace_t (b ∷ bs) = elim (Bool-cases (b == b'T')) [
    | inl found ↦ rw found refl
    | inr other ↦ rw other (meets-and_then bad (replace_t bs) _ (meets-replace_t bs) (λ rest. refl))
  ]

  module _ (J : Rapidjson) where
    at-meets :
        {A : Type 0} (get : J.Value → Option A) (v : J.Value) (key : String)
        → meets bad (and_then (member J v key) (λ m. from_option (get m) json_access)) ≡ false
    unfolding member
    at-meets get v key =
        meets-and_then bad (from_option (J.member v key) json_access) _
          (meets-from_option bad (J.member v key) json_access apart.access)
          (λ m. meets-from_option bad (get m) json_access apart.access)

    pub meets-string_at : (v : J.Value) (key : String) → meets bad (string_at J v key) ≡ false
    unfolding string_at
    meets-string_at v key = at-meets J.get_string v key

    pub meets-object_at : (v : J.Value) (key : String) → meets bad (object_at J v key) ≡ false
    unfolding object_at
    meets-object_at v key = at-meets J.get_object v key

    pub meets-array_at : (v : J.Value) (key : String) → meets bad (array_at J v key) ≡ false
    unfolding array_at
    meets-array_at v key = at-meets J.get_array v key

    pub meets-long_at : (v : J.Value) (key : String) → meets bad (long_at J v key) ≡ false
    unfolding long_at
    meets-long_at v key =
        meets-and_then bad (string_at J v key) stol (meets-string_at v key) meets-stol

    pub meets-get_block_time : (v : J.Value) → meets bad (get_block_time J v) ≡ false
    unfolding get_block_time
    meets-get_block_time v =
        meets-and_then bad (string_at J v "block_timestamp") replace_t
          (meets-string_at v "block_timestamp") meets-replace_t

    pub meets-trx_seq_of : (v : J.Value) → meets bad (trx_seq_of J v) ≡ false
    unfolding trx_seq_of
    meets-trx_seq_of v =
        meets-and_then bad (object_at J v "receipt") _ (meets-object_at v "receipt") (λ receipt.
          meets-and_then bad (string_at J receipt "global_sequence") stoul
            (meets-string_at receipt "global_sequence") meets-stoul)

    meets-read_receipt :
        (seq : ℕ) (n : ℤ) (time : Bytes) (item : J.Value)
        → meets bad (read_receipt J seq n time item) ≡ false
    unfolding read_receipt long_at
    meets-read_receipt seq n time item =
        meets-and_then bad (from_option (J.get_object item) json_access) _
          (meets-from_option bad (J.get_object item) json_access apart.access)
          (λ atrace.
            meets-and_then bad (object_at J atrace "act") _ (meets-object_at atrace "act") (λ act.
              meets-and_then bad (object_at J atrace "receipt") _ (meets-object_at atrace "receipt")
                (λ receipt.
                  meets-and_then bad (string_at J receipt "receiver") _
                    (meets-string_at receipt "receiver")
                    (λ receiver.
                      meets-and_then bad (long_at J receipt "recv_sequence") _
                        (meets-long_at receipt "recv_sequence")
                        (λ q.
                          meets-and_then bad (string_at J act "account") _
                            (meets-string_at act "account")
                            (λ account.
                              meets-and_then bad (string_at J act "name") _
                                (meets-string_at act "name") (λ name. refl)))))))

    meets-save_receipts :
        (seq : ℕ) (n : ℤ) (time : Bytes) (items : List J.Value) (w : Writer)
        → meets bad (save_receipts J seq n time items w).0 ≡ false
    unfolding save_receipts
    meets-save_receipts seq n time [] w = refl
    meets-save_receipts seq n time (item ∷ items) w =
        meets-continue bad (read_receipt J seq n time item) _ w (meets-read_receipt seq n time item)
          (λ r. meets-save_receipts seq n time items _)

    pub meets-save_trace :
        (seq : ℕ) (n : ℤ) (time : Bytes) (trace : J.Value) (text : Bytes) (w : Writer)
        → meets bad (save_trace J seq n time trace text w).0 ≡ false
    unfolding save_trace save_rows
    meets-save_trace seq n time trace text w = chosen w.no_traces
      where
        chosen :
            (b : Bool)
            → meets bad (if b then (done tt, w) else save_rows J seq n time trace text w).0 ≡ false
        chosen true = refl
        chosen false =
            meets-continue bad (string_at J trace "id") _ w (meets-string_at trace "id") (λ id.
              meets-continue bad (array_at J trace "action_traces") _ _
                (meets-array_at trace "action_traces")
                (λ items. meets-save_receipts seq n time items _))
