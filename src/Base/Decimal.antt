-- ===== src/Base/Decimal.antt =====
-- std::to_string of an integer, and that std::stol reads it back.
use Prim.Native.Nat.{ℕ, zero, suc, ◌+◌, ◌-◌, ◌*◌, ◌/◌, ◌%◌, ◌^◌, ◌≤◌, ◌<◌}
use mathlib.Core.Path.{◌≡◌, subst}
use mathlib.Core.Logic.{inl, inr}
use mathlib.Core.Bool.{true, false}
use mathlib.Core.List.{[], ◌∷◌, ◌++◌}
use native.Mathlib.Omega.{arith}
use fio_relic.Base.Tests.{ltb, if◌then◌else◌, Bool-cases}
use fio_relic.Base.Lists.{All, All-append}
use fio_relic.Base.Int.{ℤ, pos, negsuc, ◌≤ℤ◌}
use fio_relic.Base.Bytes.{Bytes, is_digit, read_digits, long_value, stol}
use fio_relic.Base.Exec.{done}

-- The decimal digits of n, for rounds above n.
unfoldable pub decimal : ℕ → ℕ → Bytes
decimal zero n = []
decimal (suc rounds) n =
    let rest = decimal rounds (n / 10) in
    if ltb n 10 then (48 + n) ∷ [] else rest ++ (48 + n % 10) ∷ []

-- std::to_string
unfoldable pub to_string : ℤ → Bytes
unfolding decimal
to_string (pos n) = decimal (suc n) n
to_string (negsuc n) = b'-' ∷ decimal (suc (suc n)) (suc n)

abbrev AreDigits : Bytes → Type 0
AreDigits bs = All (λ c. is_digit c ≡ true) bs

digit-is_digit : (k : ℕ) → k < 10 → is_digit (48 + k) ≡ true
unfolding is_digit
digit-is_digit k h = ground arith

decimal-AreDigits : (rounds n : ℕ) → AreDigits (decimal rounds n)
unfolding decimal
decimal-AreDigits zero n = tt
decimal-AreDigits (suc rounds) n = elim (Bool-cases (ltb n 10)) [
  | inl one ↦ rw one (digit-is_digit n (ground arith), tt)
  | inr more ↦ rw more (
      All-append (λ c. is_digit c ≡ true) (decimal rounds (n / 10)) ((48 + n % 10) ∷ [])
        (decimal-AreDigits rounds (n / 10)) (digit-is_digit (n % 10) (omega arith), tt))
]

read_digits-append :
    (a : ℕ) (bs : Bytes) (k : ℕ)
    → AreDigits bs
    → k < 10
    → read_digits a (bs ++ (48 + k) ∷ []) ≡ read_digits a bs * 10 + k
unfolding read_digits
read_digits-append a [] k h small = rw (digit-is_digit k small) (omega arith)
read_digits-append a (b ∷ bs) k h small =
    rw h.0 (read_digits-append (a * 10 + (b - 48)) bs k h.1 small)

read_digits-decimal : (rounds n : ℕ) → n < rounds → read_digits 0 (decimal rounds n) ≡ n
unfolding decimal read_digits
read_digits-decimal zero n h = absurd (omega arith)
read_digits-decimal (suc rounds) n h = elim (Bool-cases (ltb n 10)) [
  | inl one ↦ rw (one, digit-is_digit n (ground arith)) (omega arith)
  | inr more ↦
      let whole : 10 ≤ n = ground arith in
      let ih = read_digits-decimal rounds (n / 10) (omega arith) in
      rw
        (
          more,
          read_digits-append 0 (decimal rounds (n / 10)) (n % 10)
              (decimal-AreDigits rounds (n / 10)) (omega arith),
          ih,
        )
        (omega arith)
]

-- The digits are never empty.
decimal_first :
    (rounds n : ℕ) → 0 < rounds → n < rounds → (c : ℕ) × (cs : Bytes) × (decimal rounds n ≡ c ∷ cs)
unfolding decimal
decimal_first zero n h k = absurd (omega arith)
decimal_first (suc rounds) n h k = elim (Bool-cases (ltb n 10)) [
  | inl one ↦ (48 + n, [], rw one)
  | inr more ↦
      let whole : 10 ≤ n = ground arith in
      let (c, cs, e) = decimal_first rounds (n / 10) (omega arith) (omega arith) in
      (c, cs ++ (48 + n % 10) ∷ [], rw (more, e))
]

stol_digits :
    (bs : Bytes) (c : ℕ) (cs : Bytes)
    → bs ≡ c ∷ cs
    → AreDigits bs
    → stol bs ≡ long_value false (read_digits 0 bs)
unfolding stol is_digit
stol_digits bs c cs e h = rw e (plain c cs (subst AreDigits e h))
  where
    plain :
        (c : ℕ) (cs : Bytes)
        → AreDigits (c ∷ cs)
        → stol (c ∷ cs) ≡ long_value false (read_digits 0 (c ∷ cs))
    plain c cs h = ground (arith, h.0)

stol_negative :
    (bs : Bytes) (c : ℕ) (cs : Bytes)
    → bs ≡ c ∷ cs
    → AreDigits bs
    → stol (b'-' ∷ bs) ≡ long_value true (read_digits 0 bs)
unfolding stol is_digit
stol_negative bs c cs e h = rw e (signed c cs (subst AreDigits e h))
  where
    signed :
        (c : ℕ) (cs : Bytes)
        → AreDigits (c ∷ cs)
        → stol (b'-' ∷ c ∷ cs) ≡ long_value true (read_digits 0 (c ∷ cs))
    signed c cs h = ground (arith, h.0)

-- std::stol reads every long back from its decimal text.
pub stol-to_string :
    (n : ℤ) → negsuc (2 ^ 63 - 1) ≤ℤ n → n ≤ℤ pos (2 ^ 63 - 1) → stol (to_string n) ≡ done n
unfolding to_string long_value
stol-to_string (pos n) low high =
    let (c, cs, e) = decimal_first (suc n) n (omega arith) (omega arith) in
    rw
      (
        stol_digits (decimal (suc n) n) c cs e (decimal-AreDigits (suc n) n),
        read_digits-decimal (suc n) n (omega arith),
      )
      (ground arith)
stol-to_string (negsuc n) low high =
    let (c, cs, e) = decimal_first (suc (suc n)) (suc n) (omega arith) (omega arith) in
    rw
      (
        stol_negative (decimal (suc (suc n)) (suc n)) c cs e
            (decimal-AreDigits (suc (suc n)) (suc n)),
        read_digits-decimal (suc (suc n)) (suc n) (omega arith),
      )
      (ground arith)
