-- ===== src/Base/Bytes.antt =====
-- std::string as a list of bytes, and the functions of the standard library that read one: the C
-- view up to the first NUL, std::stol, std::stoul and the comparison that ignores case.
use Prim.Native.Nat.{ℕ, ◌+◌, ◌-◌, ◌*◌, ◌^◌}
use Prim.Native.Char.{code}
use Prim.Native.String.{String}
use mathlib.Core.Path.{◌≡◌, refl}
use mathlib.Core.Bool.{Bool, true, false, ◌&&◌, ◌||◌}
use mathlib.Core.List.{List, [], ◌∷◌}
use native.Mathlib.Omega.{arith}
use fio_relic.Base.Tests.{ltb, leb, ◌==◌, if◌then◌else◌}
use fio_relic.Base.Int.{ℤ, pos, negsuc}
use fio_relic.Base.Exec.{Outcome, done, thrown, not_a_number, number_out_of_range}

abbrev pub Bytes : Type 0
Bytes = List ℕ

-- The bytes of an ASCII literal.
abbrev pub codes : String → Bytes
codes String.[] = []
codes (String.◌∷◌ c s) = code c ∷ codes s

-- What a `const char*` into the bytes shows: everything before the first NUL.
unfoldable pub c_str : Bytes → Bytes
c_str [] = []
c_str (b ∷ bs) = if b == 0 then [] else b ∷ c_str bs

unfoldable pub bytes_eq : Bytes → Bytes → Bool
bytes_eq [] [] = true
bytes_eq (a ∷ as') (b ∷ bs) = a == b && bytes_eq as' bs
bytes_eq _ _ = false

pub bytes_eq→eq : (a b : Bytes) → bytes_eq a b ≡ true → a ≡ b
unfolding bytes_eq
bytes_eq→eq [] [] h = refl
bytes_eq→eq [] (b ∷ bs) h = ground arith
bytes_eq→eq (a ∷ r) [] h = ground arith
bytes_eq→eq (a ∷ r) (b ∷ bs) h = ground (arith, bytes_eq→eq r bs)

pub bytes_eq_refl : (a : Bytes) → bytes_eq a a ≡ true
unfolding bytes_eq
bytes_eq_refl [] = refl
bytes_eq_refl (a ∷ r) = ground (arith, bytes_eq_refl r)

to_lower : ℕ → ℕ
to_lower c = if leb b'A' c && leb c b'Z' then c + 32 else c

-- strcasecmp(a, b) == 0
unfoldable pub same_ignoring_case : Bytes → Bytes → Bool
unfolding to_lower
same_ignoring_case [] [] = true
same_ignoring_case (a ∷ as') (b ∷ bs) = to_lower a == to_lower b && same_ignoring_case as' bs
same_ignoring_case _ _ = false

unfoldable pub is_digit : ℕ → Bool
is_digit c = leb b'0' c && leb c b'9'

is_space : ℕ → Bool
is_space c = c == 32 || (leb 9 c && leb c 13)

unfoldable pub skip_spaces : Bytes → Bytes
unfolding is_space
skip_spaces [] = []
skip_spaces (c ∷ cs) = if is_space c then skip_spaces cs else c ∷ cs

-- The digits at the front, as a number.
unfoldable pub read_digits : ℕ → Bytes → ℕ
unfolding is_digit
read_digits n [] = n
read_digits n (c ∷ cs) = let r = read_digits (n * 10 + (c - 48)) cs in if is_digit c then r else n

-- The text after the sign, with the sign.
unfoldable pub read_sign : Bytes → Bool × Bytes
read_sign [] = (false, [])
read_sign (c ∷ cs) =
    if c == b'-' then (true, cs) else if c == b'+' then (false, cs) else (false, c ∷ cs)

unfoldable pub starts_with_digit : Bytes → Bool
unfolding is_digit
starts_with_digit [] = false
starts_with_digit (c ∷ cs) = is_digit c

unfoldable pub long_value : Bool → ℕ → Outcome ℤ
long_value true n =
    if n == 0
    then done (pos 0)
    else if leb n (2 ^ 63)
    then done (negsuc (n - 1))
    else thrown number_out_of_range
long_value false n = if ltb n (2 ^ 63) then done (pos n) else thrown number_out_of_range

-- std::stol, with a long of 64 bits.
unfoldable pub stol : Bytes → Outcome ℤ
unfolding skip_spaces read_sign starts_with_digit read_digits long_value
stol s =
    let (negative, digits) = read_sign (skip_spaces s) in
    if starts_with_digit digits
    then long_value negative (read_digits 0 digits)
    else thrown not_a_number

-- std::stoul, with an unsigned long of 64 bits: a minus sign negates in the unsigned type.
unfoldable pub stoul : Bytes → Outcome ℕ
unfolding skip_spaces read_sign starts_with_digit read_digits
stoul s =
    let (negative, digits) = read_sign (skip_spaces s) in
    let n = read_digits 0 digits in
    if starts_with_digit digits
    then (if ltb n (2 ^ 64)
        then done (if negative && ltb 0 n then 2 ^ 64 - n else n)
        else thrown number_out_of_range)
    else thrown not_a_number
