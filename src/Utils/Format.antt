-- ===== src/Utils/Format.antt =====
-- FormatV and WriteV of prototype/utils.cpp: the size of the result, and what is printed.
use fio_relic.Base.{
  ℕ, zero, suc, ◌-◌, ◌≤◌, ◌<◌, ◌≡◌, ◌≢◌, refl, ap, List, [], ◌∷◌, ◌++◌, false, arith, leb, All,
  take, replicate, length, length-append, length-replicate,
}
use fio_relic.Base.Bytes.{Bytes, c_str}
use fio_relic.Utils.{
  Arg, print_line, format_string, unknown_level, LogLevel, info, warning, error, format_v,
  vsnprintf_buffer, pop_back, write_v, prefix,
}

length-pop_back : (bs : Bytes) → length (pop_back bs) ≡ length bs - 1
unfolding pop_back
length-pop_back [] = refl
length-pop_back (b ∷ []) = omega arith
length-pop_back (b ∷ c ∷ bs) = omega (arith, length-pop_back (c ∷ bs))

length-take-le : (n : ℕ) (bs : Bytes) → length (take n bs) ≤ n
length-take-le zero bs = omega arith
length-take-le (suc n) [] = omega arith
length-take-le (suc n) (b ∷ bs) = omega (arith, length-take-le n bs)

length-vsnprintf_buffer :
    (size : ℕ) (text : Bytes) → 0 < size → length (vsnprintf_buffer size text) ≡ size
unfolding vsnprintf_buffer
length-vsnprintf_buffer size text h =
    let written = take (size - 1) text in
    omega (
      arith,
      length-append written (replicate (size - length written) 0),
      length-replicate {A = ℕ} (size - length written) 0,
      length-take-le (size - 1) text,
    )

c_str-replicate : (n : ℕ) → c_str (replicate n 0) ≡ []
unfolding c_str
c_str-replicate zero = refl
c_str-replicate (suc n) = refl

-- A text without NULs, padded by NULs, is seen whole through a `const char*`.
c_str-padded : (bs : Bytes) (n : ℕ) → All (λ b. b ≢ 0) bs → c_str (bs ++ replicate n 0) ≡ bs
unfolding c_str
c_str-padded [] n h = c_str-replicate n
c_str-padded (b ∷ bs) n h = ground (arith, c_str-padded bs n)

pop_back-cons : (b : ℕ) (bs : Bytes) → 0 < length bs → pop_back (b ∷ bs) ≡ b ∷ pop_back bs
unfolding pop_back
pop_back-cons b [] h = absurd (omega arith)
pop_back-cons b (c ∷ bs) h = refl

pop_back-replicate : (n : ℕ) → pop_back (replicate (suc n) 0) ≡ replicate n 0
unfolding pop_back
pop_back-replicate zero = refl
pop_back-replicate (suc n) = rw (pop_back-replicate n)

pop_back-padded : (bs : Bytes) (n : ℕ) → pop_back (bs ++ replicate (suc n) 0) ≡ bs ++ replicate n 0
pop_back-padded [] n = pop_back-replicate n
pop_back-padded (b ∷ bs) n =
    rw
      (pop_back-cons b (bs ++ replicate (suc n) 0)
        (omega (arith, length-append bs (0 ∷ replicate n 0))))
      (ap (λ (t : Bytes). b ∷ t) (pop_back-padded bs n))

take-All : (P : ℕ → Type 0) (n : ℕ) (bs : Bytes) → All P bs → All P (take n bs)
take-All P zero bs h = tt
take-All P (suc n) [] h = tt
take-All P (suc n) (b ∷ bs) h = (h.0, take-All P n bs h.1)

take-all : (n : ℕ) (bs : Bytes) → length bs ≤ n → take n bs ≡ bs
take-all zero [] h = refl
take-all zero (b ∷ bs) h = absurd (omega arith)
take-all (suc n) [] h = refl
take-all (suc n) (b ∷ bs) h = ap (λ (t : Bytes). b ∷ t) (take-all n bs (omega arith))

-- pop_back of a string's buffer, seen through a `const char*`: the text cut to one byte less than
-- the buffer.
c_str-pop_back :
    (size : ℕ) (text : Bytes)
    → 0 < size
    → All (λ b. b ≢ 0) text
    → c_str (pop_back (vsnprintf_buffer size text)) ≡ take (size - 1) text
unfolding vsnprintf_buffer
c_str-pop_back size text h free =
    let written = take (size - 1) text in
    let spare = size - 1 - length written in
    let room : size - length written ≡ suc spare = omega (arith, length-take-le (size - 1) text) in
    rw (room, pop_back-padded written spare)
      (c_str-padded written spare (take-All (λ b. b ≢ 0) (size - 1) text free))

module _ (expand : Bytes → List Arg → Bytes) where
  -- FormatV returns a string of 4095 bytes whatever it is given, and warns exactly when the
  -- formatted text has 4096 bytes or more.
  pub format_v_lem :
      (format : Bytes) (args : List Arg)
      → (length (format_v expand format args).0 ≡ 4095)
        × ((format_v expand format args).1 ≡ leb 4096 (length (expand format args)))
  unfolding format_v
  format_v_lem format args =
      let text = expand format args in
      (
        omega (
          arith,
          length-pop_back (vsnprintf_buffer 4096 text),
          length-vsnprintf_buffer 4096 text (omega arith),
        ),
        refl,
      )

  -- If the formatted text holds no NUL, the C string that FormatV returns is its first 4095 bytes.
  format_v_text :
      (format : Bytes) (args : List Arg)
      → All (λ b. b ≢ 0) (expand format args)
      → c_str (format_v expand format args).0 ≡ take 4095 (expand format args)
  unfolding format_v
  format_v_text format args free = c_str-pop_back 4096 (expand format args) (omega arith) free

  print_line_plain :
      (level : LogLevel) (format : Bytes) (args : List Arg)
      → let text = expand (prefix level ++ format ++ 13 ∷ 10 ∷ []) args in
        length text < 4096
        → All (λ b. b ≢ 0) text
        → expand text [] ≡ text
        → print_line expand level format args ≡ text
  unfolding print_line format_string
  print_line_plain level format args short free plain =
      let whole = prefix level ++ format ++ 13 ∷ 10 ∷ [] in
      rw (format_v_text whole args free, take-all 4095 (expand whole args) (omega arith)) plain

  no_unknown_level :
      (level : LogLevel) → ((n : ℕ) → level ≢ LogLevel.other n) → unknown_level expand level ≡ []
  unfolding unknown_level
  no_unknown_level info h = refl
  no_unknown_level warning h = refl
  no_unknown_level error h = refl
  no_unknown_level (LogLevel.other n) h = absurd (h n refl)

  -- If the formatted message has fewer than 4096 bytes, no NUL, and is left alone by a second
  -- formatting without arguments (as a text without '%' is), WriteV at one of the three levels
  -- writes once, and writes the level's prefix and the message, formatted, with CR LF behind it.
  pub write_v_plain :
      (level : LogLevel) (format : Bytes) (args : List Arg)
      → ((n : ℕ) → level ≢ LogLevel.other n)
      → let text = expand (prefix level ++ format ++ 13 ∷ 10 ∷ []) args in
        length text < 4096
        → All (λ b. b ≢ 0) text
        → expand text [] ≡ text
        → write_v expand level format args ≡ text ∷ []
  unfolding write_v
  write_v_plain level format args known short free plain =
      let whole = prefix level ++ format ++ 13 ∷ 10 ∷ [] in
      let quiet : leb 4096 (length (expand whole args)) ≡ false = ground arith in
      rw (
        no_unknown_level level known,
        (format_v_lem whole args).1,
        quiet,
        print_line_plain level format args short free plain,
      )
