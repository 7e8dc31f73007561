-- ===== src/Utils.antt =====
-- prototype/utils.cpp and utils.h: formatted output into a buffer of 4096 bytes, log levels, and
-- the program's exceptions. What printf makes of a format and its arguments is the parameter
-- `expand`; the buffer, the cut and the second formatting by fprintf are modelled.
pub mod Names
pub mod Format
pub mod Logging
use fio_relic.Base.{
  ℕ, ◌-◌, Bool, List, [], ◌∷◌, ◌++◌, if◌then◌else◌, leb, ◌==◌, length, take, replicate, Option,
  none, some,
}
use fio_relic.Base.Int.{ℤ, pos}
use fio_relic.Base.Bytes.{Bytes, codes, c_str}

-- enum LogLevel; `other` is a value outside the enumeration.
pub data LogLevel : Type 0 where
  info warning error : LogLevel
  other : ℕ → LogLevel

-- The arguments that the program passes through `...`.
pub data Arg : Type 0 where
  str : Bytes → Arg
  int : ℤ → Arg

abbrev pub buffer_size : ℕ
buffer_size = 4096

-- vsnprintf(&s[0], s.size(), …) on a string of `size` NULs: at most size - 1 bytes are written.
unfoldable pub vsnprintf_buffer : ℕ → Bytes → Bytes
vsnprintf_buffer size text =
    let written = take (size - 1) text in written ++ replicate (size - length written) 0

-- s.pop_back(), under the test of s.length()
unfoldable pub pop_back : Bytes → Bytes
pop_back [] = []
pop_back (b ∷ []) = []
pop_back (b ∷ c ∷ bs) = b ∷ pop_back (c ∷ bs)

abbrev pub trim_warning : Bytes
trim_warning = codes "The next message is trimmed!"

abbrev pub crlf : Bytes
crlf = 13 ∷ 10 ∷ []

-- The switch of WriteV: what precedes the message, and what the default branch prints first.
unfoldable pub prefix : LogLevel → Bytes
prefix info = []
prefix warning = codes "WARNING: "
prefix error = codes "ERROR: "
prefix (other n) = []

unfoldable pub unknown_level : (Bytes → List Arg → Bytes) → LogLevel → List Bytes
unknown_level expand (other n) =
    expand (codes "ERROR: Unknown LogLevel : % i") (int (pos n) ∷ []) ∷ []
unknown_level expand _ = []

module _ (expand : Bytes → List Arg → Bytes) where
  -- FormatV: the string, and whether it warns that the message is trimmed.
  unfoldable pub format_v : Bytes → List Arg → Bytes × Bool
  unfolding vsnprintf_buffer pop_back
  format_v format args =
      let text = expand format args in
      (pop_back (vsnprintf_buffer buffer_size text), leb buffer_size (length text))

  -- Format
  unfoldable pub format_string : Bytes → List Arg → Bytes
  format_string format args = (format_v format args).0

  -- The last two statements of WriteV: the string from FormatV is itself the format of fprintf.
  unfoldable pub print_line : LogLevel → Bytes → List Arg → Bytes
  print_line level format args =
      expand (c_str (format_string (prefix level ++ format ++ crlf) args)) []

  -- WriteV: what reaches the file, write by write. The warning of FormatV goes through StdOut.
  unfoldable pub write_v : LogLevel → Bytes → List Arg → List Bytes
  write_v level format args =
      unknown_level expand level
      ++ (if (format_v (prefix level ++ format ++ crlf) args).1
          then print_line warning trim_warning [] ∷ print_line level format args ∷ []
          else print_line level format args ∷ [])

  -- StdOutV, StdOut
  unfoldable pub std_out : LogLevel → Bytes → List Arg → List Bytes
  unfolding write_v
  std_out level format args = write_v level format args

-- strrchr(file, c) + 1: what follows the last `c`.
unfoldable pub after_last : ℕ → Bytes → Option Bytes
after_last c [] = none
after_last c (b ∷ bs) = elim (after_last c bs) [
  | some rest ↦ some rest
  | none ↦ if b == c then some bs else none
]

-- getFileName: the part after the last '/', or else after the last '\\'.
unfoldable pub get_file_name : Bytes → Bytes
unfolding after_last
get_file_name file = elim (after_last b'/' file) [
  | some name ↦ name
  | none ↦ elim (after_last 92 file) [ some name ↦ name | none ↦ file ]
]

-- class Exception
pub record Exception : Type 0 where
  pub message : Bytes
  pub file : Bytes
  pub line : ℤ
  pub function : Bytes

-- What a catch clause may meet.
pub data Thrown : Type 0 where
  of_program : Exception → Thrown
  of_boost : Bytes → Thrown
  of_std : Bytes → Thrown
  of_other : Thrown

abbrev located : Bytes
located = codes "%s" ++ crlf ++ codes "[%s, %i, %s()]"

module _ (expand : Bytes → List Arg → Bytes) where
  -- Exception::Exception
  unfoldable pub make_exception : Bytes → List Arg → Exception
  make_exception format args = record {
    message = format_string expand format args;
    file = [];
    line = pos 0;
    function = [];
  }

  -- Exception2::Exception2
  unfoldable pub make_exception2 : Bytes → ℤ → Bytes → Bytes → List Arg → Exception
  unfolding get_file_name
  make_exception2 file line function format args = record {
    message = format_string expand format args;
    file = get_file_name file;
    line = line;
    function = function;
  }

  -- Exception::StdOut. With no file the message is passed on as a format.
  unfoldable pub exception_std_out : Exception → List Bytes
  exception_std_out e = elim e.file [
    | [] ↦ std_out expand error (c_str e.message) []
    | b ∷ bs ↦
        std_out expand error located
          (str (c_str e.message) ∷ str (c_str (b ∷ bs)) ∷ int e.line ∷ str (c_str e.function) ∷ [])
  ]

  -- The catch clauses that StdOutCurrentException and main share.
  unfoldable pub report_thrown : Thrown → List Bytes
  unfolding exception_std_out
  report_thrown (of_program e) = exception_std_out e
  report_thrown (of_boost text) = std_out expand error (c_str text) []
  report_thrown (of_std text) = std_out expand error (c_str text) []
  report_thrown of_other = std_out expand error (codes "Exception of unknown type.") []

  -- The text of the optional format of StdOutCurrentException.
  optional_text : Option Bytes → List Arg → Bytes
  optional_text none args = []
  optional_text (some format) args = format_string expand format args

  -- StdOutCurrentException
  unfoldable pub std_out_current_exception :
      Thrown → Bytes → ℤ → Bytes → Option Bytes → List Arg → List Bytes
  unfolding report_thrown optional_text get_file_name
  std_out_current_exception thrown_ file line function format args =
      report_thrown thrown_
      ++ std_out expand error (codes " => %s" ++ crlf ++ codes "[%s, %i, %s()]") (
          str (c_str (optional_text format args))
          ∷ str (get_file_name file)
          ∷ int line
          ∷ str function
          ∷ [])
