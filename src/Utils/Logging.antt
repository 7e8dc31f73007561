-- ===== src/Utils/Logging.antt =====
-- The functions that prototype/utils.h declares for output to a file, and those of prototype/utils.cpp.
use fio_relic.Base.{Option, List, [], ◌∷◌, ◌++◌, map, Bool, ℕ, if◌then◌else◌}
use fio_relic.Base.Int.{ℤ}
use fio_relic.Base.Bytes.{Bytes, c_str, codes}
use fio_relic.Utils.{
  Arg, LogLevel, warning, prefix, crlf, trim_warning, unknown_level, format_v, format_string,
  print_line, Exception, make_exception2, Thrown, of_program, get_file_name,
  std_out_current_exception, make_exception, exception_std_out, str,
}

pub data File : Type 0 where
  stdout : File
  other_file : ℕ → File

-- What is written, file by file in order.
abbrev pub Written : Type 0
Written = List (File × Bytes)

-- FormatV, Format, WriteV, the two of Write, StdOutV, and the two of StdOut.
pub record Logging : Type 0 where
  pub format_v : Bytes → List Arg → Bytes × Bool
  pub format : Bytes → List Arg → Bytes
  pub write_v : File → LogLevel → Bytes → List Arg → Written
  pub write : File → LogLevel → Bytes → List Arg → Written
  pub write_string : File → LogLevel → Bytes → List Arg → Written
  pub std_out_v : LogLevel → Bytes → List Arg → Written
  pub std_out : LogLevel → Bytes → List Arg → Written
  pub std_out_string : LogLevel → Bytes → List Arg → Written

abbrev pub on_file : File → List Bytes → Written
on_file file texts = map (λ t. (file, t)) texts

module _ (expand : Bytes → List Arg → Bytes) where
  -- WriteV: the warning of FormatV goes to the standard output, whatever the file is.
  unfoldable pub write_v_to : File → LogLevel → Bytes → List Arg → Written
  write_v_to file level format args =
      on_file file (unknown_level expand level)
      ++ (if (format_v expand (prefix level ++ format ++ crlf) args).1
          then (stdout, print_line expand warning trim_warning [])
            ∷ (file, print_line expand level format args)
            ∷ []
          else (file, print_line expand level format args) ∷ [])

  -- Write for a const char*, and for a std::string, which is read up to its first NUL.
  unfoldable pub write_to : File → LogLevel → Bytes → List Arg → Written
  unfolding write_v_to
  write_to file level format args = write_v_to file level format args

  unfoldable pub write_string_to : File → LogLevel → Bytes → List Arg → Written
  unfolding write_v_to
  write_string_to file level format args = write_v_to file level (c_str format) args

  -- The implementation.
  abbrev pub logging : Logging
  logging = record {
    format_v = format_v expand;
    format = format_string expand;
    write_v = write_v_to;
    write = write_to;
    write_string = write_string_to;
    std_out_v = write_v_to stdout;
    std_out = write_v_to stdout;
    std_out_string = λ level format. write_v_to stdout level (c_str format);
  }

  -- THROW_Exception2, at a place of the source
  unfoldable pub throw_exception2 : Bytes → ℤ → Bytes → Bytes → List Arg → Thrown
  unfolding make_exception2
  throw_exception2 file line function format args =
      of_program (make_exception2 expand file line function format args)

  -- The constructor of Exception2 with an error code, which it does not read.
  unfoldable pub make_exception2_av : Bytes → ℤ → Bytes → ℤ → Bytes → List Arg → Exception
  unfolding make_exception2
  make_exception2_av file line function av_error_code format args =
      make_exception2 expand file line function format args

-- class Exception2 adds constructors to Exception, and no fields.
abbrev pub Exception2 : Type 0
Exception2 = Exception

-- getFileName, StdOutCurrentException, and the functions of Exception and Exception2.
pub record Reporting : Type 0 where
  pub get_file_name : Bytes → Bytes
  pub std_out_current_exception : Thrown → Bytes → ℤ → Bytes → Option Bytes → List Arg → List Bytes
  pub make_exception : Bytes → List Arg → Exception
  pub std_out : Exception → List Bytes
  pub make_exception2_av : Bytes → ℤ → Bytes → ℤ → Bytes → List Arg → Exception2
  pub make_exception2 : Bytes → ℤ → Bytes → Bytes → List Arg → Exception2

module _ (expand : Bytes → List Arg → Bytes) where
  -- The implementation.
  abbrev pub reporting : Reporting
  reporting = record {
    get_file_name = get_file_name;
    std_out_current_exception = std_out_current_exception expand;
    make_exception = make_exception expand;
    std_out = exception_std_out expand;
    make_exception2_av = make_exception2_av expand;
    make_exception2 = make_exception2 expand;
  }

  -- STDOUT_CURRENT_EXCEPTION, at a place of the source
  unfoldable pub stdout_current_exception :
      Thrown → Bytes → ℤ → Bytes → Option Bytes → List Arg → List Bytes
  stdout_current_exception t file line function format args =
      reporting.std_out_current_exception t file line function format args

  -- THROW_DatabaseException2, for the message of the exception of the driver
  unfoldable pub throw_database_exception2 : Bytes → ℤ → Bytes → Bytes → Thrown
  unfolding throw_exception2
  throw_database_exception2 file line function message =
      throw_exception2 expand file line function (codes "Database: %s") (str (c_str message) ∷ [])
