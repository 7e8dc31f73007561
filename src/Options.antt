-- ===== src/Options.antt =====
-- prototype/options.cpp and options.h: the names of the options and StdOutConfiguration. How a
-- stream prints a number is the parameter `put`.
pub mod Parsing
pub mod Printing
use fio_relic.Base.{List, [], ◌∷◌, ◌++◌, Bool, true, false, if◌then◌else◌, any, String}
use fio_relic.Base.Int.{ℤ, pos}
use fio_relic.Base.Bytes.{Bytes, codes, c_str, bytes_eq}
use fio_relic.Utils.{crlf}

abbrev pub config_file : String
config_file = "config.ini"

abbrev pub opt_help : String
opt_help = "help"

abbrev pub opt_writer : String
opt_writer = "writer"

abbrev pub opt_cleaner : String
opt_cleaner = "cleaner"

abbrev pub opt_source_id : String
opt_source_id = "source-id"

abbrev pub opt_websocket_server_ip : String
opt_websocket_server_ip = "ip"

abbrev pub opt_websocket_server_port : String
opt_websocket_server_port = "port"

abbrev pub opt_db_user : String
opt_db_user = "db-user"

abbrev pub opt_db_password : String
opt_db_password = "db-password"

abbrev pub opt_db_url : String
opt_db_url = "db-url"

abbrev pub opt_ack_every : String
opt_ack_every = "ack-every"

abbrev pub opt_keep_days : String
opt_keep_days = "keep-days"

abbrev pub opt_no_traces : String
opt_no_traces = "no-traces"

-- All the names.
abbrev pub option_names : List String
option_names =
    opt_help ∷ opt_writer ∷ opt_cleaner ∷ opt_source_id ∷ opt_websocket_server_ip
    ∷ opt_websocket_server_port ∷ opt_db_user ∷ opt_db_password ∷ opt_db_url ∷ opt_ack_every
    ∷ opt_keep_days ∷ opt_no_traces ∷ []

-- The value of an option by its type: long, ulong, int and uint are integers.
pub data OptionValue (Double : Type 0) : Type 0 where
  integer : ℤ → OptionValue Double
  boolean : Bool → OptionValue Double
  double : Double → OptionValue Double
  string : Bytes → OptionValue Double
  no_cast : OptionValue Double

module _ {Double : Type 0} (put : ℤ → Bytes) (put_double : Double → Bytes) where
  -- The chain of any_cast.
  unfoldable pub print_value : OptionValue Double → Bytes
  print_value (integer n) = put n
  print_value (boolean b) = put (if b then pos 1 else pos 0)
  print_value (double d) = put_double d
  print_value (string s) = s
  print_value no_cast = codes "<no cast>"

  unfoldable pub print_option : Bytes × OptionValue Double → Bytes
  print_option (name, value) = c_str name ++ codes "=" ++ print_value value ++ crlf

  -- The loop over the options.
  unfoldable pub print_options : List (Bytes × OptionValue Double) → List Bytes → Bytes
  unfolding print_option
  print_options [] excluded = []
  print_options (o ∷ os) excluded =
      let rest = print_options os excluded in
      if any (bytes_eq o.0) excluded then rest else print_option o ++ rest

  -- StdOutConfiguration
  unfoldable pub std_out_configuration : List (Bytes × OptionValue Double) → List Bytes → Bytes
  unfolding print_options
  std_out_configuration options excluded =
      codes "Configuration:" ++ crlf ++ print_options options excluded

  -- StdOutConfiguration with its default argument
  unfoldable pub std_out_whole_configuration : List (Bytes × OptionValue Double) → Bytes
  unfolding std_out_configuration
  std_out_whole_configuration options = std_out_configuration options []
