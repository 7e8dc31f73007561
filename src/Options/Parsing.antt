-- ===== src/Options/Parsing.antt =====
-- The parsing of the options with boost::program_options, as getOptions of prototype/Writer.cpp and
-- prototype/Cleaner.cpp and main of prototype/main.cpp do it. The library is a parameter.
use fio_relic.Base.{◌≡◌, List, [], ◌∷◌, Bool, true, false, Option, none, some, if◌then◌else◌, All}
use fio_relic.Base.Int.{ℤ}
use fio_relic.Base.Bytes.{Bytes, bytes_eq}
use fio_relic.Base.Exec.{Outcome, done, thrown, from_option, and_then, no_option, other_type}
use fio_relic.Options.{OptionValue, integer, boolean, string}

-- po::value<T>(), and none for an option without a value
pub data Kind : Type 0 where
  int_value string_value bool_value no_value : Kind

-- An option of a description: required(), or default_value, or neither. No program option is a double.
pub data Need : Type 0 where
  optional required : Need
  default_to : OptionValue (Unit {0}) → Need

pub record Spec : Type 0 where
  pub name : Bytes
  pub kind : Kind
  pub need : Need

-- po::variables_map
abbrev pub Values : Type 0
Values = List (Bytes × OptionValue (Unit {0}))

unfoldable pub find : Bytes → Values → Option (OptionValue (Unit {0}))
find name [] = none
find name ((key, v) ∷ vs) = if bytes_eq key name then some v else find name vs

-- vm.at(name).as<int>() and its likes: `at` throws if there is no such option, and `as` if the value
-- has another type.
unfoldable pub as_int : OptionValue (Unit {0}) → Outcome ℤ
as_int (integer n) = done n
as_int _ = thrown other_type

unfoldable pub as_bool : OptionValue (Unit {0}) → Outcome Bool
as_bool (boolean b) = done b
as_bool _ = thrown other_type

unfoldable pub as_string : OptionValue (Unit {0}) → Outcome Bytes
as_string (string s) = done s
as_string _ = thrown other_type

unfoldable pub value_at :
    {A : Type 0} → (OptionValue (Unit {0}) → Outcome A) → Bytes → Values → Outcome A
unfolding find
value_at cast name vm = and_then (from_option (find name vm) no_option) cast

-- The catch clauses of getOptions: whether the try block came to its end.
abbrev pub caught : {S : Type 0} → Outcome (Unit {0}) × S → Bool × S
caught (done a, s) = (true, s)
caught (thrown e, s) = (false, s)

-- The two calls of store, for the command line and for the text of the configuration file, and
-- notify; `none` is an exception of the library.
pub record ProgramOptions : Type 0 where
  pub parse : List Spec → List Bytes → Bytes → Option Values

-- The type of a value is that of its option.
abbrev pub HasKind : Kind → OptionValue (Unit {0}) → Type 0
HasKind int_value v = (n : ℤ) × (v ≡ integer n)
HasKind string_value v = (s : Bytes) × (v ≡ string s)
HasKind bool_value v = (b : Bool) × (v ≡ boolean b)
HasKind no_value v = Unit {0}

-- An option that is required or has a default is there, with a value of its type.
abbrev pub IsThere : Values → Spec → Type 0
IsThere vm s = (v : OptionValue (Unit {0})) × (find s.name vm ≡ some v) × HasKind s.kind v

abbrev pub IsGiven : Values → Spec → Type 0
IsGiven vm s = elim s.need [
  | optional ↦ Unit {0}
  | required ↦ IsThere vm s
  | default_to v ↦ IsThere vm s
]

-- The documentation of notify and of default_value: a parse that returns has every option that is
-- required or has a default.
pub record IsDocumentedParser (p : ProgramOptions) : Type 0 where
  pub complete :
      (specs : List Spec) (argv : List Bytes) (config : Bytes) (vm : Values)
      → p.parse specs argv config ≡ some vm
      → All (IsGiven vm) specs

module _ (vm : Values) (name : Bytes) where
  pub value_at-int :
      IsThere vm (record { name = name; kind = int_value; need = required })
      → (n : ℤ) × (value_at as_int name vm ≡ done n)
  unfolding value_at as_int
  value_at-int (v, found, (n, e)) = (n, rw (found, e))

  pub value_at-bool :
      IsThere vm (record { name = name; kind = bool_value; need = required })
      → (b : Bool) × (value_at as_bool name vm ≡ done b)
  unfolding value_at as_bool
  value_at-bool (v, found, (b, e)) = (b, rw (found, e))

  pub value_at-string :
      IsThere vm (record { name = name; kind = string_value; need = required })
      → (s : Bytes) × (value_at as_string name vm ≡ done s)
  unfolding value_at as_string
  value_at-string (v, found, (s, e)) = (s, rw (found, e))
