-- ===== src/Tests/Configured.antt =====
-- Options that are parsed, for a writer and for a cleaner.
use mathlib.Core.Path.{subst, ap}
use fio_relic.Base.{
  ◌*◌, true, false, Bool, ◌&&◌, List, [], ◌∷◌, ◌≡◌, refl, Option, none, some, arith, All,
  if◌then◌else◌,
}
use fio_relic.Base.Int.{ℤ, pos, negsuc}
use fio_relic.Base.Bytes.{Bytes, codes, bytes_eq}
use fio_relic.Options.{
  OptionValue, integer, boolean, string, opt_source_id, opt_websocket_server_ip,
  opt_websocket_server_port, opt_db_user, opt_db_password, opt_db_url, opt_ack_every, opt_keep_days,
  opt_no_traces,
}
use fio_relic.Tests.{tables}
use fio_relic.Writer.Startup.{Options, new_writer, get_options}
use fio_relic.Writer.Configuration.{
  AreSettings, Reads, settings_after, writer_options, new_settings, store_options, parse_options,
  parse_options-AreSettings,
}
use fio_relic.Cleaner
use fio_relic.Cleaner.{new_cleaner, kept_blocks}
use fio_relic.Cleaner.Configuration
use fio_relic.Options.Parsing.{
  value_at, as_int, as_string, as_bool, Kind, int_value, string_value, bool_value, no_value, Need,
  optional, required, default_to, Spec, Values, find, ProgramOptions, IsDocumentedParser, IsGiven,
  HasKind,
}

-- What a parser has read.
abbrev values : Values
values =
    (codes opt_source_id, integer (pos 7))
    ∷ (codes opt_websocket_server_port, integer (pos 8800))
    ∷ (codes opt_websocket_server_ip, string (codes "0"))
    ∷ (codes opt_db_user, string (codes "relic"))
    ∷ (codes opt_db_password, string (codes "secret"))
    ∷ (codes opt_db_url, string (codes "db"))
    ∷ (codes opt_ack_every, integer (pos 10))
    ∷ (codes opt_keep_days, integer (pos 30))
    ∷ (codes opt_no_traces, boolean true)
    ∷ []

abbrev has_kind : Kind → OptionValue (Unit {0}) → Bool
has_kind int_value (integer n) = true
has_kind string_value (string s) = true
has_kind bool_value (boolean b) = true
has_kind no_value v = true
has_kind _ _ = false

abbrev is_value_of : Kind → Option (OptionValue (Unit {0})) → Bool
is_value_of k none = false
is_value_of k (some v) = has_kind k v

abbrev is_given : Need → Kind → Option (OptionValue (Unit {0})) → Bool
is_given optional k o = true
is_given required k o = is_value_of k o
is_given (default_to v) k o = is_value_of k o

abbrev are_given : List Spec → Bool
are_given [] = true
are_given (s ∷ ss) = is_given s.need s.kind (find s.name values) && are_given ss

-- A parser that has read them, where they serve the description.
abbrev parser : ProgramOptions
parser = record { parse = λ specs argv config. if are_given specs then some values else none }

has_kind-HasKind : (k : Kind) (v : OptionValue (Unit {0})) → has_kind k v ≡ true → HasKind k v
has_kind-HasKind int_value (integer n) h = (n, refl)
has_kind-HasKind string_value (string s) h = (s, refl)
has_kind-HasKind bool_value (boolean b) h = (b, refl)
has_kind-HasKind no_value v h = tt
has_kind-HasKind _ _ h = absurd (ground arith)

is_value_of-IsThere :
    (name : Bytes) (k : Kind) (o : Option (OptionValue (Unit {0})))
    → find name values ≡ o
    → is_value_of k o ≡ true
    → (v : OptionValue (Unit {0})) × (find name values ≡ some v) × HasKind k v
is_value_of-IsThere name k none e h = absurd (ground arith)
is_value_of-IsThere name k (some v) e h = (v, e, has_kind-HasKind k v h)

is_given-IsGiven :
    (n : Need) (name : Bytes) (k : Kind)
    → is_given n k (find name values) ≡ true
    → IsGiven values (record { name = name; kind = k; need = n })
is_given-IsGiven optional name k h = tt
is_given-IsGiven required name k h = is_value_of-IsThere name k (find name values) refl h
is_given-IsGiven (default_to v) name k h = is_value_of-IsThere name k (find name values) refl h

are_given-All : (specs : List Spec) → are_given specs ≡ true → All (IsGiven values) specs
are_given-All [] h = tt
are_given-All (s ∷ ss) h = (
  is_given-IsGiven s.need s.name s.kind (ground (arith, h)),
  are_given-All ss (ground (arith, h)),
)

parser-IsDocumented : IsDocumentedParser parser
parser-IsDocumented = record {
  complete = λ specs argv config vm e. checked specs (are_given specs) refl vm e;
}
  where
    the_values : Option Values → Values
    the_values none = []
    the_values (some vm) = vm

    checked :
        (specs : List Spec) (b : Bool)
        → are_given specs ≡ b
        → (vm : Values) → (if b then some values else none) ≡ some vm
        → All (IsGiven vm) specs
    checked specs true h vm e =
        subst (λ (u : Values). All (IsGiven u) specs) (ap the_values e) (are_given-All specs h)
    checked specs false h vm e = absurd (ground (arith, e))

parse_options-AreSettings_example :
    (o : Option Options) × Reads (parser.parse writer_options [] []) o
    × ((parse_options parser [] [] (new_settings (pos 0))).0
        ≡ (get_options o (new_writer tables)).0)
    × ((parse_options parser [] [] (new_settings (pos 0))).1
        ≡ settings_after o (new_settings (pos 0)))
    × AreSettings
        (parse_options parser [] [] (new_settings (pos 0))).1
        (get_options o (new_writer tables)).1
parse_options-AreSettings_example =
    parse_options-AreSettings parser parser-IsDocumented [] [] (new_settings (pos 0))
      (new_writer tables) (record { source = refl; traces = refl; ack = refl; keep = refl })

-- What the parser has read reaches the writer's settings.
parsed_settings :
    (parse_options parser [] [] (new_settings (pos 0))).1.keep_blocks ≡ pos (30 * 24 * 7200)
unfolding parse_options find value_at as_int as_string as_bool store_options kept_blocks bytes_eq
parsed_settings = refl

abbrev unset : Configuration.Settings
unset = record { db_user = []; db_password = []; db_url = []; keep_blocks = negsuc 0 }

parse_options_lem_example :
    (days : Option ℤ) × Configuration.Reads
      (parser.parse Configuration.cleaner_options [] [])
      days
      unset
      (Configuration.parse_options parser [] [] unset).1
    × ((Configuration.parse_options parser [] [] unset).0
        ≡ (Cleaner.get_options days (new_cleaner tables)).0)
    × ((Configuration.parse_options parser [] [] unset).1.keep_blocks
        ≡ (Cleaner.get_options days (new_cleaner tables)).1.keep_blocks)
parse_options_lem_example =
    Configuration.parse_options_lem parser parser-IsDocumented [] [] unset (new_cleaner tables) refl
