-- ===== src/Cleaner/Class.antt =====
-- class Cleaner as a whole (prototype/Cleaner.cpp): the functions that its header declares.
use fio_relic.Base.{List, Bool, Option}
use fio_relic.Base.Int.{ℤ}
use fio_relic.Base.Bytes.{Bytes}
use fio_relic.Base.Exec.{Exec}
use fio_relic.Options.Parsing.{Spec, ProgramOptions}
use fio_relic.Tables.{Tables}
use fio_relic.Cleaner
use fio_relic.External.{GetInt}
use fio_relic.Cleaner.{Cleaner, Pass}
use fio_relic.Cleaner.Configuration.{Settings, cleaner_options, parse_options}

-- The functions, in the order of the source.
pub record CleanerClass : Type 0 where
  pub get_options_description : List Spec
  pub get_options : ProgramOptions → List Bytes → Bytes → Settings → Bool × Settings
  pub run : GetInt → Option ℤ → Option Tables → Bool → List Pass → Exec Cleaner (Unit {0})
  pub close : Bool → Exec Cleaner (Unit {0})

abbrev pub cleaner_class : CleanerClass
cleaner_class = record {
  get_options_description = cleaner_options;
  get_options = parse_options;
  run = Cleaner.run;
  close = Cleaner.close;
}
