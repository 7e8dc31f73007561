-- ===== src/Main.antt =====
-- prototype/main.cpp: which part of the program runs, what is printed when it ends, and the exit
-- code. The two parts are arguments: what each prints, and what it throws if it does.
pub mod Program
use fio_relic.Base.{
  arith, refl, ℕ, List, [], ◌∷◌, ◌++◌, Bool, true, false, String, ◌≡◌, Option, none, some,
  if◌then◌else◌,
}
use fio_relic.Base.Bytes.{Bytes, codes}
use fio_relic.Base.Int.{pos}
use fio_relic.Options.Parsing.{Spec, no_value, optional, Values, find}
use fio_relic.Options.{opt_help, opt_cleaner, opt_writer}
use fio_relic.Utils.{
  Arg, str, Thrown, of_program, of_other, info, make_exception, std_out, report_thrown,
  std_out_current_exception,
}

-- class Relic_plugin, as appbase would call it; main does not register it.
pub record Plugin (Config : Type 0) : Type 0 where
  pub set_program_options : Config → Config
  pub plugin_initialize : List Bytes
  pub plugin_startup : List Bytes
  pub plugin_shutdown : List Bytes

abbrev pub relic_plugin : {Config : Type 0} → (Bytes → List Arg → Bytes) → Plugin Config
relic_plugin expand = record {
  set_program_options = λ c. c;
  plugin_initialize = std_out expand info (codes "Starting Relic...") [];
  plugin_startup = [];
  plugin_shutdown = std_out expand info (codes "Shutdown Relic...") [];
}

-- The options that main describes itself: help, writer and cleaner.
abbrev pub main_options : List Spec
main_options =
    record { name = codes opt_help; kind = no_value; need = optional }
    ∷ record { name = codes opt_writer; kind = no_value; need = optional }
    ∷ record { name = codes opt_cleaner; kind = no_value; need = optional }
    ∷ []

-- vm.count(name)
unfoldable pub is_counted : Values → String → Bool
unfolding find
is_counted vm name = elim (find (codes name) vm) [ none ↦ false | some v ↦ true ]

-- What the command line asks for.
pub record Flags : Type 0 where
  pub help : Bool
  pub writer : Bool
  pub cleaner : Bool

unfoldable pub flags_of : Values → Flags
unfolding is_counted
flags_of vm = record {
  help = is_counted vm opt_help;
  writer = is_counted vm opt_writer;
  cleaner = is_counted vm opt_cleaner;
}

-- store(…) on the command line: what the library throws, or the options that it reads.
pub data CommandLine : Type 0 where
  refused_line : Thrown → CommandLine
  parsed_line : Values → CommandLine

-- What a part printed, and what it threw.
abbrev pub PartRun : Type 0
PartRun = List Bytes × Option Thrown

module _ (expand : Bytes → List Arg → Bytes) (app_name app_version : Bytes) (usage : List Bytes)
    (run_writer run_cleaner : PartRun) where
  -- The two options together.
  unfoldable pub conflict : Thrown
  unfolding make_exception
  conflict = of_program (
      make_exception expand (codes "Options --%s and --%s cannot be specified together.")
        (str (codes opt_cleaner) ∷ str (codes opt_writer) ∷ []))

  -- The part that is chosen.
  unfoldable pub run_part : Flags → PartRun
  unfolding conflict
  run_part f =
      if f.cleaner then (if f.writer then ([], some conflict) else run_cleaner) else run_writer

  -- The catch clauses: the one for any exception also prints where it stands.
  unfoldable pub catch_clauses : Thrown → List Bytes
  unfolding report_thrown std_out_current_exception
  catch_clauses of_other =
      std_out_current_exception expand of_other (codes "main.cpp") (pos 127) (codes "main") none []
  catch_clauses t = report_thrown expand t

  -- The handler of set_terminate, before it aborts.
  unfoldable pub terminate_handler : Thrown → List Bytes
  unfolding std_out_current_exception
  terminate_handler t =
      std_out_current_exception expand t (codes "main.cpp") (pos 62) (codes "operator()") none []

  -- The end of the try block, and the catch clauses.
  unfoldable pub finish : Option Thrown → List Bytes
  unfolding catch_clauses
  finish none = std_out expand info (codes "Exiting cleanly...") []
  finish (some t) = catch_clauses t

  -- main: what is printed, and the exit code.
  unfoldable pub main : Flags → List Bytes × ℕ
  unfolding run_part finish
  main f =
      let version =
        std_out expand info (codes "VERSION: %s %s") (str app_name ∷ str app_version ∷ []) in
      if f.help
      then (version ++ usage, 0)
      else (version ++ (run_part f).0 ++ finish (run_part f).1, 0)

  -- main from the command line on: an exception of the library ends in the same catch clauses.
  unfoldable pub main_parsed : CommandLine → List Bytes × ℕ
  unfolding main
  main_parsed (refused_line t) =
      let version =
        std_out expand info (codes "VERSION: %s %s") (str app_name ∷ str app_version ∷ []) in
      (version ++ catch_clauses t, 0)
  main_parsed (parsed_line vm) = main (flags_of vm)

  -- The exit code is 0 in every case.
  main_parsed-exit_code : (line : CommandLine) → (main_parsed line).1 ≡ 0
  unfolding main_parsed main
  main_parsed-exit_code (refused_line t) = refl
  main_parsed-exit_code (parsed_line vm) = ground arith
