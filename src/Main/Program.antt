-- ===== src/Main/Program.antt =====
-- The parts of the program as main runs them (prototype/main.cpp): an object on the stack, its Run, and
-- its destructor.
use fio_relic.Base.{List, Bool, Option, if◌then◌else◌}
use fio_relic.Base.Int.{ℤ}
use fio_relic.Base.Exec.{Outcome}
use fio_relic.External.{Rapidjson, ResultSets, GetInt}
use fio_relic.Tables.{Tables}
use fio_relic.Database.{scope}
use fio_relic.Database.Classes.{writer_database, cleaner_database}
use fio_relic.Server.{Setup, Connection}
use fio_relic.Writer.State.{Writer}
use fio_relic.Writer.Startup.{Options, new_writer}
use fio_relic.Writer.Class.{Message, handlers, lifecycle}
use fio_relic.Cleaner.Class.{cleaner_class}
use fio_relic.Cleaner.{Cleaner, Pass, new_cleaner}
use fio_relic.Main.{Flags}

-- What a run of the program meets: the options as parsed, what the driver, the sockets and the
-- messages answer, the rounds for the loops of the writer over an answer, the passes of the cleaner, and
-- whether the driver's close succeeds in the derived destructor and in that of Database.
pub record World : Type 0 where
  pub writer_options : Option Options
  pub keep_days : Option ℤ
  pub driver : Option Tables
  pub setup : Setup
  pub connections : List (Option (Connection Message))
  pub get_int : GetInt
  pub prepares : Bool
  pub passes : List Pass
  pub acceptor_closes : Option Bool
  pub stream_closes : Option Bool
  pub closes : Bool
  pub closes_again : Bool

-- Which object ran, what its Run gave, and the object behind its destructors.
pub data Ended : Type 0 where
  helped refused : Ended
  wrote : Outcome (Unit {0}) → Writer → Ended
  cleaned : Outcome (Unit {0}) → Cleaner → Ended

module _ (rs : ResultSets) (J : Rapidjson) (world : World) (nothing : Tables) where
  -- Writer writer(argc, argv); writer.Run();
  unfoldable pub run_writer : Outcome (Unit {0}) × Writer
  run_writer =
      scope writer_database
        (λ w. ((handlers rs J).close world.acceptor_closes world.stream_closes world.closes w).1)
        world.closes_again
        ((lifecycle rs J).run world.writer_options world.driver world.setup world.connections)
        (new_writer nothing)

  -- Cleaner cleaner(argc, argv); cleaner.Run();
  unfoldable pub run_cleaner : Outcome (Unit {0}) × Cleaner
  run_cleaner =
      scope cleaner_database (λ c. (cleaner_class.close world.closes c).1) world.closes_again
        (cleaner_class.run world.get_int world.keep_days world.driver world.prepares world.passes)
        (new_cleaner nothing)

  -- The part of main from the test of the help option on.
  unfoldable pub run_program : Flags → Ended
  unfolding run_writer run_cleaner
  run_program f =
      if f.help
      then helped
      else if f.cleaner
      then (if f.writer then refused else cleaned run_cleaner.0 run_cleaner.1)
      else wrote run_writer.0 run_writer.1
