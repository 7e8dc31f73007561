-- ===== src/Tests/Programs.antt =====
-- The object of class Database, and a run of a writer.
use fio_relic.Base.{any, true, false, [], ◌∷◌, ◌≡◌, Option, none, some}
use fio_relic.Base.Bytes.{Bytes, codes}
use fio_relic.Base.Exec.{thrown, null_pointer}
use fio_relic.External.{positions}
use fio_relic.Server.{Connection}
use fio_relic.Database.Object.{
  Driver, new_database, initialize, close_each, destroy, destroy-closes,
}
use fio_relic.Writer.Startup.{new_writer}
use fio_relic.Writer.Class.{Message, lifecycle}
use fio_relic.Writer.Unconfigured.{listening, run-unconfigured}
use fio_relic.Tests.{tables, json, env}

-- A driver whose connections are the users' names.
abbrev driver : Driver
driver = record {
  Connection = Bytes;
  connect = λ url properties. elim properties [ [] ↦ none | p ∷ ps ↦ some p.1 ];
}

-- Close throws, then closes, and the destructor has nothing to close.
destroy-closes_example :
    let o =
      (initialize driver (codes "relic") (codes "secret") (codes "db") (new_database driver)).1 in
    destroy driver false (close_each driver (false ∷ true ∷ []) o)
    ≡ record { connection = none; closed = codes "relic" ∷ [] }
unfolding any
destroy-closes_example =
    destroy-closes driver (codes "relic") (codes "secret") (codes "db") (false ∷ true ∷ []) false

abbrev talk : Option (Connection Message)
talk = some (record { handshake = true; messages = (3, env, codes "block") ∷ [] })

run-unconfigured_example :
    ((lifecycle positions json).run none (some tables) listening (talk ∷ []) (new_writer tables)).0
    ≡ thrown null_pointer
run-unconfigured_example =
    run-unconfigured positions json (some tables) (3, env, codes "block") [] [] tables
