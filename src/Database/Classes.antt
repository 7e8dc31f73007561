-- ===== src/Database/Classes.antt =====
-- The two classes that inherit class Database: Writer and Cleaner.
use fio_relic.Base.{◌≡◌, refl, Bool, true, false, none, some, arith}
use fio_relic.Base.Exec.{done, thrown, sql_error}
use fio_relic.Tables.{Tables}
use fio_relic.Database.{Database, IsDatabase}
use fio_relic.Writer.State.{Writer}
use fio_relic.Writer.Startup
use fio_relic.Cleaner
use fio_relic.Cleaner.{Cleaner}

abbrev pub writer_database : Database Writer Tables
writer_database = record {
  is_connected = λ w. w.connected;
  initialize = Startup.connect;
  close = Startup.close_database;
}

close_database-disconnects :
    (w : Writer)
    → let x = Startup.close_database true w in (x.0 ≡ done tt) × (x.1.connected ≡ false)
unfolding Startup.close_database
close_database-disconnects w = ground arith

close_database-fails :
    (w : Writer) → w.connected ≡ true → Startup.close_database false w ≡ (thrown sql_error, w)
unfolding Startup.close_database
close_database-fails w h = rw (h, Startup.close_database) refl

close_database-unconnected :
    (closes : Bool) (w : Writer)
    → w.connected ≡ false
    → Startup.close_database closes w ≡ (done tt, w)
unfolding Startup.close_database
close_database-unconnected closes w h = rw (h, Startup.close_database) refl

connect-connects :
    (t : Tables) (w : Writer)
    → ((Startup.connect (some t) w).0 ≡ done tt) × ((Startup.connect (some t) w).1.connected ≡ true)
unfolding Startup.connect
connect-connects t w = (refl, refl)

connect-fails : (w : Writer) → Startup.connect none w ≡ (thrown sql_error, w)
unfolding Startup.connect
connect-fails w = refl

pub writer_database-IsDatabase : IsDatabase writer_database
writer_database-IsDatabase = record {
  initialize-connects = connect-connects;
  initialize-fails = connect-fails;
  close-disconnects = close_database-disconnects;
  close-fails = close_database-fails;
  close-unconnected = close_database-unconnected;
}

abbrev pub cleaner_database : Database Cleaner Tables
cleaner_database = record {
  is_connected = λ c. c.connected;
  initialize = Cleaner.connect;
  close = Cleaner.close;
}

cleaner-connects :
    (t : Tables) (c : Cleaner)
    → ((Cleaner.connect (some t) c).0 ≡ done tt) × ((Cleaner.connect (some t) c).1.connected ≡ true)
unfolding Cleaner.connect
cleaner-connects t c = (refl, refl)

cleaner-fails : (c : Cleaner) → Cleaner.connect none c ≡ (thrown sql_error, c)
unfolding Cleaner.connect
cleaner-fails c = refl

cleaner-closes :
    (c : Cleaner) → let x = Cleaner.close true c in (x.0 ≡ done tt) × (x.1.connected ≡ false)
unfolding Cleaner.close
cleaner-closes c = ground arith

cleaner-keeps : (c : Cleaner) → c.connected ≡ true → Cleaner.close false c ≡ (thrown sql_error, c)
unfolding Cleaner.close
cleaner-keeps c h = rw (h, Cleaner.close) refl

cleaner-unconnected :
    (closes : Bool) (c : Cleaner) → c.connected ≡ false → Cleaner.close closes c ≡ (done tt, c)
unfolding Cleaner.close
cleaner-unconnected closes c h = rw (h, Cleaner.close) refl

pub cleaner_database-IsDatabase : IsDatabase cleaner_database
cleaner_database-IsDatabase = record {
  initialize-connects = cleaner-connects;
  initialize-fails = cleaner-fails;
  close-disconnects = cleaner-closes;
  close-fails = cleaner-keeps;
  close-unconnected = cleaner-unconnected;
}
