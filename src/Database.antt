-- ===== src/Database.antt =====
-- class Database (prototype/Database.cpp and Database.h): what a class that inherits it can do with
-- the connection, the laws that this keeps, and the scope of such an object.
pub mod Classes
pub mod Object
use fio_relic.Base.{◌≡◌, refl, Bool, true, false, Option, none, some}
use fio_relic.Base.Exec.{Exec, Outcome, done, thrown, sql_error}
use fio_relic.Tables.{Tables}

-- Whether there is a connection, Initialize for an answer T of the driver, and Close for whether
-- the driver's close succeeds.
pub record Database (S T : Type 0) : Type 0 where
  pub is_connected : S → Bool
  pub initialize : Option T → Exec S (Unit {0})
  pub close : Bool → Exec S (Unit {0})

-- Initialize connects or throws. Close does nothing without a connection, leaves none if the driver's
-- close succeeds, and otherwise throws and leaves the connection.
pub record IsDatabase {S T : Type 0} (d : Database S T) : Type 0 where
  pub initialize-connects :
      (t : T) (s : S)
      → ((d.initialize (some t) s).0 ≡ done tt)
        × (d.is_connected (d.initialize (some t) s).1 ≡ true)
  pub initialize-fails : (s : S) → d.initialize none s ≡ (thrown sql_error, s)
  pub close-disconnects :
      (s : S) → ((d.close true s).0 ≡ done tt) × (d.is_connected (d.close true s).1 ≡ false)
  pub close-fails : (s : S) → d.is_connected s ≡ true → d.close false s ≡ (thrown sql_error, s)
  pub close-unconnected :
      (closes : Bool) (s : S) → d.is_connected s ≡ false → d.close closes s ≡ (done tt, s)

module _ {S T : Type 0} (d : Database S T) where
  -- The destructor of Database behind that of the derived class. Both catch what they meet.
  unfoldable pub destroy : (S → S) → Bool → S → S
  destroy derived closes s = (d.close closes (derived s)).1

  -- An object that is run in a block: it is destroyed too when an exception leaves the block.
  unfoldable pub scope : (S → S) → Bool → Exec S (Unit {0}) → Exec S (Unit {0})
  unfolding destroy
  scope derived closes body s = let x = body s in (x.0, destroy derived closes x.1)

  -- Where the last close succeeds, no connection is left.
  scope-disconnects :
      (laws : IsDatabase d) (derived : S → S) (body : Exec S (Unit {0})) (s : S)
      → d.is_connected (scope derived true body s).1 ≡ false
  unfolding scope
  scope-disconnects laws derived body s = (laws.close-disconnects (derived (body s).1)).1
