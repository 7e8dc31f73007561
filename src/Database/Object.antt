-- ===== src/Database/Object.antt =====
-- The object of class Database itself (prototype/Database.cpp and Database.h): the pointer to a
-- connection of the MariaDB driver, which is a parameter.
use fio_relic.Base.{
  ◌≡◌, refl, List, [], ◌∷◌, Bool, true, false, Option, none, some, if◌then◌else◌, any, ◌||◌, arith,
}
use fio_relic.Base.Bytes.{Bytes, codes}
use fio_relic.Base.Exec.{Exec, done, thrown, sql_error}
use fio_relic.Database.{Database, IsDatabase}

-- sql::Driver: connect throws, or it gives a connection for an URL and its properties.
pub record Driver : Type 1 where
  pub Connection : Type 0
  pub connect : Bytes → List (Bytes × Bytes) → Option Connection

module _ (d : Driver) where
  -- The pointer, none where it is NULL, and the connections that were closed, the last one first.
  pub record DatabaseObject : Type 0 where
    pub connection : Option d.Connection
    pub closed : List d.Connection

  -- The constructor, with the initial value of the pointer.
  abbrev pub new_database : DatabaseObject
  new_database = record { connection = none; closed = [] }

  -- What the driver answers to Database::Initialize.
  abbrev pub answer : Bytes → Bytes → Bytes → Option d.Connection
  answer user password url =
      d.connect url ((codes "user", user) ∷ (codes "password", password) ∷ [])

  -- connection = …; an exception of the driver leaves the object as it was.
  unfoldable pub take_answer : Option d.Connection → Exec DatabaseObject (Unit {0})
  take_answer none o = (thrown sql_error, o)
  take_answer (some c) o = (done tt, record o { connection = some c })

  -- Database::Initialize
  unfoldable pub initialize : Bytes → Bytes → Bytes → Exec DatabaseObject (Unit {0})
  unfolding take_answer
  initialize user password url o = take_answer (answer user password url) o

  -- Database::Close, for whether the driver's close succeeds: where it throws, the pointer stays.
  unfoldable pub close : Bool → Exec DatabaseObject (Unit {0})
  close closes o = elim o.connection [
    | none ↦ (done tt, o)
    | some c ↦
        if closes
        then (done tt, record o { connection = none; closed = c ∷ o.closed })
        else (thrown sql_error, o)
  ]

  -- Calls of Close, each of which may throw; the callers go on.
  unfoldable pub close_each : List Bool → DatabaseObject → DatabaseObject
  unfolding close
  close_each [] o = o
  close_each (closes ∷ more) o = close_each more (close closes o).1

  -- Database::~Database, which catches what Close throws.
  unfoldable pub destroy : Bool → DatabaseObject → DatabaseObject
  unfolding close
  destroy closes o = (close closes o).1

  -- The interface of Database.
  abbrev pub object_database : Database DatabaseObject d.Connection
  object_database = record {
    is_connected = λ o. elim o.connection [ none ↦ false | some c ↦ true ];
    initialize = take_answer;
    close = close;
  }

  disconnected :
      (o : DatabaseObject)
      → let x = close true o in (x.0 ≡ done tt) × (object_database.is_connected x.1 ≡ false)
  unfolding close
  disconnected o = go o.connection o.closed
    where
      go :
          (p : Option d.Connection) (cs : List d.Connection)
          → let x = close true (record { connection = p; closed = cs }) in
            (x.0 ≡ done tt) × (object_database.is_connected x.1 ≡ false)
      go none cs = (refl, refl)
      go (some c) cs = (refl, refl)

  kept :
      (o : DatabaseObject)
      → object_database.is_connected o ≡ true
      → close false o ≡ (thrown sql_error, o)
  unfolding close
  kept o h = go o.connection o.closed h
    where
      go :
          (p : Option d.Connection) (cs : List d.Connection)
          → let o : DatabaseObject = record { connection = p; closed = cs } in
            object_database.is_connected o ≡ true → close false o ≡ (thrown sql_error, o)
      go none cs h = absurd (ground arith)
      go (some c) cs h = refl

  unconnected :
      (closes : Bool) (o : DatabaseObject)
      → object_database.is_connected o ≡ false
      → close closes o ≡ (done tt, o)
  unfolding close
  unconnected closes o h = go o.connection o.closed h
    where
      go :
          (p : Option d.Connection) (cs : List d.Connection)
          → let o : DatabaseObject = record { connection = p; closed = cs } in
            object_database.is_connected o ≡ false → close closes o ≡ (done tt, o)
      go none cs h = refl
      go (some c) cs h = absurd (ground arith)

  taken :
      (c : d.Connection) (o : DatabaseObject)
      → ((take_answer (some c) o).0 ≡ done tt)
        × (object_database.is_connected (take_answer (some c) o).1 ≡ true)
  unfolding take_answer
  taken c o = (refl, refl)

  refused : (o : DatabaseObject) → take_answer none o ≡ (thrown sql_error, o)
  unfolding take_answer
  refused o = refl

  pub object_database-IsDatabase : IsDatabase object_database
  object_database-IsDatabase = record {
    initialize-connects = taken;
    initialize-fails = refused;
    close-disconnects = disconnected;
    close-fails = kept;
    close-unconnected = unconnected;
  }

  -- An object behind calls of Close that each succeed or throw, and its destructor: it had no
  -- connection, or it had one, which is closed once and forgotten if one of the calls succeeds, and
  -- else is still there.
  abbrev pub after_closing : Option d.Connection → Bool → DatabaseObject
  after_closing none one_closes = new_database
  after_closing (some c) one_closes =
      if one_closes
      then record { connection = none; closed = c ∷ [] }
      else record { connection = some c; closed = [] }

  closed_already :
      (closings : List Bool) (last : Bool) (cs : List d.Connection)
      → let o : DatabaseObject = record { connection = none; closed = cs } in
        destroy last (close_each closings o) ≡ o
  unfolding destroy close_each
  closed_already [] last cs = refl
  closed_already (b ∷ bs) last cs = closed_already bs last cs

  closed_once :
      (closings : List Bool) (last : Bool) (c : d.Connection)
      → destroy last (close_each closings (record { connection = some c; closed = [] }))
        ≡ after_closing (some c) (any (λ b. b) closings || last)
  unfolding destroy close_each any
  closed_once [] true c = refl
  closed_once [] false c = refl
  closed_once (true ∷ bs) last c = closed_already bs last (c ∷ [])
  closed_once (false ∷ bs) last c = closed_once bs last c

  -- An object that is created and initialized, on which Close is called any number of times, where
  -- each of these calls and that of the destructor succeeds or throws, has closed the connection that
  -- the driver gave exactly once and forgotten it, if one of the calls succeeded; else it has closed
  -- none and still has it. Where the driver threw, it has none and has closed none.
  pub destroy-closes :
      (user password url : Bytes) (closings : List Bool) (last : Bool)
      → let o = (initialize user password url new_database).1 in
        destroy last (close_each closings o)
        ≡ after_closing (answer user password url) (any (λ b. b) closings || last)
  unfolding initialize take_answer
  destroy-closes user password url closings last = answered (answer user password url)
    where
      answered :
          (p : Option d.Connection)
          → let o = (take_answer p new_database).1 in
            destroy last (close_each closings o) ≡ after_closing p (any (λ b. b) closings || last)
      answered none = closed_already closings last []
      answered (some c) = closed_once closings last c
