-- ===== src/Base/Exec.antt =====
-- Methods that change an object and may throw. What was written before a throw stays written, so
-- the state comes back beside the exception too.
use mathlib.Core.Path.{◌≡◌, refl}
use mathlib.Core.Option.{Option, none, some}

-- Every place where the program throws, and the places where the language or a library does.
pub data Fault : Type 0 where
  -- THROW_Exception2 of the program
  no_reconnect json_error sync_corrupted no_connection fix_me : Fault
  no_master many_masters many_slaves source_not_defined master_not_started : Fault
  options_conflict : Fault
  -- exceptions of boost::program_options
  no_option other_type : Fault
  -- make_address of boost, and THROW_SocketException2: open, set_option, bind, listen, accept,
  -- handshake, close, write
  bad_address socket_open socket_set_option socket_bind socket_listen : Fault
  socket_accept socket_handshake socket_close socket_write : Fault
  -- std::stol and std::stoul, std::string::replace past the end
  not_a_number number_out_of_range position_out_of_range : Fault
  -- reads outside a buffer, a failed assertion of the JSON library, a null connection
  bad_read json_access null_pointer division_by_zero : Fault
  -- a loop of the model that did not end within its rounds
  out_of_rounds : Fault
  -- sql::SQLException
  sql_error : Fault

pub data Outcome (A : Type 0) : Type 0 where
  done : A → Outcome A
  thrown : Fault → Outcome A

abbrev pub and_then : {A B : Type 0} → Outcome A → (A → Outcome B) → Outcome B
and_then (done a) f = f a
and_then (thrown e) f = thrown e

abbrev pub from_option : {A : Type 0} → Option A → Fault → Outcome A
from_option none e = thrown e
from_option (some a) e = done a

abbrev pub Exec : Type 0 → Type 0 → Type 0
Exec S A = S → Outcome A × S

module _ {S A : Type 0} where
  abbrev pub pure : A → Exec S A
  pure a s = (done a, s)

  abbrev pub throw : Fault → Exec S A
  throw e s = (thrown e, s)

  abbrev pub from_outcome : Outcome A → Exec S A
  from_outcome o s = (o, s)

  -- A library call that has no result is a throw.
  abbrev pub or_throw : Option A → Fault → Exec S A
  or_throw none e s = (thrown e, s)
  or_throw (some a) e s = (done a, s)

abbrev pub modify : {S : Type 0} → (S → S) → Exec S (Unit {0})
modify f s = (done tt, f s)

module _ {S A B : Type 0} where
  abbrev pub continue : Outcome A → (A → Exec S B) → Exec S B
  continue (done a) f s = f a s
  continue (thrown e) f s = (thrown e, s)

  infixl 10 ◌>>=◌ ◌>>◌
  abbrev pub ◌>>=◌ : Exec S A → (A → Exec S B) → Exec S B
  ◌>>=◌ m f s = let (o, s') = m s in continue o f s'

  abbrev pub ◌>>◌ : Exec S A → Exec S B → Exec S B
  m >> n = m >>= λ _. n

-- What holds where a result is passed on and where a throw stops holds of both.
pub continue-holds {ℓ} :
    {S A B : Type 0} (P : Outcome B × S → Type ℓ) (o : Outcome A) (f : A → Exec S B) (s : S)
    → ((a : A) → o ≡ done a → P (f a s))
    → ((e : Fault) → o ≡ thrown e → P (thrown e, s))
    → P (continue o f s)
continue-holds P (done a) f s h g = h a refl
continue-holds P (thrown e) f s h g = g e refl

-- Where the first step returns, what holds is what the second one leaves.
pub continue-returns {ℓ} :
    {S A B : Type 0} (P : Outcome B × S → Type ℓ) (o : Outcome A) (a : A) (f : A → Exec S B) (s : S)
    → o ≡ done a
    → P (f a s)
    → P (continue o f s)
continue-returns P o a f s e h = rw e h

-- `m` keeps `P`, whether it returns or throws.
pub record Keeps {S A : Type 0} (P : S → Type 0) (m : Exec S A) : Type 0 where
  pub at : (s : S) → P s → P (m s).1

module _ {S A : Type 0} {P : S → Type 0} where
  pub Keeps-pure : (a : A) → Keeps P (pure {S = S} a)
  Keeps-pure a = record { at = λ s h. h }

  pub Keeps-throw : (e : Fault) → Keeps P (throw {S = S} {A = A} e)
  Keeps-throw e = record { at = λ s h. h }

  pub Keeps-from_outcome : (o : Outcome A) → Keeps P (from_outcome {S = S} o)
  Keeps-from_outcome o = record { at = λ s h. h }

module _ {S A B : Type 0} (P : S → Type 0) where
  continue-keeps :
      (o : Outcome A) (f : A → Exec S B) (s : S)
      → ((a : A) → Keeps P (f a))
      → P s
      → P (continue o f s).1
  continue-keeps (done a) f s k h = (k a).at s h
  continue-keeps (thrown e) f s k h = h

  pub Keeps-bind :
      (m : Exec S A) (f : A → Exec S B) → Keeps P m → ((a : A) → Keeps P (f a)) → Keeps P (m >>= f)
  Keeps-bind m f km kf = record {
    at = λ s h. let (o, s') = m s in continue-keeps o f s' kf (km.at s h);
  }
