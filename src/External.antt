-- ===== src/External.antt =====
-- The libraries that the program calls and this repository only vendors or links: rapidjson, the
-- result sets of the MariaDB connector and their getInt. Each is a parameter of
-- the model; the laws are the documented behaviour that the theorems name as hypotheses.
use fio_relic.Base.{
  ℕ, ◌≡◌, refl, List, [], ◌∷◌, Bool, false, Option, none, some, String, suc, zero, ltb, get_elem?,
  length, arith, ◌&&◌, ◌-◌, ◌^◌, if◌then◌else◌,
}
use fio_relic.Base.Int.{ℤ, pos, negsuc, leb_ℤ, le→leb_ℤ, FitsInt32}
use fio_relic.Base.Bytes.{Bytes}

-- rapidjson: `none` of `parse` is HasParseError, and elsewhere a failed assertion (a missing
-- member, or a value of another type). `get_string` gives the text as a C string.
pub record Rapidjson : Type 1 where
  pub Value : Type 0
  pub parse : Bytes → Option Value
  pub member : Value → String → Option Value
  pub get_string : Value → Option Bytes
  pub get_array : Value → Option (List Value)
  pub get_object : Value → Option Value

-- sql::ResultSet: a cursor over the rows of an answer. `row` is `none` off the rows.
pub record ResultSets : Type 1 where
  pub Cursor : Type 0 → Type 0
  pub execute : {A : Type 0} → List A → Cursor A
  pub first : {A : Type 0} → Cursor A → Cursor A
  pub next : {A : Type 0} → Cursor A → Cursor A
  pub is_after_last : {A : Type 0} → Cursor A → Bool
  pub row : {A : Type 0} → Cursor A → Option A

-- The documentation of ResultSet: isAfterLast is true only behind the last row, and false for an
-- answer without rows; first and, on a fresh cursor, next stand on the first row if there is one.
pub record IsDocumented (rs : ResultSets) : Type 1 where
  pub first_not_after :
      {A : Type 0} (rows : List A) → rs.is_after_last (rs.first (rs.execute rows)) ≡ false
  pub first_row :
      {A : Type 0} (a : A) (rows : List A) → rs.row (rs.first (rs.execute (a ∷ rows))) ≡ some a
  pub next_row :
      {A : Type 0} (a : A) (rows : List A) → rs.row (rs.next (rs.execute (a ∷ rows))) ≡ some a
  pub next_not_after :
      {A : Type 0} (a : A) (rows : List A)
      → rs.is_after_last (rs.next (rs.execute (a ∷ rows))) ≡ false
  pub no_row : {A : Type 0} → rs.row (rs.next (rs.execute {A = A} [])) ≡ none

-- A cursor as its rows and a position: 0 before the first row, n + 1 after the last of n.
abbrev pub Position : Type 0 → Type 0
Position A = List A × ℕ

abbrev row_at : {A : Type 0} → List A → ℕ → Option A
row_at rows zero = none
row_at rows (suc i) = get_elem? rows i

abbrev behind : {A : Type 0} → List A → ℕ → Bool
behind [] p = false
behind (a ∷ rows) p = ltb (length (a ∷ rows)) p

-- An implementation that behaves as documented.
abbrev pub positions : ResultSets
positions = record {
  Cursor = Position;
  execute = λ rows. (rows, 0);
  first = λ c. (c.0, 1);
  next = λ c. (c.0, suc c.1);
  is_after_last = λ c. behind c.0 c.1;
  row = λ c. row_at c.0 c.1;
}

behind-one : {A : Type 0} (rows : List A) → behind rows 1 ≡ false
behind-one [] = refl
behind-one (a ∷ rows) = ground arith

pub positions-IsDocumented : IsDocumented positions
positions-IsDocumented = record {
  first_not_after = λ rows. behind-one rows;
  first_row = λ a rows. refl;
  next_row = λ a rows. refl;
  next_not_after = λ a rows. behind-one (a ∷ rows);
  no_row = refl;
}

-- ResultSet::getInt of a value, `none` where that is NULL: the connector throws, or gives an int.
abbrev pub GetInt : Type 0
GetInt = Option ℤ → Option ℤ

-- Its documentation: 0 for NULL, and the number where it fits an int.
pub record IsDocumentedInt (get_int : GetInt) : Type 0 where
  pub null : get_int none ≡ some (pos 0)
  pub fitting : (n : ℤ) → FitsInt32 n → get_int (some n) ≡ some n

-- One that throws for every number that does not fit.
unfoldable pub checked_int : GetInt
checked_int none = some (pos 0)
checked_int (some n) =
    if leb_ℤ (negsuc (2 ^ 31 - 1)) n && leb_ℤ n (pos (2 ^ 31 - 1)) then some n else none

pub checked_int-IsDocumentedInt : IsDocumentedInt checked_int
unfolding checked_int
checked_int-IsDocumentedInt = record {
  null = refl;
  fitting =
      λ n h. rw (le→leb_ℤ (negsuc (2 ^ 31 - 1)) n h.0, le→leb_ℤ n (pos (2 ^ 31 - 1)) h.1) refl;
}
