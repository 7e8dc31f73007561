-- ===== src/Cleaner/Configuration.antt =====
-- Cleaner::GetOptionsDescription and Cleaner::getOptions (prototype/Cleaner.cpp), with the fields that
-- they set (prototype/Cleaner.h). The call of StdOutConfiguration is left out: it changes nothing.
use fio_relic.Base.{◌≡◌, refl, sym, ◌∙◌, List, [], ◌∷◌, Bool, false, Option, none, some, ap, All}
use fio_relic.Base.Int.{ℤ, negsuc}
use fio_relic.Base.Bytes.{Bytes, codes}
use fio_relic.Base.Exec.{Exec, done, from_outcome, modify, ◌>>=◌, ◌>>◌}
use fio_relic.Options.{opt_db_user, opt_db_password, opt_db_url, opt_keep_days, integer}
use fio_relic.Options.Parsing.{
  int_value, string_value, Spec, required, default_to, Values, ProgramOptions, IsDocumentedParser,
  caught, value_at, as_int, as_string, value_at-int, value_at-string, IsGiven,
}
use fio_relic.Cleaner.{Cleaner, kept_blocks, get_options}

-- Cleaner::GetOptionsDescription
abbrev pub cleaner_options : List Spec
cleaner_options =
    record { name = codes opt_db_user; kind = string_value; need = required }
    ∷ record { name = codes opt_db_password; kind = string_value; need = required }
    ∷ record { name = codes opt_db_url; kind = string_value; need = required }
    ∷ record {
      name = codes opt_keep_days;
      kind = int_value;
      need = default_to (integer (negsuc 0));
    }
    ∷ []

-- The fields that getOptions sets.
pub record Settings : Type 0 where
  pub db_user : Bytes
  pub db_password : Bytes
  pub db_url : Bytes
  pub keep_blocks : ℤ

-- The assignments of the try block.
unfoldable pub store_options : Values → Exec Settings (Unit {0})
store_options vm = do
  user ← from_outcome (value_at as_string (codes opt_db_user) vm)
  modify (λ s. record s { db_user = user })
  password ← from_outcome (value_at as_string (codes opt_db_password) vm)
  modify (λ s. record s { db_password = password })
  url ← from_outcome (value_at as_string (codes opt_db_url) vm)
  modify (λ s. record s { db_url = url })
  keep_days ← from_outcome (value_at as_int (codes opt_keep_days) vm)
  modify (λ s. record s { keep_blocks = kept_blocks keep_days s.keep_blocks })

-- Cleaner::getOptions
unfoldable pub parse_options : ProgramOptions → List Bytes → Bytes → Settings → Bool × Settings
unfolding store_options
parse_options p argv config s = elim (p.parse cleaner_options argv config) [
  | none ↦ (false, s)
  | some vm ↦ caught (store_options vm s)
]

-- The settings are what the library has for their names, and the number of days too.
pub record AreRead (vm : Values) (days : ℤ) (s : Settings) : Type 0 where
  pub user : value_at as_string (codes opt_db_user) vm ≡ done s.db_user
  pub password : value_at as_string (codes opt_db_password) vm ≡ done s.db_password
  pub url : value_at as_string (codes opt_db_url) vm ≡ done s.db_url
  pub days_read : value_at as_int (codes opt_keep_days) vm ≡ done days

-- The same for what the library answers: no days and the old settings, where it throws.
abbrev pub Reads : Option Values → Option ℤ → Settings → Settings → Type 0
Reads none days s s' = (days ≡ none) × (s' ≡ s)
Reads (some vm) days s s' = (n : ℤ) × (days ≡ some n) × AreRead vm n s'

store_options_lem :
    (vm : Values) (s : Settings)
    → All (IsGiven vm) cleaner_options
    → (days : ℤ) × (s' : Settings) × AreRead vm days s'
      × (store_options vm s ≡ (done tt, s'))
      × (s'.keep_blocks ≡ kept_blocks days s.keep_blocks)
unfolding store_options
store_options_lem vm s h =
    let (user, e0) = value_at-string vm (codes opt_db_user) h.0 in
    let (password, e1) = value_at-string vm (codes opt_db_password) h.1.0 in
    let (url, e2) = value_at-string vm (codes opt_db_url) h.1.1.0 in
    let (days, e3) = value_at-int vm (codes opt_keep_days) h.1.1.1.0 in
    (
      days,
      record {
        db_user = user;
        db_password = password;
        db_url = url;
        keep_blocks = kept_blocks days s.keep_blocks;
      },
      record { user = e0; password = e1; url = e2; days_read = e3 },
      rw (e0, e1, e2, e3) refl,
      refl,
    )

-- getOptions with a documented library sets nothing and returns false where the library throws, and
-- else it sets every option to what the library read; on the kept blocks it does what get_options does
-- for that number of days.
pub parse_options_lem :
    (p : ProgramOptions) (d : IsDocumentedParser p) (argv : List Bytes) (config : Bytes)
    (s : Settings) (c : Cleaner)
    → c.keep_blocks ≡ s.keep_blocks
    → (days : Option ℤ) × Reads
        (p.parse cleaner_options argv config)
        days
        s
        (parse_options p argv config s).1
      × ((parse_options p argv config s).0 ≡ (get_options days c).0)
      × ((parse_options p argv config s).1.keep_blocks ≡ (get_options days c).1.keep_blocks)
unfolding parse_options get_options
parse_options_lem p d argv config s c h = parsed (p.parse cleaner_options argv config) refl
  where
    parsed :
        (m : Option Values)
        → p.parse cleaner_options argv config ≡ m
        → let x : Bool × Settings = elim m [
          | none ↦ (false, s)
          | some vm ↦ caught (store_options vm s)
        ] in
          (days : Option ℤ) × Reads m days s x.1
          × (x.0 ≡ (get_options days c).0)
          × (x.1.keep_blocks ≡ (get_options days c).1.keep_blocks)
    parsed none e = (none, (refl, refl), refl, rw h)
    parsed (some vm) e =
        let (days, s', read, stored, kept) =
          store_options_lem vm s (d.complete cleaner_options argv config vm e) in
        (
          some days,
          (days, refl, rw stored read),
          rw stored refl,
          rw stored (kept ∙ ap (kept_blocks days) (sym h)),
        )
