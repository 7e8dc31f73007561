-- ===== src/Writer/Configuration.antt =====
-- Writer::GetOptionsDescription and Writer::getOptions (prototype/Writer.cpp), with the fields that
-- they set (prototype/Writer.h). The call of StdOutConfiguration is left out: it changes nothing.
use fio_relic.Base.{◌≡◌, refl, List, [], ◌∷◌, Bool, false, Option, none, some, ap, All}
use fio_relic.Base.Int.{ℤ, pos, negsuc}
use fio_relic.Base.Bytes.{Bytes, codes}
use fio_relic.Base.Exec.{Exec, done, from_outcome, modify, ◌>>=◌, ◌>>◌}
use fio_relic.Options.{
  opt_source_id, opt_websocket_server_ip, opt_websocket_server_port, opt_db_user, opt_db_password,
  opt_db_url, opt_ack_every, opt_keep_days, opt_no_traces, integer, boolean, string,
}
use fio_relic.Options.Parsing.{
  int_value, bool_value, string_value, Spec, required, default_to, Values, ProgramOptions,
  IsDocumentedParser, caught, value_at, as_int, as_bool, as_string, value_at-int, value_at-bool,
  value_at-string, IsGiven,
}
use fio_relic.Cleaner.{kept_blocks}
use fio_relic.Writer.State.{Writer}
use fio_relic.Writer.Startup.{Options, get_options}

-- Writer::GetOptionsDescription. The default of the address is the text of INADDR_ANY.
abbrev pub writer_options : List Spec
writer_options =
    record { name = codes opt_source_id; kind = int_value; need = default_to (integer (pos 1)) }
    ∷ record {
      name = codes opt_websocket_server_port;
      kind = int_value;
      need = default_to (integer (pos 8800));
    }
    ∷ record {
      name = codes opt_websocket_server_ip;
      kind = string_value;
      need = default_to (string (codes "0"));
    }
    ∷ record { name = codes opt_db_user; kind = string_value; need = required }
    ∷ record { name = codes opt_db_password; kind = string_value; need = required }
    ∷ record { name = codes opt_db_url; kind = string_value; need = required }
    ∷ record { name = codes opt_ack_every; kind = int_value; need = default_to (integer (pos 100)) }
    ∷ record {
      name = codes opt_keep_days;
      kind = int_value;
      need = default_to (integer (negsuc 0));
    }
    ∷ record { name = codes opt_no_traces; kind = bool_value; need = default_to (boolean false) }
    ∷ []

-- The fields that getOptions sets.
pub record Settings : Type 0 where
  pub websocket_server_ip : Bytes
  pub websocket_server_port : ℤ
  pub db_user : Bytes
  pub db_password : Bytes
  pub db_url : Bytes
  pub source_id : ℤ
  pub no_traces : Bool
  pub ack_every : ℤ
  pub keep_blocks : ℤ

-- Their initial values; that of the port is not defined.
abbrev pub new_settings : ℤ → Settings
new_settings port = record {
  websocket_server_ip = [];
  websocket_server_port = port;
  db_user = [];
  db_password = [];
  db_url = [];
  source_id = pos 1;
  no_traces = false;
  ack_every = pos 100;
  keep_blocks = negsuc 0;
}

-- The assignments of the try block.
unfoldable pub store_options : Values → Exec Settings (Unit {0})
store_options vm = do
  source_id ← from_outcome (value_at as_int (codes opt_source_id) vm)
  modify (λ s. record s { source_id = source_id })
  port ← from_outcome (value_at as_int (codes opt_websocket_server_port) vm)
  modify (λ s. record s { websocket_server_port = port })
  ip ← from_outcome (value_at as_string (codes opt_websocket_server_ip) vm)
  modify (λ s. record s { websocket_server_ip = ip })
  user ← from_outcome (value_at as_string (codes opt_db_user) vm)
  modify (λ s. record s { db_user = user })
  password ← from_outcome (value_at as_string (codes opt_db_password) vm)
  modify (λ s. record s { db_password = password })
  url ← from_outcome (value_at as_string (codes opt_db_url) vm)
  modify (λ s. record s { db_url = url })
  ack_every ← from_outcome (value_at as_int (codes opt_ack_every) vm)
  modify (λ s. record s { ack_every = ack_every })
  keep_days ← from_outcome (value_at as_int (codes opt_keep_days) vm)
  modify (λ s. record s { keep_blocks = kept_blocks keep_days s.keep_blocks })
  no_traces ← from_outcome (value_at as_bool (codes opt_no_traces) vm)
  modify (λ s. record s { no_traces = no_traces })

-- Writer::getOptions
unfoldable pub parse_options : ProgramOptions → List Bytes → Bytes → Settings → Bool × Settings
unfolding store_options
parse_options p argv config s = elim (p.parse writer_options argv config) [
  | none ↦ (false, s)
  | some vm ↦ caught (store_options vm s)
]

-- The writer has these settings.
pub record AreSettings (s : Settings) (w : Writer) : Type 0 where
  pub source : w.source_id ≡ s.source_id
  pub traces : w.no_traces ≡ s.no_traces
  pub ack : w.ack_every ≡ s.ack_every
  pub keep : w.keep_blocks ≡ s.keep_blocks

-- The settings that the given options are to leave.
abbrev pub settings_of : Options → Settings → Settings
settings_of o s = record {
  websocket_server_ip = o.websocket_server_ip;
  websocket_server_port = o.websocket_server_port;
  db_user = o.db_user;
  db_password = o.db_password;
  db_url = o.db_url;
  source_id = o.source_id;
  no_traces = o.no_traces;
  ack_every = o.ack_every;
  keep_blocks = kept_blocks o.keep_days s.keep_blocks;
}

-- The options are those that the library has for their names.
pub record AreRead (vm : Values) (o : Options) : Type 0 where
  pub source : value_at as_int (codes opt_source_id) vm ≡ done o.source_id
  pub port : value_at as_int (codes opt_websocket_server_port) vm ≡ done o.websocket_server_port
  pub ip : value_at as_string (codes opt_websocket_server_ip) vm ≡ done o.websocket_server_ip
  pub user : value_at as_string (codes opt_db_user) vm ≡ done o.db_user
  pub password : value_at as_string (codes opt_db_password) vm ≡ done o.db_password
  pub url : value_at as_string (codes opt_db_url) vm ≡ done o.db_url
  pub ack : value_at as_int (codes opt_ack_every) vm ≡ done o.ack_every
  pub days : value_at as_int (codes opt_keep_days) vm ≡ done o.keep_days
  pub traces : value_at as_bool (codes opt_no_traces) vm ≡ done o.no_traces

-- The same where the library may have thrown: no options then, and unchanged settings.
abbrev pub Reads : Option Values → Option Options → Type 0
Reads none o = o ≡ none
Reads (some vm) o = (o' : Options) × (o ≡ some o') × AreRead vm o'

abbrev pub settings_after : Option Options → Settings → Settings
settings_after none s = s
settings_after (some o) s = settings_of o s

store_options_lem :
    (vm : Values) (s : Settings)
    → All (IsGiven vm) writer_options
    → (o : Options) × AreRead vm o × (store_options vm s ≡ (done tt, settings_of o s))
unfolding store_options
store_options_lem vm s h =
    let (source, e0) = value_at-int vm (codes opt_source_id) h.0 in
    let (port, e1) = value_at-int vm (codes opt_websocket_server_port) h.1.0 in
    let (ip, e2) = value_at-string vm (codes opt_websocket_server_ip) h.1.1.0 in
    let (user, e3) = value_at-string vm (codes opt_db_user) h.1.1.1.0 in
    let (password, e4) = value_at-string vm (codes opt_db_password) h.1.1.1.1.0 in
    let (url, e5) = value_at-string vm (codes opt_db_url) h.1.1.1.1.1.0 in
    let (ack, e6) = value_at-int vm (codes opt_ack_every) h.1.1.1.1.1.1.0 in
    let (days, e7) = value_at-int vm (codes opt_keep_days) h.1.1.1.1.1.1.1.0 in
    let (traces, e8) = value_at-bool vm (codes opt_no_traces) h.1.1.1.1.1.1.1.1.0 in
    (
      record {
        db_user = user;
        db_password = password;
        db_url = url;
        source_id = source;
        websocket_server_port = port;
        websocket_server_ip = ip;
        ack_every = ack;
        keep_days = days;
        no_traces = traces;
      },
      record {
        source = e0;
        port = e1;
        ip = e2;
        user = e3;
        password = e4;
        url = e5;
        ack = e6;
        days = e7;
        traces = e8;
      },
      rw (e0, e1, e2, e3, e4, e5, e6, e7, e8) refl,
    )

-- getOptions with a documented library sets nothing and returns false where the library throws, and
-- else it sets every option to what the library read; on a writer that has the settings it does what
-- get_options does for these options.
pub parse_options-AreSettings :
    (p : ProgramOptions) (d : IsDocumentedParser p) (argv : List Bytes) (config : Bytes)
    (s : Settings) (w : Writer)
    → AreSettings s w
    → (o : Option Options) × Reads (p.parse writer_options argv config) o
      × ((parse_options p argv config s).0 ≡ (get_options o w).0)
      × ((parse_options p argv config s).1 ≡ settings_after o s)
      × AreSettings (parse_options p argv config s).1 (get_options o w).1
unfolding parse_options get_options
parse_options-AreSettings p d argv config s w h = parsed (p.parse writer_options argv config) refl
  where
    parsed :
        (m : Option Values)
        → p.parse writer_options argv config ≡ m
        → let x : Bool × Settings = elim m [
          | none ↦ (false, s)
          | some vm ↦ caught (store_options vm s)
        ] in
          (o : Option Options) × Reads m o
          × (x.0 ≡ (get_options o w).0)
          × (x.1 ≡ settings_after o s)
          × AreSettings x.1 (get_options o w).1
    parsed none e = (none, refl, refl, refl, h)
    parsed (some vm) e =
        let (o, read, stored) =
          store_options_lem vm s (d.complete writer_options argv config vm e) in
        (
          some o,
          (o, refl, read),
          rw stored refl,
          rw stored refl,
          rw stored (record {
            source = refl;
            traces = refl;
            ack = refl;
            keep = ap (kept_blocks o.keep_days) h.keep;
          }),
        )
