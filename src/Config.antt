-- ===== src/Config.antt =====
-- internal/config/config.go: the configuration and its validation. Reading it from the environment is
-- left to the caller; what the `net` and `strconv` packages parse is a parameter.
pub mod Accepted
mod Tests
use griefer_security_platfor.Prelude.{
  ℕ, suc, String, Bool, true, false, not, ◌&&◌, ◌||◌, Option, none, some, List, [], ◌∷◌, ◌++◌, ◌==◌,
  ltb, if◌then◌else◌,
}
use griefer_security_platfor.Prelude.Int.{ℤ, pos, negsuc}
use griefer_security_platfor.Prelude.Float.{Float64, FloatOps}
use griefer_security_platfor.Prelude.Result.{Result, ok, err}
use griefer_security_platfor.Prelude.Text.{Unicode, to_lower, trim_space}
use Prim.Native.Char.{Char}

pub record Http : Type 0 where
  pub addr : String
  pub read_timeout : ℤ
  pub write_timeout : ℤ
  pub idle_timeout : ℤ
  pub shutdown_timeout : ℤ
  pub max_request_bytes : ℤ
  pub max_batch_events : ℤ
  pub rate_limit_rps : Float64
  pub rate_limit_burst : ℤ
  pub allow_public_bind : Bool

pub record Postgres : Type 0 where
  pub enabled : Bool
  pub dsn : String
  pub max_open_conns : ℤ
  pub max_idle_conns : ℤ
  pub conn_max_lifetime : ℤ

pub record Nats : Type 0 where
  pub enabled : Bool
  pub url : String
  pub stream : String
  pub subject : String
  pub user : String
  pub password : String

pub record Opa : Type 0 where
  pub url : String
  pub decision_path : String
  pub timeout : ℤ
  pub fail_closed : Bool

pub record Log : Type 0 where
  pub level : String
  pub format : String

pub record ResponseConfig : Type 0 where
  pub mode : String
  pub allow_real_actions : Bool
  pub synthetic_data_only : Bool
  pub seed_synthetic_demo : Bool

pub record Auth : Type 0 where
  pub internal_api_token : String

pub record Config : Type 0 where
  pub env : String
  pub http : Http
  pub postgres : Postgres
  pub nats : Nats
  pub opa : Opa
  pub log : Log
  pub response : ResponseConfig
  pub auth : Auth

-- The warnings that Validate returns.
pub data Warning : Type 0 where
  public_with_token : String → Warning
  public_without_authentication : String → Warning
  large_request_bodies : Warning
  storage_in_memory : Warning
  real_data : Warning

-- The errors of Validate. Which of several timeouts is named depends on the order of a Go map, so
-- their error names none.
pub data ConfigError : Type 0 where
  not_host_port : String → ConfigError
  port_not_numeric : String → ConfigError
  public_bind_refused : String → ConfigError
  request_bytes_not_positive : ConfigError
  batch_events_not_positive : ConfigError
  rate_not_positive : ConfigError
  burst_below_one : ConfigError
  timeout_not_positive : ConfigError
  dsn_required : ConfigError
  fail_open_refused : ConfigError
  nats_url_required : ConfigError
  real_actions_refused : ConfigError
  nats_password_required : ConfigError
  execute_not_implemented : ConfigError
  unknown_mode : String → ConfigError
  unknown_format : String → ConfigError
  unknown_level : String → ConfigError

-- What the validation asks of `net`, `strconv` and `strings`: the parts of a host:port address,
-- whether Atoi succeeds, whether the address that ParseIP returns, if any, is a loopback address,
-- and EqualFold.
pub record Parsers : Type 0 where
  pub split_host_port : String → Option (String × String)
  pub is_number : String → Bool
  pub parse_ip : String → Option Bool
  pub equal_fold : String → String → Bool

abbrev pub Checked : Type 0
Checked = Result ConfigError (List Warning)

unfoldable pub refuse_if : Bool → ConfigError → Checked
refuse_if b e = if b then err e else ok []

unfoldable pub warn_if : Bool → Warning → Checked
warn_if b w = ok (if b then w ∷ [] else [])

-- One check after the other: the first error ends them, and the warnings add up.
unfoldable pub and_then : Checked → Checked → Checked
and_then (err e) r = err e
and_then (ok ws) (err e) = err e
and_then (ok ws) (ok more) = ok (ws ++ more)

unfoldable pub check_all : List Checked → Checked
unfolding and_then
check_all [] = ok []
check_all (r ∷ rs) = and_then r (check_all rs)

abbrev pub is_positive : ℤ → Bool
is_positive (pos n) = ltb 0 n
is_positive (negsuc n) = false

abbrev pub exceeds : ℕ → ℤ → Bool
exceeds bound (pos n) = ltb bound n
exceeds bound (negsuc n) = false

abbrev is_bracket : Char → Bool
is_bracket c = String.◌∷◌ c String.[] == "[" || String.◌∷◌ c String.[] == "]"

trim_brackets_left : String → String
trim_brackets_left String.[] = String.[]
trim_brackets_left (String.◌∷◌ c s) =
    let rest = trim_brackets_left s in if is_bracket c then rest else String.◌∷◌ c s

trim_brackets_right : String → String
trim_brackets_right String.[] = String.[]
trim_brackets_right (String.◌∷◌ c s) =
    let rest = trim_brackets_right s in
    if is_bracket c && rest == "" then String.[] else String.◌∷◌ c rest

-- strings.Trim(host, "[]")
unfoldable pub trim_brackets : String → String
unfolding trim_brackets_left trim_brackets_right
trim_brackets s = trim_brackets_right (trim_brackets_left s)

unfoldable pub redact : String → String
redact s = if s == "" then "" else "[redacted]"

-- Redacted
unfoldable pub redacted : Config → Config
unfolding redact
redacted c = record c {
  postgres = record c.postgres { dsn = redact c.postgres.dsn };
  auth = record c.auth { internal_api_token = redact c.auth.internal_api_token };
  nats = record c.nats { password = redact c.nats.password };
}

abbrev pub timeouts_positive : Config → Bool
timeouts_positive c =
    is_positive c.http.read_timeout
    && is_positive c.http.write_timeout
    && is_positive c.http.idle_timeout
    && is_positive c.http.shutdown_timeout
    && is_positive c.opa.timeout

abbrev known_level : String → Bool
known_level level = level == "debug" || level == "info" || level == "warn" || level == "error"

-- The switch on a public address: what authenticates its callers.
unfoldable pub check_public_bind : Config → Checked
check_public_bind c =
    if not (c.auth.internal_api_token == "")
    then ok (public_with_token c.http.addr ∷ [])
    else if c.http.allow_public_bind
    then ok (public_without_authentication c.http.addr ∷ [])
    else err (public_bind_refused c.http.addr)

unfoldable pub check_mode : String → Checked
check_mode mode =
    if mode == "simulate"
    then ok []
    else if mode == "execute"
    then err execute_not_implemented
    else err (unknown_mode mode)

module _ (parsers : Parsers) where
  -- isPublicBind
  unfoldable pub is_public_bind : String → Bool
  unfolding trim_brackets
  is_public_bind host =
      if host == "" || host == "0.0.0.0" || host == "::" || host == "[::]"
      then true
      else elim (parsers.parse_ip (trim_brackets host)) [
        | none ↦ not (parsers.equal_fold host "localhost")
        | some loopback ↦ not loopback
      ]

  unfoldable pub check_host : Config → Option (String × String) → Checked
  unfolding is_public_bind check_public_bind
  check_host c none = err (not_host_port c.http.addr)
  check_host c (some (host, port)) =
      if not (parsers.is_number port)
      then err (port_not_numeric port)
      else if is_public_bind host
      then check_public_bind c
      else ok []

  unfoldable pub check_address : Config → Checked
  unfolding check_host
  check_address c = check_host c (parsers.split_host_port c.http.addr)

  -- The checks of Validate in their order.
  unfoldable pub checks : FloatOps → Unicode → Config → List Checked
  unfolding check_address refuse_if warn_if check_mode
  checks fl u c =
      check_address c
      ∷ refuse_if (not (is_positive c.http.max_request_bytes)) request_bytes_not_positive
      ∷ warn_if (exceeds 33554432 c.http.max_request_bytes) large_request_bodies
      ∷ refuse_if (not (is_positive c.http.max_batch_events)) batch_events_not_positive
      ∷ refuse_if (fl.at_most c.http.rate_limit_rps (fl.of_int 0)) rate_not_positive
      ∷ refuse_if (not (is_positive c.http.rate_limit_burst)) burst_below_one
      ∷ refuse_if (not (timeouts_positive c)) timeout_not_positive
      ∷ refuse_if (c.postgres.enabled && trim_space c.postgres.dsn == "") dsn_required
      ∷ warn_if (not c.postgres.enabled) storage_in_memory
      ∷ refuse_if (not c.opa.fail_closed) fail_open_refused
      ∷ refuse_if (c.nats.enabled && trim_space c.nats.url == "") nats_url_required
      ∷ refuse_if c.response.allow_real_actions real_actions_refused
      ∷ warn_if (not c.response.synthetic_data_only) real_data
      ∷ refuse_if (c.nats.enabled && not (c.nats.user == "") && c.nats.password == "")
          nats_password_required
      ∷ check_mode c.response.mode
      ∷ refuse_if (not (c.log.format == "json" || c.log.format == "text"))
          (unknown_format c.log.format)
      ∷ refuse_if (not (known_level (to_lower u c.log.level))) (unknown_level c.log.level)
      ∷ []

  -- Validate
  unfoldable pub validate : FloatOps → Unicode → Config → Checked
  unfolding check_all checks
  validate fl u c = check_all (checks fl u c)
