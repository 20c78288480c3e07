-- ===== src/Config.antt =====
-- internal/config: the Effective Config, what it is checked for, and the values that never print
-- themselves.
pub mod Dsn
pub mod Validity
pub mod Redaction
pub mod Sources
pub mod Rendering
use go_personal_web.Prelude.{
  ℕ, Bool, true, false, not, ◌&&◌, ◌||◌, Option, none, some, List, [], ◌∷◌, Bytes, ◌=ᵇ◌, codes, ℤ,
  pos, ltb_ℤ, leb_ℤ, if◌then◌else◌, is_absent,
}
use go_personal_web.GoStd.Time.{Duration}
use go_personal_web.View.{Zone}
use go_personal_web.Http.{LogLevel, debug, info, warn, error}

abbrev redacted : Bytes
redacted = codes "xxxxx"

-- `Secret.Set` and `Secret.String`
unfoldable pub is_set : Bytes → Bool
is_set s = not (s =ᵇ [])

unfoldable pub secret_string : Bytes → Bytes
secret_string s = if s =ᵇ [] then [] else redacted

-- What `DSN` uses of a `url.URL`; `rest` is what stands behind the host.
pub record Url : Type 0 where
  pub scheme : Bytes
  pub user : Option (Bytes × Option Bytes)
  pub host : Bytes
  pub rest : Bytes

-- `url.UserPassword(u.User.Username(), redacted)` where there is a password.
unfoldable pub redact_user : Option (Bytes × Option Bytes) → Option (Bytes × Option Bytes)
redact_user none = none
redact_user (some (name, none)) = some (name, none)
redact_user (some (name, some password)) = some (name, some redacted)

pub data DsnError : Type 0 where
  dsn_empty dsn_unparseable dsn_scheme dsn_host : DsnError

-- `parse` is `url.Parse` and `print` is `URL.String`.
module _ (parse : Bytes → Option Url) where
  -- `DSN.String`
  unfoldable pub dsn_string : (print : Url → Bytes) → Bytes → Bytes
  unfolding redact_user
  dsn_string print d = if d =ᵇ [] then [] else elim (parse d) [
    | none ↦ codes "<unparseable dsn>"
    | some u ↦ print (record u { user = redact_user u.user })
  ]

  -- `DSN.validate`
  unfoldable pub validate_dsn : Bytes → Option DsnError
  validate_dsn d = if d =ᵇ [] then some dsn_empty else elim (parse d) [
    | none ↦ some dsn_unparseable
    | some u ↦
        if not ((u.scheme =ᵇ codes "postgres") || (u.scheme =ᵇ codes "postgresql"))
        then some dsn_scheme
        else if u.host =ᵇ []
        then some dsn_host
        else none
  ]

pub record ServerConfig : Type 0 where
  pub port : ℤ
  pub read_timeout : Duration
  pub write_timeout : Duration
  pub shutdown_timeout : Duration

pub record DatabaseConfig : Type 0 where
  pub url : Bytes
  pub pool : ℤ
  pub idle_pool : ℤ
  pub conn_max_lifetime : Duration

pub record AdminConfig : Type 0 where
  pub password_hash : Bytes
  pub session_secret : Bytes
  pub session_ttl : Duration
  pub insecure_cookie : Bool
  pub timezone : Bytes
  pub login_attempts : ℤ
  pub login_window : Duration

pub record Config : Type 0 where
  pub server : ServerConfig
  pub database : DatabaseConfig
  pub admin : AdminConfig
  pub log_level : Bytes

-- `AdminConfig.Enabled`
unfoldable pub enabled : AdminConfig → Bool
unfolding is_set
enabled a = is_set a.password_hash && is_set a.session_secret

-- `AdminConfig.Location`; `load_location` is `time.LoadLocation`, `utc` is `time.UTC`.
unfoldable pub location : (load_location : Bytes → Option Zone) → (utc : Zone) → AdminConfig → Zone
location load_location utc a = elim (load_location a.timezone) [ none ↦ utc | some zone ↦ zone ]

-- The map `logLevels`.
unfoldable pub log_levels : Bytes → Option LogLevel
log_levels name =
    if name =ᵇ codes "debug"
    then some debug
    else if name =ᵇ codes "info"
    then some info
    else if name =ᵇ codes "warn"
    then some warn
    else if name =ᵇ codes "error"
    then some error
    else none

-- `Config.SlogLevel`
unfoldable pub slog_level : Config → LogLevel
unfolding log_levels
slog_level c = elim (log_levels c.log_level) [ none ↦ info | some level ↦ level ]

-- The keys of the map that `Validate` ranges over.
pub data Timeout : Type 0 where
  read write shutdown : Timeout

-- The error of `Validate`, by the rule that is broken.
pub data Invalid : Type 0 where
  bad_port : Invalid
  bad_timeout : Timeout → Invalid
  bad_dsn : DsnError → Invalid
  bad_pool negative_idle_pool idle_above_pool bad_lifetime : Invalid
  bad_ttl bad_timezone bad_attempts bad_window half_configured : Invalid
  bad_log_level : Invalid

abbrev timeout_of : ServerConfig → Timeout → Duration
timeout_of s read = s.read_timeout
timeout_of s write = s.write_timeout
timeout_of s shutdown = s.shutdown_timeout

-- The loop over the timeouts, in the order in which the map is ranged over.
unfoldable pub check_timeouts : ServerConfig → List Timeout → Option Invalid
check_timeouts s [] = none
check_timeouts s (t ∷ order) =
    if leb_ℤ (timeout_of s t) (pos 0) then some (bad_timeout t) else check_timeouts s order

-- `AdminConfig.validate`
unfoldable pub validate_admin : (load_location : Bytes → Option Zone) → AdminConfig → Option Invalid
unfolding is_set
validate_admin load_location a =
    if leb_ℤ a.session_ttl (pos 0)
    then some bad_ttl
    else if is_absent (load_location a.timezone)
    then some bad_timezone
    else if ltb_ℤ a.login_attempts (pos 1)
    then some bad_attempts
    else if leb_ℤ a.login_window (pos 0)
    then some bad_window
    else if (is_set a.password_hash && not (is_set a.session_secret))
        || (not (is_set a.password_hash) && is_set a.session_secret)
    then some half_configured
    else none

-- `return err` where a check fails, else the next one.
infixr 30 ◌or_else◌
abbrev pub ◌or_else◌ : Option Invalid → Option Invalid → Option Invalid
none or_else next = next
(some e) or_else next = some e

abbrev when : Bool → Invalid → Option Invalid
when true e = some e
when false e = none

abbrev dsn_invalid : Option DsnError → Option Invalid
dsn_invalid none = none
dsn_invalid (some e) = some (bad_dsn e)

-- `Config.Validate`; `order` is the order of the map of timeouts.
unfoldable pub validate :
    (parse : Bytes → Option Url)
    → (load_location : Bytes → Option Zone) → (order : List Timeout) → Config
    → Option Invalid
unfolding check_timeouts validate_dsn validate_admin log_levels
validate parse load_location order c =
    when (ltb_ℤ c.server.port (pos 1) || ltb_ℤ (pos 65535) c.server.port) bad_port
    or_else check_timeouts c.server order
    or_else dsn_invalid (validate_dsn parse c.database.url)
    or_else when (ltb_ℤ c.database.pool (pos 1)) bad_pool
    or_else when (ltb_ℤ c.database.idle_pool (pos 0)) negative_idle_pool
    or_else when (ltb_ℤ c.database.pool c.database.idle_pool) idle_above_pool
    or_else when (leb_ℤ c.database.conn_max_lifetime (pos 0)) bad_lifetime
    or_else validate_admin load_location c.admin
    or_else when (is_absent (log_levels c.log_level)) bad_log_level
