-- ===== src/Process.antt =====
-- A command of the program as the calls that it makes outside the repository, in order, and what it ends
-- with. What each call answers is a parameter, the `World`. Used by the models of internal/database,
-- internal/server and internal/cli.
pub mod Orderly
pub mod Acts
pub mod Success
use go_personal_web.Prelude.{ℕ, Bool, true, false, List, [], ◌∷◌, ◌++◌, Bytes, Option, ℤ}
use go_personal_web.View.{Zone}
use go_personal_web.Config.{Url, Config, Timeout, Invalid}

-- The calls: of pop and database/sql, of the embedded files, of net and net/http, of viper.
pub data Call : Type 0 where
  new_connection open_pool ping : Call
  sub_files migration_box table_exists read_versions : Call
  open_lock pin_session acquire_lock : Call
  apply print_status : Call
  roll_back : (steps : ℤ) → Call
  listen serve shutdown : Call
  bind_flag : (key name : Bytes) → Call
  read_config_file search_config_file unmarshal marshal print : Call

-- What is opened and has to be released.
pub data Resource : Type 0 where
  pool lock_connection session advisory_lock : Resource

pub data Event : Type 0 where
  did failed : Call → Event
  released : Resource → Event

-- Why a command ends: a call failed, or the program refuses to go on.
pub data Failure : Type 0 where
  outside : Call → Failure
  invalid : Invalid → Failure
  behind : (pending : List Bytes) → Failure
  bad_step : ℤ → Failure

pub data Ended (A : Type 0) : Type 0 where
  done : A → Ended A
  stopped : Failure → Ended A

pub record Migration : Type 0 where
  pub version : Bytes
  pub name : Bytes

-- How `http.Server.Serve` and the context end: `Serve` returns `ErrServerClosed` or another error, or the
-- context is cancelled first.
pub data Stop : Type 0 where
  closed broke cancelled : Stop

-- The search for a config file where none is named.
pub data Search : Type 0 where
  file_read no_file unreadable : Search

-- What lies outside: which calls fail, and what those answer that do not. `decoded` is the configuration
-- that viper merges from its sources, where it decodes; the last three are what `Validate` is given.
pub record World : Type 0 where
  pub fails : Call → Bool
  pub exists : Bool
  pub versions : List Bytes
  pub migrations : List Migration
  pub stop : Stop
  pub search : Search
  pub decoded : Option Config
  pub parse_url : Bytes → Option Url
  pub load_location : Bytes → Option Zone
  pub timeouts : List Timeout

abbrev pub Run : Type 0 → Type 0
Run A = List Event × Ended A

infixl 5 ◌>>=◌ ◌>>◌
abbrev pub ◌>>=◌ : {A B : Type 0} → Run A → (A → Run B) → Run B
◌>>=◌ (es, done a) f = let (fs, r) = f a in (es ++ fs, r)
◌>>=◌ (es, stopped e) f = (es, stopped e)

abbrev pub ◌>>◌ : {B : Type 0} → Run (Unit {0}) → Run B → Run B
m >> k = m >>= λ _. k

abbrev pub return : {A : Type 0} → A → Run A
return a = ([], done a)

abbrev pub refuse : {A : Type 0} → Failure → Run A
refuse e = ([], stopped e)

-- A call, and `if err != nil { return err }`.
unfoldable pub call : World → Call → Run (Unit {0})
call w c = elim (w.fails c) [
  | true ↦ (failed c ∷ [], stopped (outside c))
  | false ↦ (did c ∷ [], done tt)
]

-- `defer`: the events follow however the rest ends.
unfoldable pub deferring : {A : Type 0} → List Event → Run A → Run A
deferring es (fs, r) = (fs ++ es, r)

-- What is released on the way out of an error.
unfoldable pub on_failure : {A : Type 0} → List Event → Run A → Run A
on_failure es (fs, done a) = (fs, done a)
on_failure es (fs, stopped e) = (fs ++ es, stopped e)
