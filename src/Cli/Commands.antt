-- ===== src/Cli/Commands.antt =====
-- internal/cli: the commands. cobra parses the command line; a command is what it calls.
pub mod Effects
pub mod Acts
pub mod Success
use go_personal_web.Prelude.{
  ℕ, Bool, true, false, ◌||◌, List, [], ◌∷◌, Bytes, ◌=ᵇ◌, codes, ℤ, pos, ltb_ℤ, if◌then◌else◌,
}
use go_personal_web.Http.{LogLevel, debug, info, warn, error}
use go_personal_web.Config.{Config}
use go_personal_web.Config.Sources.{load}
use go_personal_web.Process.{
  bind_flag, marshal, print, pool, released, bad_step, Ended, done, stopped, World, Run, ◌>>=◌,
  ◌>>◌, return, refuse, call, deferring,
}
use go_personal_web.Database.{open_database, up, down, status, require_current_schema}
use go_personal_web.Server.Run.{run_server}

-- The tree of `NewRootCmd` but for `admin hash-password`, which is in Cli; `help` stands for the commands
-- that only print their usage.
pub data Command : Type 0 where
  serve config_show migrate_up migrate_status version help : Command
  migrate_down : (step : ℤ) → Command

-- The names of the flags that a command has: those of `addServerFlags` and the persistent one.
unfoldable pub flags_of : Command → List Bytes
flags_of serve = codes "port" ∷ codes "read-timeout" ∷ codes "log-level" ∷ []
flags_of config_show = codes "port" ∷ codes "read-timeout" ∷ codes "log-level" ∷ []
flags_of command = codes "log-level" ∷ []

unfoldable pub has_flag : Bytes → List Bytes → Bool
has_flag name [] = false
has_flag name (f ∷ flags) = (f =ᵇ name) || has_flag name flags

-- `flagBindings`, in one order.
abbrev pub flag_bindings : List (Bytes × Bytes)
flag_bindings =
    (codes "log_level", codes "log-level")
    ∷ (codes "server.port", codes "port")
    ∷ (codes "server.read_timeout", codes "read-timeout")
    ∷ []

-- The loop of `app.config` over the bindings, in the order in which the map is ranged over.
unfoldable pub bind_flags : World → List Bytes → List (Bytes × Bytes) → Run (Unit {0})
unfolding has_flag
bind_flags w flags [] = return tt
bind_flags w flags ((key, name) ∷ bindings) = do
  (if has_flag name flags then call w (bind_flag key name) else return tt)
  bind_flags w flags bindings

-- A run of the program: `order` is the order of `flagBindings`, `path` the value of `--config`.
module _ (w : World) (order : List (Bytes × Bytes)) (path : Bytes) where
  -- `app.config`
  unfoldable pub app_config : Command → Run Config
  unfolding flags_of bind_flags load
  app_config command = do bind_flags w (flags_of command) order; load w path

  -- `app.withDatabase`
  unfoldable pub with_database : Command → Run (Unit {0}) → Run (Unit {0})
  unfolding app_config open_database
  with_database command fn = do
    c ← app_config command
    open_database w
    deferring (released pool ∷ []) fn

  -- The `RunE` of `newServeCmd`.
  unfoldable pub serve_command : Run (Unit {0})
  unfolding with_database require_current_schema run_server
  serve_command = with_database serve (do require_current_schema w; run_server w)

  -- The `RunE` of `newMigrateDownCmd`.
  unfoldable pub down_command : ℤ → Run (Unit {0})
  unfolding with_database down
  down_command step =
      if ltb_ℤ step (pos 1)
      then refuse (bad_step step)
      else with_database (migrate_down step) (down w step)

  -- The `RunE` of `newConfigShowCmd`; the line with the file's name is printed without a check.
  unfoldable pub show_command : Run (Unit {0})
  unfolding app_config
  show_command = do c ← app_config config_show; call w marshal; call w print

  unfoldable pub run_command : Command → Run (Unit {0})
  unfolding serve_command down_command show_command with_database up status
  run_command serve = serve_command
  run_command config_show = show_command
  run_command migrate_up = with_database migrate_up (up w)
  run_command (migrate_down step) = down_command step
  run_command migrate_status = with_database migrate_status (status w)
  run_command version = call w print
  run_command help = return tt

-- `main`: the exit code.
unfoldable pub exit_code : Ended (Unit {0}) → ℕ
exit_code (done _) = 0
exit_code (stopped e) = 1

-- The levels of pop's logger.
pub data PopLevel : Type 0 where
  pop_sql pop_debug pop_info pop_warn pop_error : PopLevel

-- `usePopLogger`
unfoldable pub pop_level : PopLevel → LogLevel
pop_level pop_sql = debug
pop_level pop_debug = debug
pop_level pop_warn = warn
pop_level pop_error = error
pop_level pop_info = info
