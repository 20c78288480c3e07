-- ===== src/Tests/Process.antt =====
-- Commands in a world of two migrations.
use go_personal_web.Prelude.{
  ◌=ᵇ◌, none, ◌≡◌, refl, Bool, true, false, some, List, [], ◌∷◌, Bytes, codes, pos,
}
use go_personal_web.Process.{Call, cancelled, no_file, World, acquire_lock}
use go_personal_web.Process.Orderly.{settle}
use go_personal_web.Process.Acts.{acts}
use go_personal_web.Process.Success.{tasks}
use go_personal_web.Database.{recorded, is_applied}
use go_personal_web.Database.Schema.{IsUpToDate}
use go_personal_web.Config.{
  validate, check_timeouts, validate_dsn, validate_admin, log_levels, is_set,
}
use go_personal_web.Cli.Commands.{Command, migrate_down, flag_bindings, run_command, exit_code}
use go_personal_web.Cli.Commands.Success.{purpose, command_succeeds}
use go_personal_web.Cli.Commands.Acts.{Allowed, command_acts}
use go_personal_web.Cli.Commands.Effects.{command_orderly}
use go_personal_web.Tests.Config.{config, parse, order, outside}

-- A world where the calls that `fails` names fail.
abbrev world : (Call → Bool) → List Bytes → World
world fails versions = record {
  fails = fails;
  exists = true;
  versions = versions;
  migrations =
      record { version = codes "1"; name = codes "posts" }
      ∷ record { version = codes "2"; name = codes "pages" }
      ∷ [];
  stop = cancelled;
  search = no_file;
  decoded = some config;
  parse_url = parse;
  load_location = outside.load_location;
  timeouts = order;
}

abbrev half : World
half = world (λ c. false) (codes "1" ∷ [])

abbrev lock_fails : Call → Bool
lock_fails acquire_lock = true
lock_fails c = false

abbrev current : World
current = world lock_fails (codes "1" ∷ codes "2" ∷ [])

-- `migrate down` where the advisory lock cannot be had.
command_orderly_example :
    settle [] (run_command current flag_bindings [] (migrate_down (pos 1))).0 ≡ some []
command_orderly_example = command_orderly current flag_bindings [] (migrate_down (pos 1))

command_acts_example :
    Allowed half Command.serve (acts (run_command half flag_bindings [] Command.serve).0)
command_acts_example = command_acts half flag_bindings [] Command.serve

-- Both migrations are recorded.
abbrev whole : World
whole = world (λ c. false) (codes "1" ∷ codes "2" ∷ [])

whole_valid : validate whole.parse_url whole.load_location whole.timeouts config ≡ none
unfolding validate check_timeouts validate_dsn validate_admin log_levels is_set ◌=ᵇ◌ codes
whole_valid = refl

whole_current : IsUpToDate whole
unfolding recorded is_applied codes ◌=ᵇ◌
whole_current = (refl, (refl, tt))

command_succeeds_example :
    (exit_code (run_command whole flag_bindings [] Command.serve).1 ≡ 0)
    × (tasks (run_command whole flag_bindings [] Command.serve).0 ≡ purpose Command.serve)
command_succeeds_example =
    command_succeeds whole (λ c. refl) flag_bindings [] config refl whole_valid (λ e. cc)
      Command.serve (whole_current, λ e. cc)
