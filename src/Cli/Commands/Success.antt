-- ===== src/Cli/Commands/Success.antt =====
-- internal/cli: a command does its work where the calls that it makes succeed.
use go_personal_web.Prelude.{
  ◌≡◌, ◌≢◌, refl, ap, false, none, some, List, [], ◌∷◌, Bytes, ◌=ᵇ◌, pos, ltb_ℤ, ◌≤ℤ◌, arith,
}
use go_personal_web.Config.{Config, validate}
use go_personal_web.Config.Sources.{load, read_config, searched, decoded, accepted}
use go_personal_web.Process.{
  Call, apply, print_status, roll_back, listen, shutdown, bind_flag, read_config_file, marshal,
  print, Search, file_read, no_file, unreadable, Stop, closed, broke, cancelled, World, Run,
}
use go_personal_web.Process.Success.{
  task, tasks, Succeeds, Succeeds-return, Succeeds-call, Succeeds-quiet, Succeeds-next,
  Succeeds-bind, Succeeds-deferring, Succeeds-if,
}
use go_personal_web.Database.Schema.{IsUpToDate}
use go_personal_web.Server.Run.{wait, run_server}
use go_personal_web.Cli.Commands.{
  Command, serve, config_show, migrate_up, migrate_status, version, help, migrate_down, flags_of,
  has_flag, bind_flags, app_config, with_database, serve_command, down_command, show_command,
  run_command, exit_code,
}
use go_personal_web.Database.Success.{
  open_database-Succeeds, up-Succeeds, status-Succeeds, down-Succeeds,
  require_current_schema-Succeeds,
}

module _ (w : World) (works : (c : Call) → w.fails c ≡ false) where
  searched-Succeeds : (s : Search) → s ≢ unreadable → Succeeds [] tt (searched s)
  unfolding searched
  searched-Succeeds file_read h = Succeeds-return tt
  searched-Succeeds no_file h = Succeeds-return tt
  searched-Succeeds unreadable h = absurd (h refl)

  bind_flags-Succeeds :
      (flags : List Bytes) (order : List (Bytes × Bytes))
      → Succeeds [] tt (bind_flags w flags order)
  unfolding bind_flags task
  bind_flags-Succeeds flags [] = Succeeds-return tt
  bind_flags-Succeeds flags ((key, name) ∷ order) =
      Succeeds-next [] tt tt _ _
        (Succeeds-if [] tt (has_flag name flags) _ _
          (Succeeds-quiet w (bind_flag key name) (works (bind_flag key name)) refl)
          (Succeeds-return tt))
        (bind_flags-Succeeds flags order)

  wait-Succeeds : (s : Stop) → s ≢ broke → Succeeds [] tt (wait w s)
  unfolding wait task
  wait-Succeeds closed h = Succeeds-return tt
  wait-Succeeds broke h = absurd (h refl)
  wait-Succeeds cancelled h = Succeeds-quiet w shutdown (works shutdown) refl

  run_server-Succeeds : w.stop ≢ broke → Succeeds (listen ∷ []) tt (run_server w)
  unfolding run_server task
  run_server-Succeeds h =
      Succeeds-bind (listen ∷ []) [] tt tt _ _ (Succeeds-call w listen (works listen))
        (wait-Succeeds w.stop h)

  module _ (order : List (Bytes × Bytes)) (path : Bytes) (c : Config) (found : w.decoded ≡ some c)
      (valid : validate w.parse_url w.load_location w.timeouts c ≡ none)
      (readable : w.search ≢ unreadable) where
    load-Succeeds : Succeeds [] c (load w path)
    unfolding load read_config decoded accepted task
    load-Succeeds =
        Succeeds-next [] tt c _ _
          (Succeeds-if [] tt (path =ᵇ []) _ _ (searched-Succeeds w.search readable)
            (Succeeds-quiet w read_config_file (works read_config_file) refl))
          (Succeeds-next [] c c (decoded w.decoded)
            (λ x. accepted x (validate w.parse_url w.load_location w.timeouts x))
            (rw (found) (Succeeds-return c)) (rw (valid) (Succeeds-return c)))

    app_config-Succeeds : (command : Command) → Succeeds [] c (app_config w order path command)
    unfolding app_config
    app_config-Succeeds command =
        Succeeds-next [] tt c _ _ (bind_flags-Succeeds (flags_of command) order) load-Succeeds

    with_database-Succeeds :
        (command : Command) (made : List Call) (fn : Run (Unit {0}))
        → Succeeds made tt fn
        → Succeeds made tt (with_database w order path command fn)
    unfolding with_database tasks
    with_database-Succeeds command made fn h =
        Succeeds-next made c tt _ _ (app_config-Succeeds command) (
          Succeeds-next made tt tt _ _ (open_database-Succeeds w works)
            (Succeeds-deferring made tt _ _ refl h))

-- What a command is for.
abbrev pub purpose : Command → List Call
purpose serve = listen ∷ []
purpose migrate_up = apply ∷ []
purpose (migrate_down step) = roll_back step ∷ []
purpose config_show = marshal ∷ print ∷ []
purpose migrate_status = print_status ∷ []
purpose version = print ∷ []
purpose help = []

-- What a command needs of the database, of the server and of its flag.
abbrev pub IsReady : World → Command → Type 0
IsReady w serve = IsUpToDate w × (w.stop ≢ broke)
IsReady w (migrate_down step) = IsUpToDate w × (pos 1 ≤ℤ step)
IsReady w command = Unit

succeeds :
    (w : World) (works : (c : Call) → w.fails c ≡ false) (order : List (Bytes × Bytes))
    (path : Bytes) (c : Config) (found : w.decoded ≡ some c)
    (valid : validate w.parse_url w.load_location w.timeouts c ≡ none)
    (readable : w.search ≢ unreadable) (command : Command)
    → IsReady w command
    → Succeeds (purpose command) tt (run_command w order path command)
unfolding run_command serve_command down_command show_command task
succeeds w works order path c found valid readable serve (current, stops) =
    with_database-Succeeds w works order path c found valid readable serve (listen ∷ []) _ (
      Succeeds-next (listen ∷ []) tt tt _ _ (require_current_schema-Succeeds w works current)
        (run_server-Succeeds w works stops))
succeeds w works order path c found valid readable config_show _ =
    Succeeds-next (marshal ∷ print ∷ []) c tt _ _
      (app_config-Succeeds w works order path c found valid readable config_show)
      (Succeeds-bind (marshal ∷ []) (print ∷ []) tt tt _ _ (Succeeds-call w marshal (works marshal))
        (Succeeds-call w print (works print)))
succeeds w works order path c found valid readable migrate_up _ =
    with_database-Succeeds w works order path c found valid readable migrate_up (apply ∷ []) _
      (up-Succeeds w works)
succeeds w works order path c found valid readable (migrate_down step) (current, positive) =
    let enough : ltb_ℤ step (pos 1) ≡ false = ground arith in
    rw (enough) (
      with_database-Succeeds w works order path c found valid readable (migrate_down step)
        (roll_back step ∷ []) _ (down-Succeeds w works current step))
succeeds w works order path c found valid readable migrate_status _ =
    with_database-Succeeds w works order path c found valid readable migrate_status
      (print_status ∷ []) _ (status-Succeeds w works)
succeeds w works order path c found valid readable version _ = Succeeds-call w print (works print)
succeeds w works order path c found valid readable help _ = Succeeds-return tt

-- Where no call fails, the search for a config file does not fail and the sources decode to a valid
-- configuration, every command that is ready does its own tasks in order and no other, and the program ends with
-- exit code 0. `serve` listens, and is ready where every embedded migration is recorded and the server
-- does not break; `migrate down` rolls back its steps, and is ready where every embedded migration is
-- recorded and there is at least one step. The others are always ready: `migrate up` applies, `migrate
-- status` prints the status, `config show` encodes the configuration and prints it, `version` prints, and
-- `help` does no task (its text is printed by the library).
pub command_succeeds :
    (w : World) (works : (c : Call) → w.fails c ≡ false) (order : List (Bytes × Bytes))
    (path : Bytes) (c : Config) (found : w.decoded ≡ some c)
    (valid : validate w.parse_url w.load_location w.timeouts c ≡ none)
    (readable : w.search ≢ unreadable) (command : Command)
    → IsReady w command
    → (exit_code (run_command w order path command).1 ≡ 0)
      × (tasks (run_command w order path command).0 ≡ purpose command)
unfolding exit_code
command_succeeds w works order path c found valid readable command ready =
    let h = succeeds w works order path c found valid readable command ready in
    (ap exit_code (h.ends), h.does)
