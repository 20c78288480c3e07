-- ===== src/Cli/Commands/Acts.antt =====
-- internal/cli: what each command may do for good.
use go_personal_web.Prelude.{
  ◌≡◌, refl, ◌∙◌, ap, subst, ◌⊎◌, inl, inr, false, Option, none, some, List, [], ◌∷◌, Bytes, ◌=ᵇ◌,
  ℤ, pos, ltb_ℤ, ◌≤ℤ◌, Bool-cases, arith,
}
use go_personal_web.Config.{Config, Invalid, validate}
use go_personal_web.Config.Sources.{load, read_config, searched, decoded, accepted}
use go_personal_web.Process.{
  Call, new_connection, open_pool, ping, apply, roll_back, listen, shutdown, bind_flag,
  read_config_file, search_config_file, unmarshal, marshal, print, print_status, Search, file_read,
  no_file, unreadable, Stop, closed, broke, cancelled, outside, invalid, done, World, Run, ◌>>=◌,
}
use go_personal_web.Process.Acts.{
  act, acts, IsQuiet, Does, IsQuiet-if, IsQuiet-on_failure, IsQuiet-deferring, IsQuiet-bind,
  IsQuiet-call, Does-bind, Does-call, Does-then, Does-deferring, Does-map, IsQuiet-return,
  IsQuiet-refuse, >>=-done,
}
use go_personal_web.Database.{open_database, ping_database, status, require_current_schema}
use go_personal_web.Database.Schema.{
  IsUpToDate, up_acts, down_acts, require_current_schema-IsQuiet, new_migrator-IsQuiet,
  pending_of_current,
}
use go_personal_web.Server.Run.{wait, run_server}
use go_personal_web.Cli.Commands.{
  Command, serve, config_show, migrate_up, migrate_status, version, help, migrate_down, flags_of,
  has_flag, bind_flags, app_config, with_database, serve_command, down_command, show_command,
  run_command,
}

module _ (w : World) where
  searched-IsQuiet : (s : Search) → IsQuiet (searched s)
  unfolding searched
  searched-IsQuiet file_read = IsQuiet-return tt
  searched-IsQuiet no_file = IsQuiet-return tt
  searched-IsQuiet unreadable = IsQuiet-refuse (Unit {0}) (outside search_config_file)

  decoded-IsQuiet : (c : Option Config) → IsQuiet (decoded c)
  unfolding decoded
  decoded-IsQuiet none = IsQuiet-refuse Config (outside unmarshal)
  decoded-IsQuiet (some c) = IsQuiet-return c

  accepted-IsQuiet : (c : Config) (e : Option Invalid) → IsQuiet (accepted c e)
  unfolding accepted
  accepted-IsQuiet c none = IsQuiet-return c
  accepted-IsQuiet c (some e) = IsQuiet-refuse Config (invalid e)

  load-IsQuiet : (path : Bytes) → IsQuiet (load w path)
  unfolding load read_config act
  load-IsQuiet path =
      IsQuiet-bind _ _
        (IsQuiet-if (path =ᵇ []) _ _ (searched-IsQuiet w.search)
          (IsQuiet-call w read_config_file refl))
        λ _. IsQuiet-bind _ _ (decoded-IsQuiet w.decoded) λ c. accepted-IsQuiet c _

  bind_flags-IsQuiet :
      (flags : List Bytes) (order : List (Bytes × Bytes)) → IsQuiet (bind_flags w flags order)
  unfolding bind_flags act
  bind_flags-IsQuiet flags [] = IsQuiet-return tt
  bind_flags-IsQuiet flags ((key, name) ∷ order) =
      IsQuiet-bind _ _
        (IsQuiet-if (has_flag name flags) _ _ (IsQuiet-call w (bind_flag key name) refl)
          (IsQuiet-return tt))
        λ _. bind_flags-IsQuiet flags order

  app_config-IsQuiet :
      (order : List (Bytes × Bytes)) (path : Bytes) (c : Command)
      → IsQuiet (app_config w order path c)
  unfolding app_config
  app_config-IsQuiet order path c =
      IsQuiet-bind _ _ (bind_flags-IsQuiet (flags_of c) order) λ _. load-IsQuiet path

  open_database-IsQuiet : IsQuiet (open_database w)
  unfolding open_database ping_database act acts
  open_database-IsQuiet = IsQuiet-bind _ _ (IsQuiet-call w new_connection refl) λ _.
      IsQuiet-bind _ _ (IsQuiet-call w open_pool refl)
        λ _. IsQuiet-on_failure _ _ refl (IsQuiet-call w ping refl)

  -- The sources decode to a configuration that `Validate` accepts.
  abbrev pub IsConfigured : Type 0
  IsConfigured =
      (c : Config) × (w.decoded ≡ some c)
      × (validate w.parse_url w.load_location w.timeouts c ≡ none)

  decoded_value : (o : Option Config) (c : Config) → (decoded o).1 ≡ done c → o ≡ some c
  unfolding decoded
  decoded_value none c h = absurd (cc)
  decoded_value (some d) c h = cc

  accepted_value :
      (d c : Config) (e : Option Invalid) → (accepted d e).1 ≡ done c → (e ≡ none) × (d ≡ c)
  unfolding accepted
  accepted_value d c none h = (refl, cc)
  accepted_value d c (some e) h = absurd (cc)

  -- `Load` returns only what decodes and is valid.
  pub load_value :
      (path : Bytes) (c : Config)
      → (load w path).1 ≡ done c
      → (w.decoded ≡ some c) × (validate w.parse_url w.load_location w.timeouts c ≡ none)
  unfolding load
  load_value path c h =
      let (_, _, h1) = >>=-done (read_config w path) _ c h in
      let (d, found, h2) = >>=-done (decoded w.decoded) _ c h1 in
      let (valid, same) = accepted_value d c _ h2 in
      (
        decoded_value w.decoded d found ∙ ap some same,
        subst (λ x. validate w.parse_url w.load_location w.timeouts x ≡ none) same valid,
      )

  app_config_value :
      (order : List (Bytes × Bytes)) (path : Bytes) (command : Command) (c : Config)
      → (app_config w order path command).1 ≡ done c
      → IsConfigured
  unfolding app_config
  app_config_value order path command c h =
      let (_, _, h1) = >>=-done (bind_flags w (flags_of command) order) _ c h in
      let (found, valid) = load_value path c h1 in (c, found, valid)

module _ (w : World) (order : List (Bytes × Bytes)) (path : Bytes) where
  with_database-Does :
      (command : Command) (fn : Run (Unit {0})) (c : Call) (P : Type 0)
      → Does c P fn
      → Does c (P × IsConfigured w) (with_database w order path command fn)
  unfolding with_database acts
  with_database-Does command fn c P h =
      Does-bind c (P × IsConfigured w) _ _ (app_config-IsQuiet w order path command) λ config e.
        Does-bind c (P × IsConfigured w) _ _ (open_database-IsQuiet w) λ _ _.
          Does-deferring c (P × IsConfigured w) _ _ refl (
            Does-map c P (P × IsConfigured w) fn
              (λ p. (p, app_config_value w order path command config e)) h)

  wait-IsQuiet : (s : Stop) → IsQuiet (wait w s)
  unfolding wait act
  wait-IsQuiet closed = IsQuiet-return tt
  wait-IsQuiet broke = IsQuiet-refuse (Unit {0}) (outside Call.serve)
  wait-IsQuiet cancelled = IsQuiet-call w shutdown refl

  serving-Does : Does listen (IsUpToDate w) (require_current_schema w >>= λ _. run_server w)
  unfolding run_server act
  serving-Does = Does-bind listen (IsUpToDate w) _ _ (require_current_schema-IsQuiet w) λ a e.
      Does-map listen (Unit {0}) (IsUpToDate w) _ (λ _. pending_of_current w a e)
        (Does-then listen (Unit {0}) _ _ (Does-call w listen refl) λ _. wait-IsQuiet w.stop)

  status-IsQuiet : IsQuiet (status w)
  unfolding status act
  status-IsQuiet = IsQuiet-bind _ _ (new_migrator-IsQuiet w) λ _. IsQuiet-call w print_status refl

  with_database-IsQuiet :
      (command : Command) (fn : Run (Unit {0}))
      → IsQuiet fn
      → IsQuiet (with_database w order path command fn)
  unfolding with_database acts
  with_database-IsQuiet command fn h =
      IsQuiet-bind _ _ (app_config-IsQuiet w order path command)
        λ _. IsQuiet-bind _ _ (open_database-IsQuiet w) λ _. IsQuiet-deferring _ fn refl h

-- What a command may do for good: nothing, or its own act, where that is allowed.
abbrev pub Allowed : World → Command → List Call → Type 0
Allowed w serve made = (made ≡ []) ⊎ ((made ≡ listen ∷ []) × (IsUpToDate w × IsConfigured w))
Allowed w migrate_up made = (made ≡ []) ⊎ ((made ≡ apply ∷ []) × (Unit {0} × IsConfigured w))
Allowed w (migrate_down step) made =
    (made ≡ []) ⊎ ((made ≡ roll_back step ∷ []) × (IsUpToDate w × IsConfigured w) × (pos 1 ≤ℤ step))
Allowed w command made = made ≡ []

rolled :
    (w : World) (step : ℤ) (made : List Call)
    → ltb_ℤ step (pos 1) ≡ false
    → (made ≡ []) ⊎ ((made ≡ roll_back step ∷ []) × (IsUpToDate w × IsConfigured w))
    → Allowed w (migrate_down step) made
rolled w step made h (inl quiet) = inl quiet
rolled w step made h (inr (one, p)) = inr (one, p, ground arith)

-- Every run of every command, whichever calls fail: only `serve` takes requests, and with a valid
-- configuration and a schema with every embedded migration recorded; only `migrate up` applies
-- migrations; only `migrate down` rolls back, once, the steps that it is told, at least one, and on such
-- a schema too. Without a valid configuration no command does any of it.
pub command_acts :
    (w : World) (order : List (Bytes × Bytes)) (path : Bytes) (c : Command)
    → Allowed w c (acts (run_command w order path c).0)
unfolding run_command serve_command down_command show_command act acts
command_acts w order path serve =
    (with_database-Does w order path serve _ listen (IsUpToDate w)
      (serving-Does w order path)).either
command_acts w order path migrate_up =
    (with_database-Does w order path migrate_up _ apply (Unit {0}) (up_acts w)).either
command_acts w order path (migrate_down step) = elim (Bool-cases (ltb_ℤ step (pos 1))) [
  | inl bad ↦ rw (bad) (inl refl)
  | inr good ↦ rw (good) (
      rolled w step _ good (
        (with_database-Does w order path (migrate_down step) _ (roll_back step) (IsUpToDate w)
          (down_acts w step)).either))
]
command_acts w order path config_show =
    (IsQuiet-bind _ _ (app_config-IsQuiet w order path config_show)
      λ _. IsQuiet-bind _ _ (IsQuiet-call w marshal refl) λ _. IsQuiet-call w print refl).quiet
command_acts w order path migrate_status =
    (with_database-IsQuiet w order path migrate_status _ (status-IsQuiet w order path)).quiet
command_acts w order path version = (IsQuiet-call w print refl).quiet
command_acts w order path help = refl
