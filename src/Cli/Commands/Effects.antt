-- ===== src/Cli/Commands/Effects.antt =====
-- internal/cli: what the commands hold and what they do for good.
use go_personal_web.Prelude.{◌≡◌, refl, Option, none, some, List, [], ◌∷◌, Bytes, ◌=ᵇ◌, pos, ltb_ℤ}
use go_personal_web.Config.{Config, Invalid}
use go_personal_web.Config.Sources.{load, read_config, searched, decoded, accepted}
use go_personal_web.Process.{
  Call, listen, shutdown, bind_flag, read_config_file, search_config_file, unmarshal, marshal,
  print, Search, file_read, no_file, unreadable, Stop, closed, broke, cancelled, Resource, pool,
  bad_step, outside, invalid, done, stopped, World, Run, ◌>>=◌,
}
use go_personal_web.Process.Orderly.{
  opened, settle, Holds, Holds-if, Holds-return, Holds-refuse, Holds-bind, Holds-call,
  Holds-deferring,
}
use go_personal_web.Database.{require_current_schema}
use go_personal_web.Database.Locking.{
  open_database-Holds, require_current_schema-Holds, status-Holds, up-Holds, down-Holds,
}
use go_personal_web.Server.Run.{wait, run_server}
use go_personal_web.Cli.Commands.{
  Command, serve, config_show, migrate_up, migrate_status, version, help, migrate_down, flags_of,
  has_flag, bind_flags, app_config, with_database, serve_command, down_command, show_command,
  run_command,
}

module _ (w : World) (held : List Resource) where
  searched-Holds : (s : Search) → Holds held held held (searched s)
  unfolding searched
  searched-Holds file_read = Holds-return held held tt
  searched-Holds no_file = Holds-return held held tt
  searched-Holds unreadable = Holds-refuse (Unit {0}) held held (outside search_config_file)

  decoded-Holds : (c : Option Config) → Holds held held held (decoded c)
  unfolding decoded
  decoded-Holds none = Holds-refuse Config held held (outside unmarshal)
  decoded-Holds (some c) = Holds-return held held c

  accepted-Holds : (c : Config) (e : Option Invalid) → Holds held held held (accepted c e)
  unfolding accepted
  accepted-Holds c none = Holds-return held held c
  accepted-Holds c (some e) = Holds-refuse Config held held (invalid e)

  load-Holds : (path : Bytes) → Holds held held held (load w path)
  unfolding load read_config opened
  load-Holds path =
      Holds-bind held held held held _ _
        (Holds-if (path =ᵇ []) held held held _ _ (searched-Holds w.search)
          (Holds-call w read_config_file held held refl))
        λ _. Holds-bind held held held held _ _ (decoded-Holds w.decoded) λ c. accepted-Holds c _

  bind_flags-Holds :
      (flags : List Bytes) (order : List (Bytes × Bytes))
      → Holds held held held (bind_flags w flags order)
  unfolding bind_flags opened
  bind_flags-Holds flags [] = Holds-return held held tt
  bind_flags-Holds flags ((key, name) ∷ order) =
      Holds-bind held held held held _ _
        (Holds-if (has_flag name flags) held held held _ _
          (Holds-call w (bind_flag key name) held held refl) (Holds-return held held tt))
        λ _. bind_flags-Holds flags order

  app_config-Holds :
      (order : List (Bytes × Bytes)) (path : Bytes) (c : Command)
      → Holds held held held (app_config w order path c)
  unfolding app_config
  app_config-Holds order path c =
      Holds-bind held held held held _ _ (bind_flags-Holds (flags_of c) order) λ _. load-Holds path

module _ (w : World) (order : List (Bytes × Bytes)) (path : Bytes) where
  with_database-Holds :
      (c : Command) (fn : Run (Unit {0}))
      → Holds (pool ∷ []) (pool ∷ []) (pool ∷ []) fn
      → Holds [] [] [] (with_database w order path c fn)
  unfolding with_database settle
  with_database-Holds c fn h = Holds-bind [] [] [] [] _ _ (app_config-Holds w [] order path c) λ _.
      Holds-bind [] (pool ∷ []) [] [] _ _ (open_database-Holds w [])
        λ _. Holds-deferring (pool ∷ []) (pool ∷ []) (pool ∷ []) [] [] _ fn h refl refl

  wait-Holds : (held : List Resource) (s : Stop) → Holds held held held (wait w s)
  unfolding wait opened
  wait-Holds held closed = Holds-return held held tt
  wait-Holds held broke = Holds-refuse (Unit {0}) held held (outside Call.serve)
  wait-Holds held cancelled = Holds-call w shutdown held held refl

  serving-Holds :
      Holds (pool ∷ []) (pool ∷ []) (pool ∷ []) (require_current_schema w >>= λ _. run_server w)
  unfolding run_server opened
  serving-Holds =
      Holds-bind (pool ∷ []) (pool ∷ []) (pool ∷ []) (pool ∷ []) _ _
        (require_current_schema-Holds w (pool ∷ []))
        λ _.
          Holds-bind (pool ∷ []) (pool ∷ []) (pool ∷ []) (pool ∷ []) _ _
            (Holds-call w listen (pool ∷ []) (pool ∷ []) refl) λ _. wait-Holds (pool ∷ []) w.stop

  command-Holds : (c : Command) → Holds [] [] [] (run_command w order path c)
  unfolding run_command serve_command down_command show_command opened
  command-Holds serve = with_database-Holds serve _ serving-Holds
  command-Holds config_show =
      Holds-bind [] [] [] [] _ _ (app_config-Holds w [] order path config_show) λ _.
        Holds-bind [] [] [] [] _ _ (Holds-call w marshal [] [] refl)
          λ _. Holds-call w print [] [] refl
  command-Holds migrate_up = with_database-Holds migrate_up _ (up-Holds w (pool ∷ []))
  command-Holds (migrate_down step) =
      Holds-if (ltb_ℤ step (pos 1)) [] [] [] _ _ (Holds-refuse (Unit {0}) [] [] (bad_step step))
        (with_database-Holds (migrate_down step) _ (down-Holds w (pool ∷ []) step))
  command-Holds migrate_status = with_database-Holds migrate_status _ (status-Holds w (pool ∷ []))
  command-Holds version = Holds-call w print [] [] refl
  command-Holds help = Holds-return [] [] tt

  settled : (m : Run (Unit {0})) → Holds [] [] [] m → settle [] m.0 ≡ some []
  settled (es, done a) h = h
  settled (es, stopped e) h = h

  -- Every run of every command, whichever calls fail, is in order: the pool, the lock's connection, its
  -- session and the advisory lock are released in the reverse order of their opening and nothing is held
  -- at the end; migrations are applied and rolled back under the advisory lock only, and requests are
  -- taken under an open pool only.
  pub command_orderly : (c : Command) → settle [] (run_command w order path c).0 ≡ some []
  command_orderly c = settled _ (command-Holds c)
