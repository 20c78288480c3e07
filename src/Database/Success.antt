-- ===== src/Database/Success.antt =====
-- internal/database: what the operations do where the calls that they make succeed.
use go_personal_web.Prelude.{◌≡◌, refl, false, [], ◌∷◌, ℤ}
use go_personal_web.Process.{
  Call, new_connection, open_pool, ping, sub_files, migration_box, table_exists, read_versions,
  open_lock, pin_session, acquire_lock, apply, print_status, roll_back, World,
}
use go_personal_web.Process.Success.{
  task, tasks, Succeeds, Succeeds-return, Succeeds-call, Succeeds-quiet, Succeeds-next,
  Succeeds-on_failure, Succeeds-deferring, Succeeds-if,
}
use go_personal_web.Database.{
  open_database, ping_database, new_migrator, recorded, read_recorded, unapplied, sort_strings,
  pending, lock_migrations, up, down_pending, down, status, refuse_pending, require_current_schema,
}
use go_personal_web.Database.Schema.{IsUpToDate, pending-nil}

module _ (w : World) (works : (c : Call) → w.fails c ≡ false) where
  pub open_database-Succeeds : Succeeds [] tt (open_database w)
  unfolding open_database ping_database task
  open_database-Succeeds =
      Succeeds-next [] tt tt _ _ (Succeeds-quiet w new_connection (works new_connection) refl) (
        Succeeds-next [] tt tt _ _ (Succeeds-quiet w open_pool (works open_pool) refl)
          (Succeeds-on_failure [] tt _ _ (Succeeds-quiet w ping (works ping) refl)))

  new_migrator-Succeeds : Succeeds [] tt (new_migrator w)
  unfolding new_migrator task
  new_migrator-Succeeds =
      Succeeds-next [] tt tt _ _ (Succeeds-quiet w sub_files (works sub_files) refl)
        (Succeeds-quiet w migration_box (works migration_box) refl)

  pending-Succeeds : Succeeds [] (sort_strings (unapplied (recorded w) w.migrations)) (pending w)
  unfolding pending read_recorded task
  pending-Succeeds =
      let ps = sort_strings (unapplied (recorded w) w.migrations) in
      Succeeds-next [] tt ps _ _ new_migrator-Succeeds (
        Succeeds-next [] tt ps _ _ (Succeeds-quiet w table_exists (works table_exists) refl) (
          Succeeds-next [] tt ps _ _
            (Succeeds-if [] tt w.exists _ _
              (Succeeds-quiet w read_versions (works read_versions) refl) (Succeeds-return tt))
            (Succeeds-return ps)))

  lock_migrations-Succeeds : Succeeds [] tt (lock_migrations w)
  unfolding lock_migrations task
  lock_migrations-Succeeds =
      Succeeds-next [] tt tt _ _ (Succeeds-quiet w open_lock (works open_lock) refl) (
        Succeeds-on_failure [] tt _ _ (
          Succeeds-next [] tt tt _ _ (Succeeds-quiet w pin_session (works pin_session) refl) (
            Succeeds-on_failure [] tt _ _
              (Succeeds-quiet w acquire_lock (works acquire_lock) refl))))

  pub up-Succeeds : Succeeds (apply ∷ []) tt (up w)
  unfolding up task tasks
  up-Succeeds = Succeeds-next (apply ∷ []) tt tt _ _ lock_migrations-Succeeds (
      Succeeds-deferring (apply ∷ []) tt _ _ refl (
        Succeeds-next (apply ∷ []) tt tt _ _ new_migrator-Succeeds
          (Succeeds-call w apply (works apply))))

  pub status-Succeeds : Succeeds (print_status ∷ []) tt (status w)
  unfolding status task
  status-Succeeds =
      Succeeds-next (print_status ∷ []) tt tt _ _ new_migrator-Succeeds
        (Succeeds-call w print_status (works print_status))

  module _ (current : IsUpToDate w) where
    none_pending : sort_strings (unapplied (recorded w) w.migrations) ≡ []
    none_pending = (pending-nil (recorded w) w.migrations).1 current

    pub down-Succeeds : (steps : ℤ) → Succeeds (roll_back steps ∷ []) tt (down w steps)
    unfolding down down_pending task tasks
    down-Succeeds steps =
        let made = roll_back steps ∷ [] in
        Succeeds-next made _ tt _ _ pending-Succeeds (
          rw (none_pending) (
            Succeeds-next made tt tt _ _ lock_migrations-Succeeds (
              Succeeds-deferring made tt _ _ refl (
                Succeeds-next made tt tt _ _ new_migrator-Succeeds
                  (Succeeds-call w (roll_back steps) (works (roll_back steps)))))))

    pub require_current_schema-Succeeds : Succeeds [] tt (require_current_schema w)
    unfolding require_current_schema refuse_pending
    require_current_schema-Succeeds =
        Succeeds-next [] _ tt _ _ pending-Succeeds (rw (none_pending) (Succeeds-return tt))
