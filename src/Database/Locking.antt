-- ===== src/Database/Locking.antt =====
-- internal/database: every command gives back what it opens, in the reverse order, and migrates under the
-- advisory lock.
use go_personal_web.Prelude.{refl, List, [], ◌∷◌, Bytes, ℤ}
use go_personal_web.Process.{
  new_connection, open_pool, ping, sub_files, migration_box, table_exists, read_versions, open_lock,
  pin_session, acquire_lock, apply, print_status, roll_back, Resource, pool, lock_connection,
  session, advisory_lock, behind, World, Run, ◌>>=◌, return, call, deferring,
}
use go_personal_web.Process.Orderly.{
  opened, settle, Holds, Holds-if, Holds-return, Holds-refuse, Holds-bind, Holds-call,
  Holds-deferring, Holds-on_failure,
}
use go_personal_web.Database.{
  ping_database, open_database, new_migrator, recorded, read_recorded, pending, lock_migrations,
  unlock, up, down_pending, down, status, refuse_pending, require_current_schema, sort_strings,
  unapplied,
}

module _ (w : World) (held : List Resource) where
  pub open_database-Holds : Holds held (pool ∷ held) held (open_database w)
  unfolding open_database ping_database opened settle
  open_database-Holds =
      Holds-bind held held (pool ∷ held) held _ _ (Holds-call w new_connection held held refl) λ _.
        Holds-bind held (pool ∷ held) (pool ∷ held) held _ _
          (Holds-call w open_pool held (pool ∷ held) refl)
          λ _.
            Holds-on_failure (pool ∷ held) (pool ∷ held) (pool ∷ held) held _ _
              (Holds-call w ping (pool ∷ held) (pool ∷ held) refl) refl

  new_migrator-Holds : Holds held held held (new_migrator w)
  unfolding new_migrator opened
  new_migrator-Holds =
      Holds-bind held held held held _ _ (Holds-call w sub_files held held refl)
        λ _. Holds-call w migration_box held held refl

  read_recorded-Holds : Holds held held held (read_recorded w)
  unfolding read_recorded opened
  read_recorded-Holds =
      Holds-if w.exists held held held (call w read_versions) (return tt)
        (Holds-call w read_versions held held refl) (Holds-return held held tt)

  pending-Holds : Holds held held held (pending w)
  unfolding pending opened
  pending-Holds = Holds-bind held held held held _ _ new_migrator-Holds λ _.
      Holds-bind held held held held _ _ (Holds-call w table_exists held held refl) λ _.
        Holds-bind held held held held _ _ read_recorded-Holds
          λ _. Holds-return held held (sort_strings (unapplied (recorded w) w.migrations))

  abbrev locked : List Resource
  locked = advisory_lock ∷ session ∷ lock_connection ∷ held

  lock_migrations-Holds : Holds held locked held (lock_migrations w)
  unfolding lock_migrations opened settle
  lock_migrations-Holds =
      Holds-bind held (lock_connection ∷ held) locked held _ _
        (Holds-call w open_lock held (lock_connection ∷ held) refl)
        λ _.
          Holds-on_failure (lock_connection ∷ held) locked (lock_connection ∷ held) held _ _
            (Holds-bind (lock_connection ∷ held) (session ∷ lock_connection ∷ held) locked
              (lock_connection ∷ held) _ _
              (Holds-call w pin_session (lock_connection ∷ held) (session ∷ lock_connection ∷ held)
                refl)
              λ _.
                Holds-on_failure (session ∷ lock_connection ∷ held) locked
                  (session ∷ lock_connection ∷ held) (lock_connection ∷ held) _ _
                  (Holds-call w acquire_lock (session ∷ lock_connection ∷ held) locked refl) refl)
            refl

  refuse_pending-Holds : (ps : List Bytes) → Holds held held held (refuse_pending ps)
  unfolding refuse_pending
  refuse_pending-Holds [] = Holds-return held held tt
  refuse_pending-Holds (p ∷ ps) = Holds-refuse (Unit {0}) held held (behind (p ∷ ps))

  pub require_current_schema-Holds : Holds held held held (require_current_schema w)
  unfolding require_current_schema
  require_current_schema-Holds =
      Holds-bind held held held held _ _ pending-Holds refuse_pending-Holds

  pub status-Holds : Holds held held held (status w)
  unfolding status opened
  status-Holds =
      Holds-bind held held held held _ _ new_migrator-Holds
        λ _. Holds-call w print_status held held refl

module _ (w : World) (held : List Resource) where
  -- What runs behind `lockMigrations` is in order under the lock, and the lock is given back.
  under_lock :
      (m : Run (Unit {0}))
      → Holds (locked w held) (locked w held) (locked w held) m
      → Holds held held held (lock_migrations w >>= λ _. deferring unlock m)
  unfolding settle
  under_lock m h =
      Holds-bind held (locked w held) held held _ _ (lock_migrations-Holds w held) λ _.
        Holds-deferring (locked w held) (locked w held) (locked w held) held held _ m h refl refl

  pub up-Holds : Holds held held held (up w)
  unfolding up opened
  up-Holds = under_lock _ (
      Holds-bind (locked w held) (locked w held) (locked w held) (locked w held) _ _
        (new_migrator-Holds w (locked w held))
        λ _. Holds-call w apply (locked w held) (locked w held) refl)

  down_pending-Holds :
      (steps : ℤ) (ps : List Bytes) → Holds held held held (down_pending w steps ps)
  unfolding down_pending opened
  down_pending-Holds steps (p ∷ ps) = Holds-refuse (Unit {0}) held held (behind (p ∷ ps))
  down_pending-Holds steps [] = under_lock _ (
      Holds-bind (locked w held) (locked w held) (locked w held) (locked w held) _ _
        (new_migrator-Holds w (locked w held))
        λ _. Holds-call w (roll_back steps) (locked w held) (locked w held) refl)

  pub down-Holds : (steps : ℤ) → Holds held held held (down w steps)
  unfolding down
  down-Holds steps =
      Holds-bind held held held held _ _ (pending-Holds w held) (down_pending-Holds steps)
