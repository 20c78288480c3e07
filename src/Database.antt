-- ===== src/Database.antt =====
-- internal/database: opening the database, and its migrations. What pop, database/sql and PostgreSQL answer
-- is the `World`.
pub mod Schema
pub mod Locking
pub mod Success
use go_personal_web.Prelude.{
  ℕ, Bool, true, false, not, ◌&&◌, ◌||◌, List, [], ◌∷◌, ◌++◌, Bytes, ◌=ᵇ◌, codes, ltb, ◌==◌,
  if◌then◌else◌, ℤ,
}
use go_personal_web.Process.{
  Migration, new_connection, open_pool, ping, sub_files, migration_box, table_exists, read_versions,
  open_lock, pin_session, acquire_lock, apply, print_status, roll_back, pool, lock_connection,
  session, advisory_lock, Event, released, behind, World, Run, ◌>>=◌, ◌>>◌, return, refuse, call,
  deferring, on_failure,
}

-- Go's order of strings.
unfoldable pub at_most : Bytes → Bytes → Bool
at_most [] t = true
at_most (c ∷ s) [] = false
at_most (c ∷ s) (d ∷ t) = ltb c d || (c == d && at_most s t)

unfoldable pub insert : Bytes → List Bytes → List Bytes
unfolding at_most
insert s [] = s ∷ []
insert s (t ∷ ts) = let rest = insert s ts in if at_most s t then s ∷ t ∷ ts else t ∷ rest

-- `sort.Strings`: equal strings are the same text, so any sort gives this list.
unfoldable pub sort_strings : List Bytes → List Bytes
unfolding insert
sort_strings [] = []
sort_strings (s ∷ ts) = insert s (sort_strings ts)

-- `applied[v]`
unfoldable pub is_applied : List Bytes → Bytes → Bool
is_applied [] v = false
is_applied (w ∷ versions) v = (w =ᵇ v) || is_applied versions v

-- The loop over the migrations.
unfoldable pub unapplied : List Bytes → List Migration → List Bytes
unfolding is_applied
unapplied versions [] = []
unapplied versions (m ∷ ms) =
    let rest = unapplied versions ms in
    if is_applied versions m.version then rest else (m.version ++ (codes "_" ++ m.name)) ∷ rest

-- `Ping`
unfoldable pub ping_database : World → Run (Unit {0})
ping_database w = call w ping

-- `Open`: the pool is closed again where the database does not answer.
unfoldable pub open_database : World → Run (Unit {0})
unfolding ping_database
open_database w = do
  call w new_connection
  call w open_pool
  on_failure (released pool ∷ []) (ping_database w)

-- `NewMigrator`
unfoldable pub new_migrator : World → Run (Unit {0})
new_migrator w = do call w sub_files; call w migration_box

-- The versions that the database holds: none where its table is missing.
unfoldable pub recorded : World → List Bytes
recorded w = if w.exists then w.versions else []

-- The query for the versions, where there is a table.
unfoldable pub read_recorded : World → Run (Unit {0})
read_recorded w = if w.exists then call w read_versions else return tt

-- `Pending`
unfoldable pub pending : World → Run (List Bytes)
unfolding new_migrator recorded read_recorded unapplied sort_strings
pending w = do
  new_migrator w
  call w table_exists
  read_recorded w
  return (sort_strings (unapplied (recorded w) w.migrations))

-- `lockMigrations`: what is open is closed again where a later step fails.
unfoldable pub lock_migrations : World → Run (Unit {0})
lock_migrations w = do
  call w open_lock
  on_failure (released lock_connection ∷ [])
      (do call w pin_session; on_failure (released session ∷ []) (call w acquire_lock))

-- The function that `lockMigrations` returns.
abbrev pub unlock : List Event
unlock = released advisory_lock ∷ released session ∷ released lock_connection ∷ []

-- `Up`
unfoldable pub up : World → Run (Unit {0})
unfolding lock_migrations new_migrator
up w = do lock_migrations w; deferring unlock (do new_migrator w; call w apply)

-- `Down` behind `Pending`.
unfoldable pub down_pending : World → ℤ → List Bytes → Run (Unit {0})
unfolding lock_migrations new_migrator
down_pending w steps (p ∷ ps) = refuse (behind (p ∷ ps))
down_pending w steps [] = do
  lock_migrations w
  deferring unlock (do new_migrator w; call w (roll_back steps))

unfoldable pub down : World → ℤ → Run (Unit {0})
unfolding pending down_pending
down w steps = pending w >>= down_pending w steps

-- `Status`
unfoldable pub status : World → Run (Unit {0})
unfolding new_migrator
status w = do new_migrator w; call w print_status

-- `requireCurrentSchema` of internal/cli/serve.go.
unfoldable pub refuse_pending : List Bytes → Run (Unit {0})
refuse_pending [] = return tt
refuse_pending (p ∷ ps) = refuse (behind (p ∷ ps))

unfoldable pub require_current_schema : World → Run (Unit {0})
unfolding pending refuse_pending
require_current_schema w = pending w >>= refuse_pending
