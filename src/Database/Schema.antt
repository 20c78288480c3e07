-- ===== src/Database/Schema.antt =====
-- internal/database/migrate.go: rolling back and serving need every migration applied.
use go_personal_web.Prelude.{
  ◌≡◌, ◌≢◌, ◌↔◌, refl, sym, ◌∙◌, true, List, [], ◌∷◌, Bytes, All, arith, ℤ,
}
use go_personal_web.Process.{
  Migration, sub_files, migration_box, table_exists, read_versions, open_lock, pin_session,
  acquire_lock, behind, apply, roll_back, done, World, call,
}
use go_personal_web.Process.Acts.{
  act, acts, IsQuiet, Does, IsQuiet-if, IsQuiet-on_failure, IsQuiet-bind, IsQuiet-call, Does-bind,
  Does-call, Does-deferring, Does-map, Does-none, IsQuiet-return, IsQuiet-refuse, >>=-done,
  >>=-ends,
}
use go_personal_web.Database.{
  insert, sort_strings, is_applied, unapplied, new_migrator, recorded, read_recorded, pending,
  lock_migrations, up, down_pending, down, refuse_pending, require_current_schema,
}

insert-ne-nil : (s : Bytes) (ts : List Bytes) → insert s ts ≢ []
unfolding insert
insert-ne-nil s [] = λ e. cc
insert-ne-nil s (t ∷ ts) = ground arith

sort_strings-eq-nil : (ts : List Bytes) → (sort_strings ts ≡ []) ↔ (ts ≡ [])
unfolding sort_strings
sort_strings-eq-nil [] = (λ h. refl, λ h. refl)
sort_strings-eq-nil (s ∷ ts) = (λ h. absurd (insert-ne-nil s (sort_strings ts) h), λ h. absurd cc)

-- Every migration's version is among those recorded.
abbrev pub IsCurrent : List Bytes → List Migration → Type 0
IsCurrent versions = All (λ m. is_applied versions m.version ≡ true)

unapplied-eq-nil :
    (versions : List Bytes) (ms : List Migration)
    → (unapplied versions ms ≡ []) ↔ IsCurrent versions ms
unfolding unapplied
unapplied-eq-nil versions [] = (λ h. tt, λ h. refl)
unapplied-eq-nil versions (m ∷ ms) = ground (arith, unapplied-eq-nil versions ms)

pub pending-nil :
    (versions : List Bytes) (ms : List Migration)
    → (sort_strings (unapplied versions ms) ≡ []) ↔ IsCurrent versions ms
pending-nil versions ms =
    ground (arith, sort_strings-eq-nil (unapplied versions ms), unapplied-eq-nil versions ms)

done-inj : {A : Type 0} (a b : A) → done a ≡ done b → a ≡ b
done-inj a b h = cc

module _ (w : World) where
  abbrev pub IsUpToDate : Type 0
  IsUpToDate = IsCurrent (recorded w) w.migrations

  pub new_migrator-IsQuiet : IsQuiet (new_migrator w)
  unfolding new_migrator act
  new_migrator-IsQuiet =
      IsQuiet-bind _ _ (IsQuiet-call w sub_files refl) λ _. IsQuiet-call w migration_box refl

  read_recorded-IsQuiet : IsQuiet (read_recorded w)
  unfolding read_recorded act acts
  read_recorded-IsQuiet =
      IsQuiet-if w.exists _ _ (IsQuiet-call w read_versions refl) (IsQuiet-return tt)

  pending-IsQuiet : IsQuiet (pending w)
  unfolding pending act acts
  pending-IsQuiet = IsQuiet-bind _ _ new_migrator-IsQuiet λ _.
      IsQuiet-bind _ _ (IsQuiet-call w table_exists refl)
        λ _. IsQuiet-bind _ _ read_recorded-IsQuiet λ _. IsQuiet-return _

  pending_value :
      (ps : List Bytes)
      → (pending w).1 ≡ done ps
      → ps ≡ sort_strings (unapplied (recorded w) w.migrations)
  unfolding pending
  pending_value ps h =
      let (_, _, h1) = >>=-done (new_migrator w) _ ps h in
      let (_, _, h2) = >>=-done (call w table_exists) _ ps h1 in
      let (_, _, h3) = >>=-done (read_recorded w) _ ps h2 in sym (done-inj _ ps h3)

  lock_migrations-IsQuiet : IsQuiet (lock_migrations w)
  unfolding lock_migrations act acts
  lock_migrations-IsQuiet = IsQuiet-bind _ _ (IsQuiet-call w open_lock refl) λ _.
      IsQuiet-on_failure _ _ refl (
        IsQuiet-bind _ _ (IsQuiet-call w pin_session refl)
          λ _. IsQuiet-on_failure _ _ refl (IsQuiet-call w acquire_lock refl))

  pub up_acts : Does apply (Unit {0}) (up w)
  unfolding up act acts
  up_acts = Does-bind apply (Unit {0}) _ _ lock_migrations-IsQuiet λ _ _.
      Does-deferring apply (Unit {0}) _ _ refl
        (Does-bind apply (Unit {0}) _ _ new_migrator-IsQuiet λ _ _. Does-call w apply refl)

  down_pending_acts :
      (steps : ℤ) (ps : List Bytes)
      → ps ≡ sort_strings (unapplied (recorded w) w.migrations)
      → Does (roll_back steps) IsUpToDate (down_pending w steps ps)
  unfolding down_pending act acts
  down_pending_acts steps (p ∷ ps) e =
      Does-none (roll_back steps) IsUpToDate _ (IsQuiet-refuse (Unit {0}) (behind (p ∷ ps)))
  down_pending_acts steps [] e =
      let current = (pending-nil (recorded w) w.migrations).0 (sym e) in
      Does-map (roll_back steps) (Unit {0}) IsUpToDate _ (λ _. current)
        (Does-bind (roll_back steps) (Unit {0}) _ _ lock_migrations-IsQuiet λ _ _.
          Does-deferring (roll_back steps) (Unit {0}) _ _ refl (
            Does-bind (roll_back steps) (Unit {0}) _ _ new_migrator-IsQuiet
              λ _ _. Does-call w (roll_back steps) refl))

  pub down_acts : (steps : ℤ) → Does (roll_back steps) IsUpToDate (down w steps)
  unfolding down
  down_acts steps =
      Does-bind (roll_back steps) IsUpToDate (pending w) _ pending-IsQuiet
        λ ps h. down_pending_acts steps ps (pending_value ps h)

  refuse_pending-IsQuiet : (ps : List Bytes) → IsQuiet (refuse_pending ps)
  unfolding refuse_pending
  refuse_pending-IsQuiet [] = IsQuiet-return tt
  refuse_pending-IsQuiet (p ∷ ps) = IsQuiet-refuse (Unit {0}) (behind (p ∷ ps))

  pub require_current_schema-IsQuiet : IsQuiet (require_current_schema w)
  unfolding require_current_schema
  require_current_schema-IsQuiet = IsQuiet-bind _ _ pending-IsQuiet refuse_pending-IsQuiet

  refused : (ps : List Bytes) → ((refuse_pending ps).1 ≡ done tt) ↔ (ps ≡ [])
  unfolding refuse_pending
  refused [] = (λ h. refl, λ h. refl)
  refused (p ∷ ps) = (λ h. absurd cc, λ h. absurd cc)

  -- Where the pending migrations are read, `serve` is let go on exactly when the version of every
  -- embedded migration is among those that the database records; a database without the table of
  -- migrations records none.
  pub schema_checked :
      (ps : List Bytes)
      → (pending w).1 ≡ done ps
      → ((require_current_schema w).1 ≡ done tt) ↔ IsUpToDate
  unfolding require_current_schema
  schema_checked ps h =
      let ends = >>=-ends (pending w) refuse_pending ps h in
      let value = pending_value ps h in
      let nil = pending-nil (recorded w) w.migrations in
      (
        (λ e. nil.0 (sym value ∙ (refused ps).0 (sym ends ∙ e))),
        λ current. ends ∙ (refused ps).1 (value ∙ nil.1 current),
      )

  pub pending_of_current : (a : Unit {0}) → (require_current_schema w).1 ≡ done a → IsUpToDate
  unfolding require_current_schema
  pending_of_current a h =
      let (ps, read, rest) = >>=-done (pending w) refuse_pending a h in
      (schema_checked ps read).0 (>>=-ends (pending w) refuse_pending ps read ∙ rest)
