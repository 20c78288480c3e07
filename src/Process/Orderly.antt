-- ===== src/Process/Orderly.antt =====
-- What is held while a command runs: it is released in the reverse order, and migrations run under the
-- advisory lock only.
use go_personal_web.Prelude.{
  ◌≡◌, refl, ◌∙◌, sym, Bool, true, false, List, [], ◌∷◌, ◌++◌, Option, none, some, Bool-cases,
  Option-cases, inl, inr, subst, ◌⊎◌, arith, if◌then◌else◌,
}
use go_personal_web.Process.{
  Call, open_pool, open_lock, pin_session, acquire_lock, apply, roll_back, listen, Resource, pool,
  lock_connection, session, advisory_lock, Event, did, failed, released, Failure, done, stopped,
  outside, World, Run, ◌>>=◌, return, refuse, call, deferring, on_failure,
}

-- What is held behind a call, the latest first; `none` where the call is out of order: migrations
-- want the advisory lock, and requests want the pool.
unfoldable pub opened : List Resource → Call → Option (List Resource)
opened held open_pool = some (pool ∷ held)
opened held open_lock = some (lock_connection ∷ held)
opened held pin_session = some (session ∷ held)
opened held acquire_lock = some (advisory_lock ∷ held)
opened (advisory_lock ∷ held) apply = some (advisory_lock ∷ held)
opened (r ∷ held) apply = none
opened [] apply = none
opened (advisory_lock ∷ held) (roll_back n) = some (advisory_lock ∷ held)
opened (r ∷ held) (roll_back n) = none
opened [] (roll_back n) = none
opened (pool ∷ held) listen = some (pool ∷ held)
opened (r ∷ held) listen = none
opened [] listen = none
opened held c = some held

-- Only what was opened last can be released.
unfoldable pub closed_last : List Resource → Resource → Option (List Resource)
closed_last (pool ∷ held) pool = some held
closed_last (lock_connection ∷ held) lock_connection = some held
closed_last (session ∷ held) session = some held
closed_last (advisory_lock ∷ held) advisory_lock = some held
closed_last held r = none

unfoldable pub held_behind : List Resource → Event → Option (List Resource)
unfolding opened closed_last
held_behind held (did c) = opened held c
held_behind held (failed c) = some held
held_behind held (released r) = closed_last held r

-- What is held behind a run of events, `none` where one is out of order.
unfoldable pub settle : List Resource → List Event → Option (List Resource)
unfolding held_behind
settle held [] = some held
settle held (e ∷ es) = elim (held_behind held e) [ none ↦ none | some rest ↦ settle rest es ]

settle-append :
    (held : List Resource) (es fs : List Event) (rest : List Resource)
    → settle held es ≡ some rest
    → settle held (es ++ fs) ≡ settle rest fs
unfolding settle
settle-append held [] fs rest h = ground arith
settle-append held (e ∷ es) fs rest h = elim (Option-cases (held_behind held e)) [
  | inl bad ↦ absurd (let h' = rw (settle, bad) at h in cc)
  | inr (next, good) ↦ rw (good, settle) (settle-append next es fs rest (rw (settle, good) at h))
]

module _ {A : Type 0} where
  -- From holding `held`, a run is in order, and it holds `after` where it is done and `back` where it
  -- stops.
  abbrev pub Holds : List Resource → List Resource → List Resource → Run A → Type 0
  Holds held after back (es, done a) = settle held es ≡ some after
  Holds held after back (es, stopped e) = settle held es ≡ some back

  pub Holds-if :
      (b : Bool) (held after back : List Resource) (m n : Run A)
      → Holds held after back m
      → Holds held after back n
      → Holds held after back (if b then m else n)
  Holds-if true held after back m n h k = h
  Holds-if false held after back m n h k = k

  pub Holds-return : (held back : List Resource) (a : A) → Holds held held back (return a)
  unfolding settle
  Holds-return held back a = refl

  pub Holds-deferring :
      (held after back after' back' : List Resource) (es : List Event) (m : Run A)
      → Holds held after back m
      → settle after es ≡ some after'
      → settle back es ≡ some back'
      → Holds held after' back' (deferring es m)
  unfolding deferring
  Holds-deferring held after back after' back' es (fs, done a) h p q =
      settle-append held fs es after h ∙ p
  Holds-deferring held after back after' back' es (fs, stopped e) h p q =
      settle-append held fs es back h ∙ q

  pub Holds-on_failure :
      (held after back back' : List Resource) (es : List Event) (m : Run A)
      → Holds held after back m
      → settle back es ≡ some back'
      → Holds held after back' (on_failure es m)
  unfolding on_failure
  Holds-on_failure held after back back' es (fs, done a) h q = h
  Holds-on_failure held after back back' es (fs, stopped e) h q =
      settle-append held fs es back h ∙ q

pub Holds-refuse :
    (A : Type 0) (held after : List Resource) (e : Failure)
    → Holds held after held (refuse {A = A} e)
unfolding settle
Holds-refuse A held after e = refl

pub Holds-bind :
    {A B : Type 0} (held mid after back : List Resource) (m : Run A) (f : A → Run B)
    → Holds held mid back m
    → ((a : A) → Holds mid after back (f a))
    → Holds held after back (m >>= f)
Holds-bind {B = B} held mid after back (es, done a) f h k = go (f a) (k a)
  where
    go : (n : Run B) → Holds mid after back n → Holds held after back (es ++ n.0, n.1)
    go (fs, done b) n = settle-append held es fs mid h ∙ n
    go (fs, stopped e) n = settle-append held es fs mid h ∙ n
Holds-bind held mid after back (es, stopped e) f h k = h

pub call_ends :
    (w : World) (c : Call)
    → (call w c ≡ (failed c ∷ [], stopped (outside c))) ⊎ (call w c ≡ (did c ∷ [], done tt))
unfolding call
call_ends w c = elim (Bool-cases (w.fails c)) [
  | inl bad ↦ inl (rw (bad, call) refl)
  | inr good ↦ inr (rw (good, call) refl)
]

settle_one :
    (held : List Resource) (e : Event) (rest : List Resource)
    → held_behind held e ≡ some rest
    → settle held (e ∷ []) ≡ some rest
unfolding settle
settle_one held e rest h = rw (h, settle) refl

pub Holds-call :
    (w : World) (c : Call) (held after : List Resource)
    → opened held c ≡ some after
    → Holds held after held (call w c)
unfolding held_behind
Holds-call w c held after h = elim (call_ends w c) [
  | inl bad ↦ subst (Holds held after held) (sym bad) (settle_one held (failed c) held refl)
  | inr good ↦ subst (Holds held after held) (sym good) (settle_one held (did c) after h)
]
