-- ===== src/Process/Success.antt =====
-- Runs in a world where no call fails, and the work that they do.
use go_personal_web.Prelude.{
  ◌≡◌, refl, ◌∙◌, sym, ap, Bool, true, false, List, [], ◌∷◌, ◌++◌, if◌then◌else◌, append-nil,
  append_assoc,
}
use mathlib.Core.Path.{ap₂}
use go_personal_web.Process.{
  Call, apply, print_status, roll_back, listen, marshal, print, Event, did, failed, released, done,
  stopped, World, Run, ◌>>=◌, return, call, deferring, on_failure,
}

-- The calls that a command exists for: what it changes, serves or prints.
unfoldable pub task : Call → List Call
task apply = apply ∷ []
task (roll_back n) = roll_back n ∷ []
task listen = listen ∷ []
task marshal = marshal ∷ []
task print = print ∷ []
task print_status = print_status ∷ []
task c = []

unfoldable pub tasks : List Event → List Call
unfolding task
tasks [] = []
tasks (did c ∷ es) = task c ++ tasks es
tasks (failed c ∷ es) = tasks es
tasks (released r ∷ es) = tasks es

tasks-append : (es fs : List Event) → tasks (es ++ fs) ≡ tasks es ++ tasks fs
unfolding tasks
tasks-append [] fs = refl
tasks-append (did c ∷ es) fs =
    ap (λ x. task c ++ x) (tasks-append es fs) ∙ sym (append_assoc (task c) (tasks es) (tasks fs))
tasks-append (failed c ∷ es) fs = tasks-append es fs
tasks-append (released r ∷ es) fs = tasks-append es fs

-- A run is done with `a`, and `made` is the tasks that it does.
pub record Succeeds {A : Type 0} (made : List Call) (a : A) (m : Run A) : Type 0 where
  pub ends : m.1 ≡ done a
  pub does : tasks m.0 ≡ made

pub Succeeds-return : {A : Type 0} (a : A) → Succeeds [] a (return a)
unfolding tasks
Succeeds-return a = record { ends = refl; does = refl }

pub Succeeds-call : (w : World) (c : Call) → w.fails c ≡ false → Succeeds (task c) tt (call w c)
unfolding call tasks
Succeeds-call w c works = record {
  ends = rw (call, works) refl;
  does = rw (call, works) (append-nil (task c));
}

pub Succeeds-quiet :
    (w : World) (c : Call) → w.fails c ≡ false → task c ≡ [] → Succeeds [] tt (call w c)
Succeeds-quiet w c works e =
    let h = Succeeds-call w c works in record { ends = h.ends; does = h.does ∙ e }

pub Succeeds-bind :
    {A B : Type 0} (ms ns : List Call) (a : A) (b : B) (m : Run A) (f : A → Run B)
    → Succeeds ms a m
    → Succeeds ns b (f a)
    → Succeeds (ms ++ ns) b (m >>= f)
Succeeds-bind ms ns a b (es, done a') f h k =
    let same : a ≡ a' = let e = h.ends in cc in
    record {
      ends = rw (sym same) (k.ends);
      does = tasks-append es (f a').0 ∙ ap₂ ◌++◌ (h.does) (rw (sym same) (k.does));
    }
Succeeds-bind ms ns a b (es, stopped e) f h k = absurd (let bad = h.ends in cc)

-- Where the first part does no task.
pub Succeeds-next :
    {A B : Type 0} (ns : List Call) (a : A) (b : B) (m : Run A) (f : A → Run B)
    → Succeeds [] a m
    → Succeeds ns b (f a)
    → Succeeds ns b (m >>= f)
Succeeds-next ns a b m f h k = Succeeds-bind [] ns a b m f h k

module _ {A : Type 0} (made : List Call) (a : A) where
  pub Succeeds-on_failure :
      (es : List Event) (m : Run A) → Succeeds made a m → Succeeds made a (on_failure es m)
  unfolding on_failure
  Succeeds-on_failure es (fs, done b) h = record { ends = h.ends; does = h.does }
  Succeeds-on_failure es (fs, stopped e) h = absurd (let bad = h.ends in cc)

  pub Succeeds-deferring :
      (es : List Event) (m : Run A)
      → tasks es ≡ []
      → Succeeds made a m
      → Succeeds made a (deferring es m)
  unfolding deferring
  Succeeds-deferring es (fs, r) e h = record {
    ends = h.ends;
    does = tasks-append fs es ∙ ap₂ ◌++◌ (h.does) e ∙ append-nil made;
  }

  pub Succeeds-if :
      (b : Bool) (m n : Run A)
      → Succeeds made a m
      → Succeeds made a n
      → Succeeds made a (if b then m else n)
  Succeeds-if true m n h k = h
  Succeeds-if false m n h k = k
