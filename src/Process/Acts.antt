-- ===== src/Process/Acts.antt =====
-- What a command does for good: it applies migrations, rolls them back, or takes requests.
use go_personal_web.Prelude.{
  ◌≡◌, refl, ◌∙◌, sym, ap, ◌⊎◌, inl, inr, Bool, true, false, List, [], ◌∷◌, ◌++◌, if◌then◌else◌,
  append_assoc,
}
use mathlib.Core.Path.{ap₂}
use go_personal_web.Process.{
  Call, apply, roll_back, listen, Event, did, failed, released, Failure, done, stopped, World, Run,
  ◌>>=◌, return, refuse, call, deferring, on_failure,
}
use go_personal_web.Process.Orderly.{call_ends}

unfoldable pub act : Call → List Call
act apply = apply ∷ []
act (roll_back n) = roll_back n ∷ []
act listen = listen ∷ []
act c = []

unfoldable pub acts : List Event → List Call
unfolding act
acts [] = []
acts (did c ∷ es) = act c ++ acts es
acts (failed c ∷ es) = acts es
acts (released r ∷ es) = acts es

pub acts-append : (es fs : List Event) → acts (es ++ fs) ≡ acts es ++ acts fs
unfolding acts
acts-append [] fs = refl
acts-append (did c ∷ es) fs =
    ap (λ x. act c ++ x) (acts-append es fs) ∙ sym (append_assoc (act c) (acts es) (acts fs))
acts-append (failed c ∷ es) fs = acts-append es fs
acts-append (released r ∷ es) fs = acts-append es fs

pub record IsQuiet {A : Type 0} (m : Run A) : Type 0 where
  pub quiet : acts m.0 ≡ []

-- A run does nothing for good, or it does just the call `c`, and then `P` holds.
pub record Does {A : Type 0} (c : Call) (P : Type 0) (m : Run A) : Type 0 where
  pub either : (acts m.0 ≡ []) ⊎ ((acts m.0 ≡ c ∷ []) × P)

module _ {A : Type 0} where
  pub IsQuiet-if : (b : Bool) (m n : Run A) → IsQuiet m → IsQuiet n → IsQuiet (if b then m else n)
  IsQuiet-if true m n h k = h
  IsQuiet-if false m n h k = k

  pub IsQuiet-on_failure :
      (es : List Event) (m : Run A) → acts es ≡ [] → IsQuiet m → IsQuiet (on_failure es m)
  unfolding on_failure
  IsQuiet-on_failure es (fs, done a) e h = record { quiet = h.quiet }
  IsQuiet-on_failure es (fs, stopped f) e h = record {
    quiet = acts-append fs es ∙ ap₂ ◌++◌ (h.quiet) e;
  }

  pub IsQuiet-deferring :
      (es : List Event) (m : Run A) → acts es ≡ [] → IsQuiet m → IsQuiet (deferring es m)
  unfolding deferring
  IsQuiet-deferring es (fs, r) e h = record { quiet = acts-append fs es ∙ ap₂ ◌++◌ (h.quiet) e }

  pub Does-deferring :
      (c : Call) (P : Type 0) (es : List Event) (m : Run A)
      → acts es ≡ []
      → Does c P m
      → Does c P (deferring es m)
  unfolding deferring
  Does-deferring c P es (fs, r) e h = elim (h.either) [
    | inl none ↦ record { either = inl (acts-append fs es ∙ ap₂ ◌++◌ none e) }
    | inr (one, p) ↦ record { either = inr (acts-append fs es ∙ ap₂ ◌++◌ one e, p) }
  ]

  pub Does-none : (c : Call) (P : Type 0) (m : Run A) → IsQuiet m → Does c P m
  Does-none c P m h = record { either = inl (h.quiet) }

  pub Does-map : (c : Call) (P Q : Type 0) (m : Run A) → (P → Q) → Does c P m → Does c Q m
  Does-map c P Q m f h = elim (h.either) [
    | inl none ↦ record { either = inl none }
    | inr (one, p) ↦ record { either = inr (one, f p) }
  ]

pub IsQuiet-bind :
    {A B : Type 0} (m : Run A) (f : A → Run B)
    → IsQuiet m
    → ((a : A) → IsQuiet (f a))
    → IsQuiet (m >>= f)
IsQuiet-bind (es, done a) f h k = record {
  quiet = acts-append es (f a).0 ∙ ap₂ ◌++◌ (h.quiet) ((k a).quiet);
}
IsQuiet-bind (es, stopped e) f h k = record { quiet = h.quiet }

pub Does-bind :
    {A B : Type 0} (c : Call) (P : Type 0) (m : Run A) (f : A → Run B)
    → IsQuiet m
    → ((a : A) → m.1 ≡ done a → Does c P (f a))
    → Does c P (m >>= f)
Does-bind c P (es, done a) f h k = elim ((k a refl).either) [
  | inl none ↦ record { either = inl (acts-append es (f a).0 ∙ ap₂ ◌++◌ (h.quiet) none) }
  | inr (one, p) ↦ record { either = inr (acts-append es (f a).0 ∙ ap₂ ◌++◌ (h.quiet) one, p) }
]
Does-bind c P (es, stopped e) f h k = record { either = inl (h.quiet) }

-- What follows the act does nothing more for good.
pub Does-then :
    {A B : Type 0} (c : Call) (P : Type 0) (m : Run A) (f : A → Run B)
    → Does c P m
    → ((a : A) → IsQuiet (f a))
    → Does c P (m >>= f)
Does-then c P (es, done a) f h k = elim (h.either) [
  | inl none ↦ record { either = inl (acts-append es (f a).0 ∙ ap₂ ◌++◌ none ((k a).quiet)) }
  | inr (one, p) ↦ record { either = inr (acts-append es (f a).0 ∙ ap₂ ◌++◌ one ((k a).quiet), p) }
]
Does-then c P (es, stopped e) f h k = record { either = h.either }

pub IsQuiet-call : (w : World) (c : Call) → act c ≡ [] → IsQuiet (call w c)
unfolding acts
IsQuiet-call w c h = elim (call_ends w c) [
  | inl bad ↦ record { quiet = rw (bad) refl }
  | inr good ↦ record { quiet = rw (good, h) refl }
]

pub Does-call : (w : World) (c : Call) → act c ≡ c ∷ [] → Does c (Unit {0}) (call w c)
unfolding acts
Does-call w c h = elim (call_ends w c) [
  | inl bad ↦ record { either = inl (rw (bad) refl) }
  | inr good ↦ record { either = inr (rw (good, h) refl, tt) }
]

pub IsQuiet-return : {A : Type 0} (a : A) → IsQuiet (return a)
unfolding acts
IsQuiet-return a = record { quiet = refl }

pub IsQuiet-refuse : (A : Type 0) (e : Failure) → IsQuiet (refuse {A = A} e)
unfolding acts
IsQuiet-refuse A e = record { quiet = refl }

-- Inversion of a run of two parts that is done.
pub >>=-done :
    {A B : Type 0} (m : Run A) (f : A → Run B) (b : B)
    → (m >>= f).1 ≡ done b
    → (a : A) × (m.1 ≡ done a) × ((f a).1 ≡ done b)
>>=-done (es, done a) f b h = (a, refl, h)
>>=-done (es, stopped e) f b h = absurd (cc)

pub >>=-ends :
    {A B : Type 0} (m : Run A) (f : A → Run B) (a : A) → m.1 ≡ done a → (m >>= f).1 ≡ (f a).1
>>=-ends (es, done b) f a h = let same : b ≡ a = cc in rw (same) refl
>>=-ends (es, stopped e) f a h = absurd (cc)
