-- ===== src/Admin/Writing/Handlers.antt =====
-- internal/admin/writing.go: saving and autosaving.
use go_personal_web.Prelude.{
  ℕ, Bool, true, false, Option, none, some, [], ◌∷◌, Bytes, ◌=ᵇ◌, codes, if◌then◌else◌,
}
use go_personal_web.GoStd.Time.{Time}
use go_personal_web.Http.{Request, Pairs, form_value}
use go_personal_web.View.{Form, saved, not_saved_marker, published_marker}
use go_personal_web.Content.{is_arrived}
use go_personal_web.Content.Errors.{Result, ok, err}
use go_personal_web.Admin.Render.{Reply, fail, bad_request}
use go_personal_web.Admin.Writing.Resources.{Record, Resource}
use go_personal_web.Admin.Writing.{
  Editor, field_errors, first_of, form_of, Submission, submitted, invalid, render_marker, Loaded,
  load, answer, found, answered,
}

-- "Publish now" fills in the date.
unfoldable pub publish_now : Editor → Request → Time → Submission → Submission
publish_now h r now sub =
    if form_value r (codes "action") =ᵇ codes "publish_now"
    then record sub {
      form = record sub.form { published_at = h.zone.format_editor now };
      rec = record sub.rec { published_at = some now };
    }
    else sub

-- `between` is what other requests do inside the update.
unfoldable pub write :
    {S : Type 0} → Resource S → Bool → (between : S → S) → S → Record → S × Result Record
write res true between st rec = res.create st rec
write res false between st rec = res.update between st rec true

-- `r.ParseForm()`, and what follows where it succeeds.
abbrev pub parsed : {S : Type 0} → Option Pairs → S → S × Reply → S × Reply
parsed none st next = (st, bad_request)
parsed (some form) st next = next

-- `save` behind `submitted`, by the message of its error.
unfoldable pub save_submitted :
    {S : Type 0}
    → Editor
    → Resource S
    → Bool
    → (between : S → S) → Time
    → Request
    → S
    → Submission
    → Option Bytes
    → S × Reply
unfolding invalid publish_now write answer
save_submitted h res new between now r st sub (some message) =
    (st, invalid r res sub.form ((codes "published_at", message) ∷ []))
save_submitted h res new between now r st sub none =
    let final = publish_now h r now sub in
    let (st', stored) = write res new between st final.rec in
    (st', answer h res r final.form stored)

-- `others 0` is what other requests do inside the update.
unfoldable pub save :
    {S : Type 0}
    → Editor
    → Resource S
    → Bool
    → (others : ℕ → S → S) → (ℕ → Time)
    → Request
    → S
    → S × Reply
unfolding submitted save_submitted
save h res new others clock r st =
    let sub = submitted h r res new (clock 0) in
    parsed r.form st (save_submitted h res new (others 0) (clock 1) r st sub sub.error)

-- `stored.PublishedAt != nil && !stored.PublishedAt.After(now)`
unfoldable pub is_live : Option Time → Time → Bool
is_live date now = is_arrived date now

-- The stored record with the typed texts.
unfoldable pub overlaid : {S : Type 0} → Editor → Resource S → Request → Time → Record → Record
unfolding submitted
overlaid h res r now stored =
    let typed = (submitted h r res false now).form in
    record stored { slug = typed.slug; title = typed.title; body = typed.body }

-- The marker that answers an autosave.
unfoldable pub autosave_answer : Editor → Request → Form → Time → Result Record → Reply
unfolding field_errors first_of render_marker
autosave_answer h r f now (ok updated) = render_marker r (saved f (h.zone.format_clock now))
autosave_answer h r f now (err e) = elim (field_errors e) [
  | some fields ↦ render_marker r (not_saved_marker f (first_of fields))
  | none ↦ fail
]

-- `autosave` behind `load`. `others` is what other requests do to the store: `others 0` between the
-- load and the update, `others 1` inside the update.
unfoldable pub autosave_loaded :
    {S : Type 0}
    → Editor
    → Resource S
    → (others : ℕ → S → S) → (ℕ → Time)
    → Request
    → S
    → Loaded
    → S × Reply
unfolding form_of is_live overlaid autosave_answer render_marker
autosave_loaded h res others clock r st (answered reply) = (st, reply)
autosave_loaded h res others clock r st (found stored) =
    let (st', result) =
      res.update (others 1) (others 0 st) (overlaid h res r (clock 2) stored) false in
    let f = form_of h res stored (clock 0) in
    if is_live stored.published_at (clock 1)
    then (st, render_marker r published_marker)
    else (st', autosave_answer h r f (clock 3) result)

unfoldable pub autosave :
    {S : Type 0} → Editor → Resource S → (others : ℕ → S → S) → (ℕ → Time) → Request → S → S × Reply
unfolding load autosave_loaded
autosave h res others clock r st =
    parsed r.form st (autosave_loaded h res others clock r st (load h res r st))
