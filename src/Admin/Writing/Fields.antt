-- ===== src/Admin/Writing/Fields.antt =====
-- internal/admin/writing.go: a refused save comes back as the form that was typed.
use go_personal_web.Prelude.{
  ℕ, ◌≡◌, ◌≢◌, ◌↔◌, inl, inr, refl, ap, sym, subst, =ᵇ_iff, =ᵇ_refl, ◌++◌, if◌then◌else◌, ◌∙◌, Bool,
  true, false, Option, none, some, [], ◌∷◌, Bytes, codes, ◌=ᵇ◌, Bool-cases, arith,
}
use go_personal_web.GoStd.Time.{Time}
use go_personal_web.Http.{Request, Pairs, form_value, get, find_pair}
use go_personal_web.View
use go_personal_web.View.{Form, editor, editor_form, layout}
use go_personal_web.Content.{UuidNumber}
use go_personal_web.Content.Errors.{
  DbError, no_rows, pg, other, Domain, slug_taken, slug_invalid, title_required, Error, err, is,
  not_found, wrap, refused, broken, domain_error,
}
use go_personal_web.Admin.Render.{
  Reply, component, render, framed, is_htmx, fail, not_found_reply, http_error,
}
use go_personal_web.Admin.Writing.{
  Editor, Submission, with_date, identified, typed_form, typed_record, submitted, invalid,
  field_errors, parse_published_at, answer,
}
use go_personal_web.Admin.Writing.Handlers.{publish_now, write, save, save_submitted, parsed}
use go_personal_web.Admin.Writing.Resources.{Record, Resource}
use go_personal_web.Admin.Writing.Save.{save_accepted}

-- The texts of a form are those of the request.
abbrev pub IsTyped : Request → Form → Type 0
IsTyped r f =
    (f.slug ≡ form_value r (codes "slug"))
    × (f.title ≡ form_value r (codes "title"))
    × (f.body ≡ form_value r (codes "body"))

dated-IsTyped :
    (r : Request) (f : Form) (rec : Record) (now : Time) (date : Option (Option Time))
    → IsTyped r f
    → IsTyped r (with_date f rec now date).form
dated-IsTyped r f rec now none t = t
dated-IsTyped r f rec now (some date) t = t

identified-IsTyped :
    (h : Editor) (r : Request) (kind id : Bytes) (now : Time) (number : Option UuidNumber)
    → IsTyped r (identified h r kind id now number).form
identified-IsTyped h r kind id now none = (refl, refl, refl)
identified-IsTyped h r kind id now (some n) =
    dated-IsTyped r (typed_form h kind r id) (typed_record r n) now
      (parse_published_at h.zone (form_value r (codes "published_at"))) (refl, refl, refl)

submitted-IsTyped :
    {S : Type 0} (h : Editor) (r : Request) (res : Resource S) (new : Bool) (now : Time)
    → IsTyped r (submitted h r res new now).form
unfolding submitted
submitted-IsTyped h r res true now = identified-IsTyped h r res.kind [] now (some 0)
submitted-IsTyped h r res false now =
    identified-IsTyped h r res.kind r.path_id now (h.from_string r.path_id)

publish_now-IsTyped :
    (h : Editor) (r : Request) (now : Time) (sub : Submission)
    → IsTyped r sub.form
    → IsTyped r (publish_now h r now sub).form
unfolding publish_now
publish_now-IsTyped h r now sub t =
    elim (Bool-cases (form_value r (codes "action") =ᵇ codes "publish_now")) [
      | inl e ↦ rw (e) t
      | inr e ↦ rw (e) t
    ]

-- A save whose date does not read, or whose ID does not, answers 422 with the form as typed and the
-- message at the date, and writes nothing.
pub save_misdated :
    {S : Type 0} (h : Editor) (res : Resource S) (new : Bool) (others : ℕ → S → S)
    (clock : ℕ → Time) (r : Request) (st : S) (form : Pairs) (message : Bytes)
    → r.form ≡ some form
    → (submitted h r res new (clock 0)).error ≡ some message
    → (f : Form) × IsTyped r f
      × (save h res new others clock r st
          ≡ (st, invalid r res f ((codes "published_at", message) ∷ [])))
      × ((save h res new others clock r st).1.status ≡ 422)
unfolding save save_submitted
save_misdated h res new others clock r st form message f wrong =
    let sub = submitted h r res new (clock 0) in
    let answered : save h res new others clock r st
        ≡ (st, invalid r res sub.form ((codes "published_at", message) ∷ [])) =
      ap (λ t. parsed t st (save_submitted h res new (others 0) (clock 1) r st sub sub.error)) f
      ∙ ap (save_submitted h res new (others 0) (clock 1) r st sub) wrong in
    (
      sub.form,
      submitted-IsTyped h r res new (clock 0),
      answered,
      ap (λ t. t.1.status) answered ∙ (unfold invalid render in refl),
    )

-- The date as the form shows it again: as typed, or the time of a "Publish now".
abbrev date_shown : Editor → Request → Time → Bytes
date_shown h r now =
    if form_value r (codes "action") =ᵇ codes "publish_now"
    then h.zone.format_editor now
    else form_value r (codes "published_at")

-- A reply with status 422 and the editor's form with the texts and the date of the request: in a page, or by
-- itself for htmx. It has one message, at one field.
pub record Complains {S : Type 0} (h : Editor) (res : Resource S) (r : Request) (now : Time)
    (field message : Bytes) (reply : Reply) : Type 0 where
  pub form : Form
  pub texts : IsTyped r form
  pub date : form.published_at ≡ date_shown h r now
  pub at_field : View.err form field ≡ message
  pub elsewhere : (k : Bytes) → k ≢ field → View.err form k ≡ []
  pub body :
      reply.body
      ≡ some (
          component (
            if is_htmx r
            then editor_form form
            else layout (codes "Edit " ++ res.kind) res.nav (editor form)))
  pub status : reply.status ≡ 422

-- The answer to a write that fails, by its error.
abbrev pub IsTold : {S : Type 0} → Editor → Resource S → Request → Time → Error → Reply → Type 0
IsTold h res r now (refused what slug_taken) =
    Complains h res r now (codes "slug") (codes "Something else already answers to that slug.")
IsTold h res r now (refused what slug_invalid) =
    Complains h res r now (codes "slug") (codes "Lowercase words joined by hyphens, nothing else.")
IsTold h res r now (refused what title_required) =
    Complains h res r now (codes "title") (codes "A title is required.")
IsTold h res r now (refused what not_found) = λ reply. reply.status ≡ 404
IsTold h res r now (broken what cause) = λ reply. reply.status ≡ 500

with_date-date :
    (r : Request) (f : Form) (rec : Record) (now : Time) (date : Option (Option Time))
    → f.published_at ≡ form_value r (codes "published_at")
    → (with_date f rec now date).form.published_at ≡ form_value r (codes "published_at")
with_date-date r f rec now none e = e
with_date-date r f rec now (some date) e = e

identified-date :
    (h : Editor) (r : Request) (kind id : Bytes) (now : Time) (number : Option UuidNumber)
    → (identified h r kind id now number).form.published_at ≡ form_value r (codes "published_at")
identified-date h r kind id now none = refl
identified-date h r kind id now (some n) =
    with_date-date r (typed_form h kind r id) (typed_record r n) now
      (parse_published_at h.zone (form_value r (codes "published_at"))) refl

submitted-date :
    {S : Type 0} (h : Editor) (r : Request) (res : Resource S) (new : Bool) (now : Time)
    → (submitted h r res new now).form.published_at ≡ form_value r (codes "published_at")
unfolding submitted
submitted-date h r res true now = identified-date h r res.kind [] now (some 0)
submitted-date h r res false now =
    identified-date h r res.kind r.path_id now (h.from_string r.path_id)

publish_now-date :
    (h : Editor) (r : Request) (now : Time) (sub : Submission)
    → sub.form.published_at ≡ form_value r (codes "published_at")
    → (publish_now h r now sub).form.published_at ≡ date_shown h r now
unfolding publish_now
publish_now-date h r now sub e =
    elim (Bool-cases (form_value r (codes "action") =ᵇ codes "publish_now")) [
      | inl now_is ↦ rw (now_is)
      | inr typed ↦ rw (typed) e
    ]

one_message :
    (f : Form) (field message k : Bytes)
    → View.err (record f { errors = (field, message) ∷ [] }) k
      ≡ (if field =ᵇ k then message else [])
unfolding View.err get find_pair
one_message f field message k = ground arith

module _ {S : Type 0} (h : Editor) (res : Resource S) (r : Request) (now : Time) (f : Form)
    (texts : IsTyped r f) (date : f.published_at ≡ date_shown h r now) where
  -- The answer with one message.
  complained :
      (field message : Bytes)
      → Complains h res r now field message (invalid r res f ((field, message) ∷ []))
  unfolding invalid render framed
  complained field message = record {
    form = record f { errors = (field, message) ∷ [] };
    texts = texts;
    date = date;
    at_field =
        one_message f field message field ∙ ap (λ b. if b then message else []) (=ᵇ_refl field);
    elsewhere = λ k ne. elim (Bool-cases (field =ᵇ k)) [
      | inl same ↦ absurd (ne (sym ((=ᵇ_iff field k).0 same)))
      | inr apart ↦ one_message f field message k ∙ ap (λ b. if b then message else []) apart
    ];
    body = elim (Bool-cases (is_htmx r)) [
      | inl asked ↦ rw (asked) refl
      | inr plain ↦ rw (plain) refl
    ];
    status = refl;
  }

  answer-IsTold : (e : Error) → IsTold h res r now e (answer h res r f (err e))
  unfolding answer field_errors is fail not_found_reply http_error
  answer-IsTold (refused what slug_taken) = complained (codes "slug") _
  answer-IsTold (refused what slug_invalid) = complained (codes "slug") _
  answer-IsTold (refused what title_required) = complained (codes "title") _
  answer-IsTold (refused what not_found) = refl
  answer-IsTold (broken what cause) = refl

-- A save whose date and ID read, and whose write fails, tells so by the error: a Slug that is taken or
-- malformed and a missing Title come back as 422 with the editor's form, in a page or by itself for htmx, with
-- the texts and the date as typed (the time of the save behind "Publish now"), the message at that field and
-- no other message; a missing record as 404; anything else as 500.
pub save_refused :
    {S : Type 0} (h : Editor) (res : Resource S) (new : Bool) (others : ℕ → S → S)
    (clock : ℕ → Time) (r : Request) (st : S) (form : Pairs) (e : Error)
    → r.form ≡ some form
    → (submitted h r res new (clock 0)).error ≡ none
    → (write res new
        (others 0)
        st
        (publish_now h r (clock 1) (submitted h r res new (clock 0))).rec).1
      ≡ err e
    → IsTold h res r (clock 1) e (save h res new others clock r st).1
save_refused h res new others clock r st form e f accepted failed =
    let sub = submitted h r res new (clock 0) in
    let final = publish_now h r (clock 1) sub in
    let answered : (save h res new others clock r st).1 ≡ answer h res r final.form (err e) =
      ap (λ t. t.1) (save_accepted h res new others clock r st form f accepted)
      ∙ ap (answer h res r final.form) failed in
    subst (IsTold h res r (clock 1) e) (sym answered) (
      answer-IsTold h res r (clock 1) final.form
        (publish_now-IsTyped h r (clock 1) sub (submitted-IsTyped h r res new (clock 0)))
        (publish_now-date h r (clock 1) sub (submitted-date h r res new (clock 0))) e)

shown_or_broken :
    (o : Option Domain) (what : Bytes) (e : DbError)
    → o ≢ some not_found
    → (field_errors (elim o [ none ↦ broken what e | some d ↦ refused what d ]) ≡ none) ↔ (o ≡ none)
unfolding field_errors is
shown_or_broken none what e ne = (λ h. refl, λ h. refl)
shown_or_broken (some not_found) what e ne = absurd (ne refl)
shown_or_broken (some slug_taken) what e ne = (λ h. cc, λ h. cc)
shown_or_broken (some slug_invalid) what e ne = (λ h. cc, λ h. cc)
shown_or_broken (some title_required) what e ne = (λ h. cc, λ h. cc)

domain_error-found : (code constraint : Bytes) → domain_error (pg code constraint) ≢ some not_found
unfolding domain_error
domain_error-found code constraint = ground arith

-- The refusals that come back at a field are those that the database reports as the domain's: the
-- error of a statement is shown at a field exactly where `domainError` knows it.
pub field_errors-wrap :
    (e : DbError) (what : Bytes) → (field_errors (wrap e what) ≡ none) ↔ (domain_error e ≡ none)
unfolding field_errors wrap domain_error is
field_errors-wrap no_rows what = (λ h. refl, λ h. refl)
field_errors-wrap (other message) what = (λ h. refl, λ h. refl)
field_errors-wrap (pg code constraint) what =
    shown_or_broken (domain_error (pg code constraint)) what (pg code constraint)
      (domain_error-found code constraint)
