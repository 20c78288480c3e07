-- ===== src/View/Reader/Controls.antt =====
-- The controls that a browser finds in the editor's form.
use go_personal_web.Prelude.{
  ◌≡◌, refl, ap, ◌∙◌, [], ◌∷◌, ◌++◌, List, Bytes, ◌=ᵇ◌, codes, if◌then◌else◌, append-nil,
  Bool-cases, inl, inr, not, ◌&&◌,
}
use go_personal_web.Http.{Pairs, get}
use go_personal_web.View.{Form, err, is_new, save_path, autosave_path}
use go_personal_web.View.Markup.{join}
use go_personal_web.View.Markup.Editing.{
  field_error, form_error, autosave_status, buttons_part, date_part, body_part, slug_part,
  title_part, editor_form,
}
use go_personal_web.View.Reader.{after, tokens}
use go_personal_web.View.Reader.Closing.{is_closed}
use go_personal_web.View.Reader.Screens.{
  field_error-IsClosed, form_error-IsClosed, autosave_status-IsClosed,
}
use go_personal_web.View.Reader.Picking.{has, picks, picked, picked-block}

-- A form with its method and action, a field with its type, name and value, a text area with its name, a
-- button with what it adds to the form, and an element that posts by itself: where to, and which
-- form it includes.
pub data Control : Type 0 where
  form : (method action : Bytes) → Control
  field : (type name value : Bytes) → Control
  submitter : (name value : Bytes) → Control
  area : (name : Bytes) → Control
  poll : (address include : Bytes) → Control

unfoldable pub control : Bytes → Pairs → List Control
unfolding get has ◌=ᵇ◌ codes
control tag a =
    (if tag =ᵇ codes "form"
      then form (get (codes "method") a) (get (codes "action") a) ∷ []
      else if tag =ᵇ codes "input"
      then field (get (codes "type") a) (get (codes "name") a) (get (codes "value") a) ∷ []
      else if tag =ᵇ codes "textarea"
      then area (get (codes "name") a) ∷ []
      else if tag =ᵇ codes "button" && has (codes "name") a
      then submitter (get (codes "name") a) (get (codes "value") a) ∷ []
      else [])
    ++ (if has (codes "hx-trigger") a
        then poll (get (codes "hx-post") a) (get (codes "hx-include") a) ∷ []
        else [])

pub field_error_controls : (message : Bytes) → picked control (field_error message) ≡ []
unfolding field_error picked picks control join codes after tokens
field_error_controls message = elim (Bool-cases (message =ᵇ [])) [
  | inl none ↦ rw (none) refl
  | inr some ↦ rw (some) refl
]

pub form_error_controls : (message : Bytes) → picked control (form_error message) ≡ []
unfolding form_error picked picks control join codes after tokens
form_error_controls message = elim (Bool-cases (message =ᵇ [])) [
  | inl none ↦ rw (none) refl
  | inr some ↦ rw (some) refl
]

-- The element that autosaves, where there is one.
abbrev pub polls : Form → List Control
polls f = if f.autosave && not (is_new f) then poll (autosave_path f) (codes "#editor") ∷ [] else []

autosave_status_controls : (f : Form) → picked control (autosave_status f) ≡ polls f
unfolding autosave_status picked picks control join codes after tokens
autosave_status_controls f = elim (Bool-cases (f.autosave && not (is_new f))) [
  | inl on ↦ rw (on) refl
  | inr off ↦
      rw (off) (elim (Bool-cases (is_new f)) [ inl new ↦ rw (new) refl | inr old ↦ rw (old) refl ])
]

pub buttons_part_controls :
    (f : Form)
    → picked control (buttons_part f)
      ≡ submitter (codes "action") (codes "save")
        ∷ submitter (codes "action") (codes "publish_now")
        ∷ polls f
unfolding buttons_part picked picks control join codes is_closed after tokens
buttons_part_controls f =
    picked-block control 1 (buttons_part f) (autosave_status f) _ refl (autosave_status-IsClosed f)
      refl (autosave_status_controls f) refl
    ∙ ap
        (λ x.
          submitter (codes "action") (codes "save")
          ∷ submitter (codes "action") (codes "publish_now")
          ∷ x)
        (append-nil (polls f))

pub date_part_controls :
    (f : Form)
    → picked control (date_part f)
      ≡ field (codes "datetime-local") (codes "published_at") f.published_at
        ∷ picked control (buttons_part f)
unfolding date_part picked picks control join codes is_closed after tokens
date_part_controls f =
    picked-block control 5 (date_part f) (field_error (err f (codes "published_at")))
      (buttons_part f) refl (field_error-IsClosed _) refl (field_error_controls _) refl

slug_part_controls :
    (f : Form)
    → picked control (slug_part f)
      ≡ field (codes "text") (codes "slug") f.slug
        ∷ area (codes "body")
        ∷ picked control (date_part f)
unfolding slug_part body_part picked picks control join codes is_closed after tokens
slug_part_controls f =
    picked-block control 3 (slug_part f) (field_error (err f (codes "slug"))) (body_part f) refl
      (field_error-IsClosed _) refl (field_error_controls _) refl

title_part_controls :
    (f : Form)
    → picked control (title_part f)
      ≡ field (codes "text") (codes "title") f.title ∷ picked control (slug_part f)
unfolding title_part picked picks control join codes is_closed after tokens
title_part_controls f =
    picked-block control 3 (title_part f) (field_error (err f (codes "title"))) (slug_part f) refl
      (field_error-IsClosed _) refl (field_error_controls _) refl

-- The controls of a form as it is printed.
abbrev pub controls : Form → List Control
controls f =
    form (codes "post") (save_path f)
    ∷ field (codes "text") (codes "title") f.title
    ∷ field (codes "text") (codes "slug") f.slug
    ∷ area (codes "body")
    ∷ field (codes "datetime-local") (codes "published_at") f.published_at
    ∷ submitter (codes "action") (codes "save")
    ∷ submitter (codes "action") (codes "publish_now")
    ∷ polls f

form_part_controls :
    (f : Form)
    → picked control (editor_form f)
      ≡ form (codes "post") (save_path f) ∷ picked control (title_part f)
unfolding editor_form picked picks control join codes is_closed after tokens
form_part_controls f =
    picked-block control 6 (editor_form f) (form_error (err f [])) (title_part f) refl
      (form_error-IsClosed _) refl (form_error_controls _) refl

pub editor_form-controls : (f : Form) → picked control (editor_form f) ≡ controls f
editor_form-controls f = rw (
  form_part_controls f,
  title_part_controls f,
  slug_part_controls f,
  date_part_controls f,
  buttons_part_controls f,
)
