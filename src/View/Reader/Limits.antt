-- ===== src/View/Reader/Limits.antt =====
-- What a browser checks before it posts the editor's form: HTML's constraint validation.
use go_personal_web.Prelude.{
  ◌≡◌, refl, [], ◌∷◌, List, Bytes, ◌=ᵇ◌, codes, if◌then◌else◌, Bool, true, false, arith, Bool-cases,
  inl, inr, not, ◌&&◌, ◌||◌, Option, none, some,
}
use go_personal_web.Http.{Pairs, get, find_pair}
use go_personal_web.View.{Form, err, is_new}
use go_personal_web.View.Markup.{join}
use go_personal_web.View.Markup.Editing.{
  field_error, form_error, autosave_status, buttons_part, date_part, body_part, slug_part,
  title_part, editor_form,
}
use go_personal_web.View.Reader.{after, tokens}
use go_personal_web.View.Reader.Closing.{is_closed}
use go_personal_web.View.Reader.Screens.{
  field_error-IsClosed, form_error-IsClosed, autosave_status-IsClosed,
}
use go_personal_web.View.Reader.Picking.{has, picks, picked, picked-block}
use go_personal_web.View.Reader.Submission.{one_line, sanitized}

-- The limits of a field: its type and its value, whether it is required, and its pattern.
pub data Limit : Type 0 where
  limit : (type value : Bytes) (required : Bool) (pattern : Option Bytes) → Limit

unfoldable pub limited : Bytes → Pairs → List Limit
unfolding get has find_pair ◌=ᵇ◌ codes
limited tag a =
    if tag =ᵇ codes "input"
    then limit (get (codes "type") a) (get (codes "value") a) (has (codes "required") a)
        (find_pair (codes "pattern") a)
      ∷ []
    else []

-- `local_date` is what a date field makes of a value, `matches` whether a text matches a pattern as a whole.
module _ (local_date : Bytes → Bytes) (matches : (pattern value : Bytes) → Bool) where
  -- A value that is required is not empty, and one that is not empty matches its pattern.
  abbrev pub is_met : Limit → Bool
  is_met (limit type value required none) =
      not required || not (sanitized local_date type value =ᵇ [])
  is_met (limit type value required (some pattern)) =
      let v = sanitized local_date type value in
      (not required || not (v =ᵇ [])) && ((v =ᵇ []) || matches pattern v)

  unfoldable pub are_met : List Limit → Bool
  are_met [] = true
  are_met (l ∷ ls) = is_met l && are_met ls

-- The pattern of the Slug's field.
abbrev pub slug_pattern : Bytes
slug_pattern = codes "[a-z0-9]+(-[a-z0-9]+)*"

field_error_limits : (message : Bytes) → picked limited (field_error message) ≡ []
unfolding field_error picked picks limited join codes after tokens
field_error_limits message = elim (Bool-cases (message =ᵇ [])) [
  | inl empty ↦ rw (empty) refl
  | inr filled ↦ rw (filled) refl
]

form_error_limits : (message : Bytes) → picked limited (form_error message) ≡ []
unfolding form_error picked picks limited join codes after tokens
form_error_limits message = elim (Bool-cases (message =ᵇ [])) [
  | inl empty ↦ rw (empty) refl
  | inr filled ↦ rw (filled) refl
]

autosave_status_limits : (f : Form) → picked limited (autosave_status f) ≡ []
unfolding autosave_status picked picks limited join codes after tokens
autosave_status_limits f = elim (Bool-cases (f.autosave && not (is_new f))) [
  | inl on ↦ rw (on) refl
  | inr off ↦
      rw (off) (elim (Bool-cases (is_new f)) [ inl new ↦ rw (new) refl | inr old ↦ rw (old) refl ])
]

buttons_part_limits : (f : Form) → picked limited (buttons_part f) ≡ []
unfolding buttons_part picked picks limited join codes is_closed after tokens
buttons_part_limits f =
    picked-block limited 1 (buttons_part f) (autosave_status f) _ refl (autosave_status-IsClosed f)
      refl (autosave_status_limits f) refl

date_part_limits :
    (f : Form)
    → picked limited (date_part f)
      ≡ limit (codes "datetime-local") f.published_at false none ∷ picked limited (buttons_part f)
unfolding date_part picked picks limited join codes is_closed after tokens
date_part_limits f =
    picked-block limited 5 (date_part f) (field_error (err f (codes "published_at")))
      (buttons_part f) refl (field_error-IsClosed _) refl (field_error_limits _) refl

slug_part_limits :
    (f : Form)
    → picked limited (slug_part f)
      ≡ limit (codes "text") f.slug true (some slug_pattern) ∷ picked limited (date_part f)
unfolding slug_part body_part picked picks limited join codes is_closed after tokens
slug_part_limits f =
    picked-block limited 3 (slug_part f) (field_error (err f (codes "slug"))) (body_part f) refl
      (field_error-IsClosed _) refl (field_error_limits _) refl

title_part_limits :
    (f : Form)
    → picked limited (title_part f)
      ≡ limit (codes "text") f.title true none ∷ picked limited (slug_part f)
unfolding title_part picked picks limited join codes is_closed after tokens
title_part_limits f =
    picked-block limited 3 (title_part f) (field_error (err f (codes "title"))) (slug_part f) refl
      (field_error-IsClosed _) refl (field_error_limits _) refl

-- The limits of a form as it is printed.
abbrev pub limits : Form → List Limit
limits f =
    limit (codes "text") f.title true none
    ∷ limit (codes "text") f.slug true (some slug_pattern)
    ∷ limit (codes "datetime-local") f.published_at false none
    ∷ []

form_part_limits : (f : Form) → picked limited (editor_form f) ≡ picked limited (title_part f)
unfolding editor_form picked picks limited join codes is_closed after tokens
form_part_limits f =
    picked-block limited 6 (editor_form f) (form_error (err f [])) (title_part f) refl
      (form_error-IsClosed _) refl (form_error_limits _) refl

pub editor_form-limits : (f : Form) → picked limited (editor_form f) ≡ limits f
editor_form-limits f = rw (
  form_part_limits f,
  title_part_limits f,
  slug_part_limits f,
  date_part_limits f,
  buttons_part_limits f,
)

-- What the browser asks of the editor's form: a Title, and a Slug that matches the pattern.
pub limits_met :
    (local_date : Bytes → Bytes) (matches : (pattern value : Bytes) → Bool) (f : Form)
    → are_met local_date matches (limits f) ≡ (
        not (one_line f.title =ᵇ [])
        && (not (one_line f.slug =ᵇ []) && matches slug_pattern (one_line f.slug)))
unfolding are_met sanitized codes ◌=ᵇ◌
limits_met local_date matches f = ground arith
