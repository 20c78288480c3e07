-- ===== src/View/Reader/Posting.antt =====
-- The editor's form from the printed page to the posted pairs.
use go_personal_web.Prelude.{
  ℕ, ◌≡◌, ◌≢◌, refl, ◌∙◌, [], ◌∷◌, Bytes, ◌=ᵇ◌, codes, Bool-cases, inl, inr, ◌==◌, arith, Lacks,
  not, ◌&&◌, Bool, Option, none, some, List, if◌then◌else◌,
}
use mathlib.Core.Path.{ap₂}
use go_personal_web.Http.{Pairs, get}
use go_personal_web.View.{Form, is_new}
use go_personal_web.View.Markup.{Templ, print}
use go_personal_web.View.Markup.Editing.{editor_form}
use go_personal_web.View.Reader.{Token, read_page}
use go_personal_web.View.Reader.Meaning.{IsEscaping}
use go_personal_web.View.Reader.Screens.{editor_form-IsClosed}
use go_personal_web.View.Reader.Picking.{picks, picks-read_page}
use go_personal_web.View.Reader.Limits.{limited, are_met, slug_pattern}
use go_personal_web.View.Reader.Controls.{control, controls, polls, editor_form-controls}
use go_personal_web.View.Reader.Submission.{
  normalized, without_first, to_crlf, posted_text, one_line, posted, submission,
}
use go_personal_web.View.Reader.Areas.{areas-editor_form}

-- What the form posts by the button of an action.
abbrev pub form_pairs : (local_date : Bytes → Bytes) → Form → (action : Bytes) → Pairs
form_pairs local_date f action =
    (codes "title", one_line f.title)
    ∷ (codes "slug", one_line f.slug)
    ∷ (codes "body", posted_text f.body)
    ∷ (codes "published_at", local_date f.published_at)
    ∷ (codes "action", action)
    ∷ []

-- What a browser posts by a button: nothing where a field's limits are not met.
abbrev pub pressed :
    (local_date : Bytes → Bytes)
    → (matches : (pattern value : Bytes) → Bool) → (name value : Bytes) → List Token
    → Option Pairs
pressed local_date matches name value page =
    if are_met local_date matches (picks limited page)
    then some (submission local_date name value page)
    else none

module _ (local_date : Bytes → Bytes) (f : Form) where
  polls_post_nothing :
      (name value : Bytes) (texts : Pairs) → posted local_date name value texts (polls f) ≡ []
  unfolding posted
  polls_post_nothing name value texts = elim (Bool-cases (f.autosave && not (is_new f))) [
    | inl on ↦ rw (on) refl
    | inr off ↦ rw (off) refl
  ]

  posted_save :
      posted local_date (codes "action") (codes "save") ((codes "body", f.body) ∷ []) (controls f)
      ≡ form_pairs local_date f (codes "save")
  unfolding posted get ◌=ᵇ◌ codes
  posted_save =
      let none = polls_post_nothing (codes "action") (codes "save") ((codes "body", f.body) ∷ []) in
      rw (none)

  posted_publish :
      posted local_date
        (codes "action")
        (codes "publish_now")
        ((codes "body", f.body) ∷ [])
        (controls f)
      ≡ form_pairs local_date f (codes "publish_now")
  unfolding posted get ◌=ᵇ◌ codes
  posted_publish =
      let none =
        polls_post_nothing (codes "action") (codes "publish_now") ((codes "body", f.body) ∷ []) in
      rw (none)

  -- The pairs of the form behind each of its two buttons.
  pub editor_form_pairs :
      (t : Templ)
      → IsEscaping t
      → let page = read_page (print t (editor_form f)) in
        (submission local_date (codes "action") (codes "save") page
          ≡ form_pairs local_date f (codes "save"))
        × (submission local_date (codes "action") (codes "publish_now") page
            ≡ form_pairs local_date f (codes "publish_now"))
  editor_form_pairs t e =
      let found =
        picks-read_page control t e (editor_form f) (editor_form-IsClosed f)
        ∙ editor_form-controls f in
      let texts = areas-editor_form t e f in
      (
        ap₂ (posted local_date (codes "action") (codes "save")) texts found ∙ posted_save,
        ap₂ (posted local_date (codes "action") (codes "publish_now")) texts found ∙ posted_publish,
      )

  -- The form as a browser posts it: with a Title, and with a Slug that matches the form's pattern.
  abbrev pub posted_form :
      (matches : (pattern value : Bytes) → Bool) → (action : Bytes) → Option Pairs
  posted_form matches action =
      if not (one_line f.title =ᵇ [])
        && (not (one_line f.slug =ᵇ []) && matches slug_pattern (one_line f.slug))
      then some (form_pairs local_date f action)
      else none

normalized-cons : (c : ℕ) (s : Bytes) → c ≢ b'\r' → normalized (c ∷ s) ≡ c ∷ normalized s
unfolding normalized
normalized-cons c [] h = ground arith
normalized-cons c (d ∷ s) h = ground arith

normalized-crlf : (s : Bytes) → normalized (b'\r' ∷ b'\n' ∷ s) ≡ b'\n' ∷ normalized s
unfolding normalized
normalized-crlf s = refl

pub normalized-to_crlf : (s : Bytes) → Lacks b'\r' s → normalized (to_crlf s) ≡ s
unfolding to_crlf
normalized-to_crlf [] h = unfold normalized in refl
normalized-to_crlf (c ∷ s) (ne, h) = elim (Bool-cases (c == b'\n')) [
  | inl newline ↦ rw (newline, normalized-crlf, normalized-to_crlf s h) (ground arith)
  | inr other ↦ rw (other, normalized-cons c (to_crlf s) ne, normalized-to_crlf s h) refl
]

-- A text that a browser posted is posted again as it is, unless a newline begins it.
pub posted_text-to_crlf :
    (c : ℕ) (s : Bytes)
    → Lacks b'\r' (c ∷ s)
    → c ≢ b'\n'
    → posted_text (to_crlf (c ∷ s)) ≡ to_crlf (c ∷ s)
posted_text-to_crlf c s h ne =
    rw (normalized-to_crlf (c ∷ s) h) (unfold without_first in ground arith)
