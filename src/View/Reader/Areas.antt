-- ===== src/View/Reader/Areas.antt =====
-- The one text area of the editor's form, and its text.
use go_personal_web.Prelude.{
  ℕ, ◌≡◌, refl, sym, ap, subst, ◌∙◌, true, [], ◌∷◌, ◌++◌, List, Bytes, ◌=ᵇ◌, =ᵇ_iff, codes, take,
  drop, take-append-drop, append-nil, Bool-cases, inl, inr, not, ◌&&◌,
}
use mathlib.Core.Path.{ap₂}
use go_personal_web.Http.{Pairs}
use go_personal_web.View.{Form, err, is_new}
use go_personal_web.View.Markup.{Markup, Templ, print, join}
use go_personal_web.View.Markup.Editing.{
  field_error, form_error, date_part, body_part, slug_part, title_part, editor_form,
}
use go_personal_web.View.Reader.{
  Token, start_tag, end_tag, character, characters, read_page, after, tokens, content,
}
use go_personal_web.View.Reader.Meaning.{IsEscaping, IsClosed, meaning, read_page-print}
use go_personal_web.View.Reader.Closing.{IsClosed-of, is_closed, meaning-append}
use go_personal_web.View.Reader.Screens.{
  field_error-IsClosed, form_error-IsClosed, editor_form-IsClosed,
}
use go_personal_web.View.Reader.Picking.{picks, picked, picked-meaning}
use go_personal_web.View.Reader.Controls.{
  Control, form, field, submitter, area, poll, control, polls, date_part_controls,
  buttons_part_controls, field_error_controls, form_error_controls,
}
use go_personal_web.View.Reader.Submission.{areas, text_before}

area_names : List Control → List Bytes
area_names [] = []
area_names (area k ∷ cs) = k ∷ area_names cs
area_names (form m a ∷ cs) = area_names cs
area_names (field t k v ∷ cs) = area_names cs
area_names (submitter k v ∷ cs) = area_names cs
area_names (poll a i ∷ cs) = area_names cs

rest_of_none : (cs ds : List Control) → area_names (cs ++ ds) ≡ [] → area_names ds ≡ []
unfolding area_names
rest_of_none [] ds h = h
rest_of_none (area k ∷ cs) ds h = absurd (cc)
rest_of_none (form m a ∷ cs) ds h = rest_of_none cs ds h
rest_of_none (field t k v ∷ cs) ds h = rest_of_none cs ds h
rest_of_none (submitter k v ∷ cs) ds h = rest_of_none cs ds h
rest_of_none (poll a i ∷ cs) ds h = rest_of_none cs ds h

text_area_named :
    (a : Pairs) (ds : List Control) → area_names (control (codes "textarea") a ++ ds) ≡ [] → ⊥
unfolding area_names control
text_area_named a ds h = cc

-- Tags that open no text area are passed over.
areas-skip : (s u : List Token) → area_names (picks control s) ≡ [] → areas (s ++ u) ≡ areas u
unfolding areas picks
areas-skip [] u h = refl
areas-skip (end_tag n ∷ ts) u h = areas-skip ts u h
areas-skip (character c ∷ ts) u h = areas-skip ts u h
areas-skip (start_tag n a ∷ ts) u h =
    let rest = areas-skip ts u (rest_of_none (control n a) (picks control ts) h) in
    elim (Bool-cases (n =ᵇ codes "textarea")) [
      | inl is ↦ absurd (
          text_area_named a (picks control ts)
            (subst (λ x. area_names (control x a ++ picks control ts) ≡ []) ((=ᵇ_iff n _).0 is) h))
      | inr other ↦ rw (other) rest
    ]

areas_in : Markup → Pairs
areas_in m = areas (meaning content m)

areas_in-skip :
    (m n : Markup)
    → IsClosed m
    → area_names (picked control m) ≡ []
    → areas_in (m ++ n) ≡ areas_in n
unfolding areas_in
areas_in-skip m n c h =
    ap areas (meaning-append m n c)
    ∙ areas-skip (meaning content m) (meaning content n)
        (ap area_names (picked-meaning control m) ∙ h)

-- The first writes and a block, both without a text area.
areas_in-block :
    (n : ℕ) (m block rest : Markup)
    → is_closed content (take n m) ≡ true
    → area_names (picked control (take n m)) ≡ []
    → IsClosed block
    → picked control block ≡ []
    → drop n m ≡ block ++ rest
    → areas_in m ≡ areas_in rest
areas_in-block n m block rest h none c empty e =
    ap areas_in (sym (take-append-drop n m))
    ∙ areas_in-skip (take n m) (drop n m) (IsClosed-of (take n m) h) none
    ∙ ap areas_in e
    ∙ areas_in-skip block rest c (unfold area_names in rw (empty))

form_part : (f : Form) → areas_in (editor_form f) ≡ areas_in (title_part f)
unfolding editor_form picked picks control area_names join codes is_closed after tokens
form_part f =
    areas_in-block 6 (editor_form f) (form_error (err f [])) (title_part f) refl refl
      (form_error-IsClosed _) (form_error_controls _) refl

title_part_areas : (f : Form) → areas_in (title_part f) ≡ areas_in (slug_part f)
unfolding title_part picked picks control area_names join codes is_closed after tokens
title_part_areas f =
    areas_in-block 3 (title_part f) (field_error (err f (codes "title"))) (slug_part f) refl refl
      (field_error-IsClosed _) (field_error_controls _) refl

polls_none : (f : Form) → area_names (polls f) ≡ []
unfolding area_names
polls_none f = elim (Bool-cases (f.autosave && not (is_new f))) [
  | inl on ↦ rw (on) refl
  | inr off ↦ rw (off) refl
]

date_part_none : (f : Form) → area_names (picked control (date_part f)) ≡ []
unfolding area_names
date_part_none f = rw (date_part_controls f, buttons_part_controls f) (polls_none f)

text_before-characters :
    (s : Bytes) (n : Bytes) (ts : List Token) → text_before (characters s ++ end_tag n ∷ ts) ≡ s
unfolding text_before characters
text_before-characters [] n ts = refl
text_before-characters (c ∷ s) n ts = ap (λ x. c ∷ x) (text_before-characters s n ts)

areas-characters : (s : Bytes) (ts : List Token) → areas (characters s ++ ts) ≡ areas ts
unfolding areas characters
areas-characters [] ts = refl
areas-characters (c ∷ s) ts = areas-characters s ts

closing :
    (f : Form)
    → (ts : List Token) × (meaning content (date_part f) ≡ end_tag (codes "textarea") ∷ ts)
unfolding date_part meaning tokens join codes
closing f = (drop 1 (meaning content (date_part f)), refl)

slug_part_areas : (f : Form) → areas_in (slug_part f) ≡ areas_in (body_part f)
unfolding slug_part picked picks control area_names join codes is_closed after tokens
slug_part_areas f =
    areas_in-block 3 (slug_part f) (field_error (err f (codes "slug"))) (body_part f) refl refl
      (field_error-IsClosed _) (field_error_controls _) refl

-- Behind the label, the text area of the body; no other follows.
body_part_areas : (f : Form) → areas_in (body_part f) ≡ (codes "body", f.body) ∷ []
unfolding body_part areas_in areas meaning tokens join codes after ◌=ᵇ◌
body_part_areas f =
    let (ts, e) = closing f in
    let text : text_before (characters f.body ++ meaning content (date_part f)) ≡ f.body =
      rw (e) (text_before-characters f.body (codes "textarea") ts) in
    let others : areas (characters f.body ++ meaning content (date_part f)) ≡ [] =
      areas-characters f.body _
      ∙ sym (ap areas (append-nil (meaning content (date_part f))))
      ∙ areas-skip (meaning content (date_part f)) []
          (ap area_names (picked-meaning control (date_part f)) ∙ date_part_none f) in
    ap₂ (λ (x : Bytes) (rest : Pairs). (codes "body", x) ∷ rest) text others

-- The text areas of the page that the form prints.
pub areas-editor_form :
    (t : Templ)
    → IsEscaping t
    → (f : Form) → areas (read_page (print t (editor_form f))) ≡ (codes "body", f.body) ∷ []
unfolding areas_in
areas-editor_form t e f =
    ap areas (read_page-print t e (editor_form f) (editor_form-IsClosed f))
    ∙ form_part f
    ∙ title_part_areas f
    ∙ slug_part_areas f
    ∙ body_part_areas f
