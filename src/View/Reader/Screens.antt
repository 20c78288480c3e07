-- ===== src/View/Reader/Screens.antt =====
-- Every component that a handler makes is read by a browser as what its markup means.
use go_personal_web.Prelude.{◌≡◌, refl, Bool, true, false, [], Bytes, ◌=ᵇ◌, codes, not, ◌&&◌}
use go_personal_web.Content.{UuidNumber}
use go_personal_web.View.{
  Zone, Form, is_new, Nav, nav_posts, nav_pages, nav_none, LoginForm, Component,
}
use go_personal_web.View.Markup.{Markup, Templ, join, print}
use go_personal_web.View.Markup.Editing
use go_personal_web.View.Markup.Layout
use go_personal_web.View.Markup.Layout.{markup}
use go_personal_web.View.Reader.{content, after, read_page}
use go_personal_web.View.Reader.Meaning.{IsClosed, IsEscaping, read_page-print, meaning}
use go_personal_web.View.Reader.Closing.{
  is_closed, IsClosed-of, IsClosed-append, IsClosed-nil, IsClosed-component, IsClosed-if,
  IsClosed-split,
}
use go_personal_web.View.Reader.Closed.{
  posts-IsClosed, post_region-IsClosed, post_rows-IsClosed, pages-IsClosed, page_region-IsClosed,
  page_rows-IsClosed,
}

pub field_error-IsClosed : (message : Bytes) → IsClosed (Editing.field_error message)
unfolding Editing.field_error join codes is_closed after
field_error-IsClosed message =
    IsClosed-component _ (IsClosed-if (message =ᵇ []) _ _ IsClosed-nil (IsClosed-of _ refl))

pub form_error-IsClosed : (message : Bytes) → IsClosed (Editing.form_error message)
unfolding Editing.form_error join codes is_closed after
form_error-IsClosed message = IsClosed-if (message =ᵇ []) _ _ IsClosed-nil (IsClosed-of _ refl)

pub autosave_status-IsClosed : (f : Form) → IsClosed (Editing.autosave_status f)
unfolding Editing.autosave_status join codes is_closed after
autosave_status-IsClosed f = IsClosed-component _ (
    IsClosed-if (f.autosave && not (is_new f)) _ _ (IsClosed-of _ refl)
      (IsClosed-if (is_new f) _ _ (IsClosed-of _ refl) (IsClosed-of _ refl)))

pub buttons_part-IsClosed : (f : Form) → IsClosed (Editing.buttons_part f)
unfolding Editing.buttons_part join codes is_closed after
buttons_part-IsClosed f =
    IsClosed-split 1 _ refl (IsClosed-append _ _ (autosave_status-IsClosed f) (IsClosed-of _ refl))

pub date_part-IsClosed : (f : Form) → IsClosed (Editing.date_part f)
unfolding Editing.date_part join codes is_closed after
date_part-IsClosed f =
    IsClosed-split 5 _ refl (IsClosed-append _ _ (field_error-IsClosed _) (buttons_part-IsClosed f))

pub slug_part-IsClosed : (f : Form) → IsClosed (Editing.slug_part f)
unfolding Editing.slug_part Editing.body_part join codes is_closed after
slug_part-IsClosed f =
    IsClosed-split 3 _ refl (
      IsClosed-append _ _ (field_error-IsClosed _) (IsClosed-split 2 _ refl (date_part-IsClosed f)))

pub title_part-IsClosed : (f : Form) → IsClosed (Editing.title_part f)
unfolding Editing.title_part join codes is_closed after
title_part-IsClosed f =
    IsClosed-split 3 _ refl (IsClosed-append _ _ (field_error-IsClosed _) (slug_part-IsClosed f))

pub editor_form-IsClosed : (f : Form) → IsClosed (Editing.editor_form f)
unfolding Editing.editor_form join codes is_closed after
editor_form-IsClosed f =
    IsClosed-split 6 _ refl (IsClosed-append _ _ (form_error-IsClosed _) (title_part-IsClosed f))

pub editor-IsClosed : (f : Form) → IsClosed (Editing.editor f)
unfolding Editing.editor join codes is_closed after
editor-IsClosed f = IsClosed-split 2 _ refl (
    IsClosed-append _ _ (IsClosed-if (is_new f) _ _ (IsClosed-of _ refl) (IsClosed-of _ refl))
      (IsClosed-split 3 _ refl (editor_form-IsClosed f)))

saved-IsClosed : (f : Form) (at : Bytes) → IsClosed (Editing.saved f at)
unfolding Editing.saved join codes is_closed after
saved-IsClosed f at = IsClosed-of _ refl

published_marker-IsClosed : IsClosed Editing.published_marker
unfolding Editing.published_marker join codes is_closed after
published_marker-IsClosed = IsClosed-of _ refl

not_saved_marker-IsClosed :
    (f : Form) (reason : Bytes) → IsClosed (Editing.not_saved_marker f reason)
unfolding Editing.not_saved_marker join codes is_closed after
not_saved_marker-IsClosed f reason = IsClosed-of _ refl

nav_link-IsClosed :
    (href label : Bytes) (current : Bool) → IsClosed (Layout.nav_link href label current)
unfolding Layout.nav_link join codes is_closed after
nav_link-IsClosed href label true = IsClosed-of _ refl
nav_link-IsClosed href label false = IsClosed-of _ refl

sections-IsClosed : (posts pages : Bool) → IsClosed (Layout.sections posts pages)
unfolding Layout.sections join codes is_closed after
sections-IsClosed posts pages = IsClosed-split 1 _ refl (
    IsClosed-append _ _ (nav_link-IsClosed _ _ posts)
      (IsClosed-append _ _ (nav_link-IsClosed _ _ pages) (IsClosed-of _ refl)))

navigation-IsClosed : (nav : Nav) → IsClosed (Layout.navigation nav)
unfolding Layout.navigation
navigation-IsClosed nav_none = IsClosed-nil
navigation-IsClosed nav_posts = sections-IsClosed true false
navigation-IsClosed nav_pages = sections-IsClosed false true

layout-IsClosed :
    (title : Bytes) (nav : Nav) (body : Markup)
    → IsClosed body
    → IsClosed (Layout.layout title nav body)
unfolding Layout.layout join codes is_closed after
layout-IsClosed title nav body c = IsClosed-split 6 _ refl (
    IsClosed-append _ _ (navigation-IsClosed nav)
      (IsClosed-split 1 _ refl (IsClosed-append _ _ c (IsClosed-of _ refl))))

pub login-IsClosed : (f : LoginForm) → IsClosed (Layout.login f)
unfolding Layout.login Layout.login_error Layout.next_field join codes is_closed after
login-IsClosed f = IsClosed-split 2 _ refl (
    IsClosed-append _ _ (IsClosed-if (f.error =ᵇ []) _ _ IsClosed-nil (IsClosed-of _ refl)) (
      IsClosed-split 1 _ refl (
        IsClosed-append _ _ (IsClosed-if (f.next =ᵇ []) _ _ IsClosed-nil (IsClosed-of _ refl))
          (IsClosed-of _ refl))))

module _ (print_id : UuidNumber → Bytes) (utc : Zone) where
  pub markup-IsClosed : (c : Component) → IsClosed (markup print_id utc c)
  unfolding markup
  markup-IsClosed (Component.layout title nav body) =
      layout-IsClosed title nav _ (markup-IsClosed body)
  markup-IsClosed (Component.posts l now) = posts-IsClosed print_id utc l now
  markup-IsClosed (Component.post_region l now) = post_region-IsClosed print_id utc l now
  markup-IsClosed (Component.post_rows l now) = post_rows-IsClosed print_id utc l now
  markup-IsClosed (Component.pages l now) = pages-IsClosed print_id utc l now
  markup-IsClosed (Component.page_region l now) = page_region-IsClosed print_id utc l now
  markup-IsClosed (Component.page_rows l now) = page_rows-IsClosed print_id utc l now
  markup-IsClosed (Component.editor f) = editor-IsClosed f
  markup-IsClosed (Component.editor_form f) = editor_form-IsClosed f
  markup-IsClosed (Component.login f) = login-IsClosed f
  markup-IsClosed (Component.saved f at) = saved-IsClosed f at
  markup-IsClosed (Component.not_saved_marker f reason) = not_saved_marker-IsClosed f reason
  markup-IsClosed Component.published_marker = published_marker-IsClosed

  -- With templ's documented escaping, a browser reads the page of any component as its literals' tags
  -- with the data as plain text and as attribute values: no text of a Post, a Page, a form or an error
  -- opens a tag, ends one or adds an attribute.
  pub read_page-markup :
      (t : Templ)
      → IsEscaping t
      → (c : Component)
      → read_page (print t (markup print_id utc c)) ≡ meaning content (markup print_id utc c)
  read_page-markup t e c = read_page-print t e _ (markup-IsClosed c)
