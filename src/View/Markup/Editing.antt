-- ===== src/View/Markup/Editing.antt =====
-- internal/view/form_templ.go: the editor, and the markers of its autosave.
use go_personal_web.Prelude.{not, ◌&&◌, [], ◌∷◌, ◌++◌, Bytes, ◌=ᵇ◌, codes, if◌then◌else◌}
use go_personal_web.View.{Form, err, is_new, index_path, save_path, autosave_path}
use go_personal_web.View.Markup.{raw, escaped, url, attribute, Markup, component, join}

-- `fieldError`
unfoldable pub field_error : (message : Bytes) → Markup
field_error message = component (
    if message =ᵇ []
    then []
    else raw (codes "<p class=\"mt-1 text-sm text-red-700\">")
      ∷ escaped message
      ∷ raw (codes "</p>")
      ∷ [])

-- `autosaveStatus`
unfoldable pub autosave_status : Form → Markup
autosave_status f = component (
    if f.autosave && not (is_new f)
    then raw (codes "<span id=\"autosave\" class=\"ml-auto text-xs text-stone-400\" hx-post=\"")
      ∷ attribute (autosave_path f)
      ∷ raw (
          join (
            "\" hx-target=\"this\" hx-include=\"#editor\" hx-trigger=\"every 15s\""
            ∷ " hx-swap=\"outerHTML\">Draft saves itself</span>" ∷ []))
      ∷ []
    else if is_new f
    then raw (
        join (
          "<span class=\"ml-auto text-xs text-stone-400\">Saves itself once it" ∷ " exists</span>"
          ∷ []))
      ∷ []
    else raw (
        codes "<span class=\"ml-auto text-xs text-stone-400\">Published "
        ++ (0xe2 ∷ 0x80 ∷ 0x94 ∷ codes " saved only when you ask</span>"))
      ∷ [])

-- The message of `EditorForm` that belongs to no field.
unfoldable pub form_error : (message : Bytes) → Markup
form_error message =
    if message =ᵇ []
    then []
    else raw (
        join (
          "<p class=\"rounded border border-red-200 bg-red-50 px-3 py-2 text-sm"
          ∷ " text-red-800\">" ∷ []))
      ∷ escaped message
      ∷ raw (codes "</p>")
      ∷ []

-- `EditorForm` from its buttons, its date, its body, its Slug and its Title
-- on, each up to the end of the form.
unfoldable pub buttons_part : Form → Markup
buttons_part f =
    raw (
      join (
        "</div><button type=\"submit\" name=\"action\" value=\"save\" class=\"rounded"
        ∷ " bg-stone-900 px-4 py-2 text-sm font-medium text-white"
        ∷ " hover:bg-stone-700\">Save</button> <button type=\"submit\" name=\"action\""
        ∷ " value=\"publish_now\" class=\"rounded border border-stone-300 px-4 py-2"
        ∷ " text-sm font-medium hover:bg-stone-100\">Publish now</button>" ∷ []))
    ∷ (autosave_status f ++ (raw (codes "</div></form>") ∷ []))

unfoldable pub date_part : Form → Markup
date_part f =
    raw (
      join (
        "</textarea><p class=\"mt-1 text-xs text-stone-500\">Markdown. It is stored as"
        ∷ " written and rendered on read.</p></div><div class=\"flex flex-wrap items-end"
        ∷ " gap-3 border-t border-stone-200 pt-5\"><div><label for=\"published_at\""
        ∷ " class=\"mb-1 block text-sm font-medium\">Publication date</label> <input"
        ∷ " type=\"datetime-local\" id=\"published_at\" name=\"published_at\" value=\"" ∷ []))
    ∷ attribute f.published_at
    ∷ raw (
        join (
          "\" class=\"rounded border border-stone-300 px-3 py-2 text-sm"
          ∷ " focus:border-stone-900 focus:outline-none\"><p class=\"mt-1 text-xs"
          ∷ " text-stone-500\">Empty is a draft; a future time schedules it. Times are " ∷ []))
    ∷ escaped f.zone
    ∷ raw (codes ".</p>")
    ∷ (field_error (err f (codes "published_at")) ++ buttons_part f)

unfoldable pub body_part : Form → Markup
body_part f =
    raw (
      join (
        "</div><div><label for=\"body\" class=\"mb-1 block text-sm"
        ∷ " font-medium\">Body</label> <textarea id=\"body\" name=\"body\" rows=\"20\""
        ∷ " class=\"w-full rounded border border-stone-300 px-3 py-2 font-mono text-sm"
        ∷ " focus:border-stone-900 focus:outline-none\">" ∷ []))
    ∷ escaped f.body
    ∷ date_part f

unfoldable pub slug_part : Form → Markup
slug_part f =
    raw (
      join (
        "</div><div><label for=\"slug\" class=\"mb-1 block text-sm"
        ∷ " font-medium\">Slug</label> <input type=\"text\" id=\"slug\" name=\"slug\"" ∷ " value=\""
        ∷ []))
    ∷ attribute f.slug
    ∷ raw (
        join (
          "\" required autocomplete=\"off\" pattern=\"[a-z0-9]+(-[a-z0-9]+)*\""
          ∷ " class=\"w-full rounded border border-stone-300 px-3 py-2 font-mono text-sm"
          ∷ " focus:border-stone-900 focus:outline-none\"><p class=\"mt-1 text-xs"
          ∷ " text-stone-500\">The only identifier a visitor sees. It may be rewritten at"
          ∷ " any time.</p>" ∷ []))
    ∷ (field_error (err f (codes "slug")) ++ body_part f)

unfoldable pub title_part : Form → Markup
title_part f =
    raw (
      join (
        "<div><label for=\"title\" class=\"mb-1 block text-sm"
        ∷ " font-medium\">Title</label> <input type=\"text\" id=\"title\" name=\"title\""
        ∷ " value=\"" ∷ []))
    ∷ attribute f.title
    ∷ raw (
        join (
          "\" required autocomplete=\"off\" class=\"w-full rounded border"
          ∷ " border-stone-300 px-3 py-2 text-lg focus:border-stone-900" ∷ " focus:outline-none\">"
          ∷ []))
    ∷ (field_error (err f (codes "title")) ++ slug_part f)

-- `EditorForm`
unfoldable pub editor_form : Form → Markup
editor_form f = component (
    raw (codes "<form id=\"editor\" method=\"post\" action=\"")
    ∷ url (save_path f)
    ∷ raw (codes "\" hx-post=\"")
    ∷ attribute (save_path f)
    ∷ raw (codes "\" hx-target=\"this\" hx-swap=\"outerHTML\" class=\"space-y-5\">")
    ∷ (form_error (err f []) ++ title_part f))

-- `Editor`
unfoldable pub editor : Form → Markup
editor f = component (
    raw (
      join (
        "<div class=\"mb-6 flex items-baseline justify-between gap-4\"><h1"
        ∷ " class=\"text-xl font-semibold tracking-tight\">" ∷ []))
    ∷ ((if is_new f
          then raw (codes "New ") ∷ escaped f.kind ∷ []
          else raw (codes "Edit ") ∷ escaped f.kind ∷ [])
        ++ (raw (codes "</h1><a href=\"")
            ∷ url (index_path f.kind)
            ∷ raw (codes "\" class=\"text-sm text-stone-500 hover:text-stone-900\">Back</a></div>")
            ∷ editor_form f)))

-- `Saved`
unfoldable pub saved : Form → (at : Bytes) → Markup
saved f at = component (
    raw (codes "<span id=\"autosave\" class=\"ml-auto text-xs text-stone-400\" hx-post=\"")
    ∷ attribute (autosave_path f)
    ∷ raw (
        join (
          "\" hx-target=\"this\" hx-include=\"#editor\" hx-trigger=\"every 15s\""
          ∷ " hx-swap=\"outerHTML\">Saved " ∷ []))
    ∷ escaped at
    ∷ raw (codes "</span>")
    ∷ [])

-- `PublishedMarker`
unfoldable pub published_marker : Markup
published_marker = component (
    raw (
      codes "<span id=\"autosave\" class=\"ml-auto text-xs text-stone-400\">Published "
      ++ (0xe2 ∷ 0x80 ∷ 0x94 ∷ codes " saved only when you ask</span>"))
    ∷ [])

-- `NotSavedMarker`
unfoldable pub not_saved_marker : Form → (reason : Bytes) → Markup
not_saved_marker f reason = component (
    raw (codes "<span id=\"autosave\" class=\"ml-auto text-xs text-red-700\" hx-post=\"")
    ∷ attribute (autosave_path f)
    ∷ raw (
        join (
          "\" hx-target=\"this\" hx-include=\"#editor\" hx-trigger=\"every 15s\""
          ∷ " hx-swap=\"outerHTML\">Not saved: " ∷ []))
    ∷ escaped reason
    ∷ raw (codes "</span>")
    ∷ [])
