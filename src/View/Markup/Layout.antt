-- ===== src/View/Markup/Layout.antt =====
-- internal/view/layout_templ.go and login_templ.go: the shell of every full page, the login screen, and
-- the markup of every component that a handler makes.
use go_personal_web.Prelude.{Bool, true, false, [], ◌∷◌, ◌++◌, Bytes, ◌=ᵇ◌, codes, if◌then◌else◌}
use go_personal_web.Content.{UuidNumber}
use go_personal_web.View.{Zone, Nav, nav_posts, nav_pages, nav_none, LoginForm, Component}
use go_personal_web.View.Markup.{raw, escaped, url, attribute, Markup, component, join}
use go_personal_web.View.Markup.Lists
use go_personal_web.View.Markup.Editing

-- `htmxConfig`
unfoldable pub htmx_config : Bytes
htmx_config = join (
    "{\"allowEval\":false,\"responseHandling\":[" ∷ "{\"code\":\"422\",\"swap\":true},"
    ∷ "{\"code\":\"204\",\"swap\":false}," ∷ "{\"code\":\"[23]..\",\"swap\":true},"
    ∷ "{\"code\":\"[45]..\",\"swap\":false,\"error\":true}]}" ∷ [])

-- `navLink`
unfoldable pub nav_link : (href label : Bytes) → (current : Bool) → Markup
nav_link href label true = component (
    raw (codes "<a href=\"")
    ∷ url href
    ∷ raw (codes "\" class=\"font-medium text-stone-900 underline underline-offset-4\">")
    ∷ escaped label
    ∷ raw (codes "</a>")
    ∷ [])
nav_link href label false = component (
    raw (codes "<a href=\"")
    ∷ url href
    ∷ raw (codes "\" class=\"text-stone-500 hover:text-stone-900\">")
    ∷ escaped label
    ∷ raw (codes "</a>")
    ∷ [])

-- `nav == NavPosts`, and the same of Pages.
abbrev is_posts : Nav → Bool
is_posts nav_posts = true
is_posts _ = false

abbrev is_pages : Nav → Bool
is_pages nav_pages = true
is_pages _ = false

unfoldable pub sections : (posts pages : Bool) → Markup
sections posts pages =
    raw (codes "<nav class=\"flex gap-4 text-sm\">")
    ∷ (nav_link (codes "/admin/posts") (codes "Posts") posts
        ++ (nav_link (codes "/admin/pages") (codes "Pages") pages
            ++ (raw (
                  join (
                    "</nav><form method=\"post\" action=\"/admin/logout\""
                    ∷ " class=\"ml-auto\"><button type=\"submit\" class=\"text-sm text-stone-500"
                    ∷ " hover:text-stone-900\">Log out</button></form>" ∷ []))
                ∷ [])))

-- The navigation of `Layout`.
unfoldable pub navigation : Nav → Markup
navigation nav_none = []
navigation nav = sections (is_posts nav) (is_pages nav)

-- `Layout`
unfoldable pub layout : (title : Bytes) → Nav → (body : Markup) → Markup
layout title nav body = component (
    raw (
      join (
        "<!doctype html><html lang=\"en\"><head><meta charset=\"utf-8\"><meta"
        ∷ " name=\"viewport\" content=\"width=device-width, initial-scale=1\"><meta"
        ∷ " name=\"htmx-config\" content=\"" ∷ []))
    ∷ attribute htmx_config
    ∷ raw (codes "\"><meta name=\"robots\" content=\"noindex, nofollow\"><title>")
    ∷ escaped title
    ∷ raw (
        join (
          "</title><link rel=\"stylesheet\" href=\"/admin/static/app.css\"><script"
          ∷ " src=\"/admin/static/htmx.min.js\" defer></script></head><body"
          ∷ " class=\"min-h-full bg-stone-50 text-stone-900 antialiased\"><header"
          ∷ " class=\"border-b border-stone-200 bg-white\"><div class=\"mx-auto flex"
          ∷ " max-w-4xl items-center gap-6 px-4 py-3\"><span class=\"font-semibold"
          ∷ " tracking-tight\">Admin</span> " ∷ []))
    ∷ (navigation nav
        ++ (raw (codes "</div></header><main class=\"mx-auto max-w-4xl px-4 py-8\">")
            ∷ (body ++ (raw (codes "</main></body></html>") ∷ [])))))

unfoldable pub login_error : (message : Bytes) → Markup
login_error message =
    if message =ᵇ []
    then []
    else raw (
        join (
          "<p class=\"mb-4 rounded border border-red-200 bg-red-50 px-3 py-2 text-sm"
          ∷ " text-red-800\">" ∷ []))
      ∷ escaped message
      ∷ raw (codes "</p>")
      ∷ []

unfoldable pub next_field : (next : Bytes) → Markup
next_field next =
    if next =ᵇ []
    then []
    else raw (codes "<input type=\"hidden\" name=\"next\" value=\"")
      ∷ attribute next
      ∷ raw (codes "\">")
      ∷ []

-- `Login`
unfoldable pub login : LoginForm → Markup
login f = component (
    raw (
      join (
        "<div class=\"mx-auto max-w-sm\"><h1 class=\"mb-6 text-xl font-semibold"
        ∷ " tracking-tight\">Log in</h1>" ∷ []))
    ∷ (login_error f.error
        ++ (raw (codes "<form method=\"post\" action=\"/admin/login\" class=\"space-y-4\">")
            ∷ (next_field f.next
                ++ (raw (
                      join (
                        "<div><label for=\"password\" class=\"mb-1 block text-sm"
                        ∷ " font-medium\">Password</label> <input type=\"password\" id=\"password\""
                        ∷ " name=\"password\" required autofocus autocomplete=\"current-password\""
                        ∷ " class=\"w-full rounded border border-stone-300 px-3 py-2"
                        ∷ " focus:border-stone-900 focus:outline-none\"></div><button type=\"submit\""
                        ∷ " class=\"rounded bg-stone-900 px-4 py-2 text-sm font-medium text-white"
                        ∷ " hover:bg-stone-700\">Log in</button></form></div>" ∷ []))
                    ∷ [])))))

-- The templ function that each component is made by.
unfoldable pub markup : (print_id : UuidNumber → Bytes) → (utc : Zone) → Component → Markup
markup print_id utc (Component.layout title nav body) = layout title nav (markup print_id utc body)
markup print_id utc (Component.posts l now) = Lists.posts print_id utc l now
markup print_id utc (Component.post_region l now) = Lists.post_region print_id utc l now
markup print_id utc (Component.post_rows l now) = Lists.post_rows print_id utc l now
markup print_id utc (Component.pages l now) = Lists.pages print_id utc l now
markup print_id utc (Component.page_region l now) = Lists.page_region print_id utc l now
markup print_id utc (Component.page_rows l now) = Lists.page_rows print_id utc l now
markup print_id utc (Component.editor f) = Editing.editor f
markup print_id utc (Component.editor_form f) = Editing.editor_form f
markup print_id utc (Component.login f) = login f
markup print_id utc (Component.saved f at) = Editing.saved f at
markup print_id utc (Component.not_saved_marker f reason) = Editing.not_saved_marker f reason
markup print_id utc Component.published_marker = Editing.published_marker
