-- ===== src/View/Markup/Controls.antt =====
-- internal/view/posts_templ.go: the parts of the list screens.
use go_personal_web.Prelude.{[], ◌∷◌, ◌++◌, Bytes, ◌=ᵇ◌, codes, if◌then◌else◌}
use go_personal_web.View.Markup.{raw, escaped, url, attribute, Markup, component, join}

-- `searchForm`
unfoldable pub search_form : (action target query : Bytes) → Markup
search_form action target query = component (
    raw (codes "<form method=\"get\" action=\"")
    ∷ url action
    ∷ raw (codes "\" class=\"mb-4\" hx-get=\"")
    ∷ attribute action
    ∷ raw (codes "\" hx-target=\"")
    ∷ attribute target
    ∷ raw (
        join (
          "\" hx-swap=\"outerHTML\" hx-trigger=\"input changed delay:250ms, submit\""
          ∷ " hx-push-url=\"true\"><input type=\"search\" name=\"q\" value=\"" ∷ []))
    ∷ attribute query
    ∷ raw (
        join (
          "\" placeholder=\"Search titles and slugs\" aria-label=\"Search\""
          ∷ " class=\"w-full rounded border border-stone-300 px-3 py-2"
          ∷ " focus:border-stone-900 focus:outline-none\"></form>" ∷ []))
    ∷ [])

-- `loadMore`
unfoldable pub load_more : (href : Bytes) → Markup
load_more href = component (
    raw (codes "<button type=\"button\" hx-get=\"")
    ∷ attribute href
    ∷ raw (
        join (
          "\" hx-target=\"this\" hx-swap=\"outerHTML\" class=\"w-full px-4 py-3 text-sm"
          ∷ " font-medium text-stone-500 hover:bg-stone-50 hover:text-stone-900\">Load"
          ∷ " more</button>" ∷ []))
    ∷ [])

-- `emptyRow`
unfoldable pub empty_row : (query : Bytes) → Markup
empty_row query = component (
    raw (codes "<p class=\"px-4 py-6 text-sm text-stone-500\">")
    ∷ ((if query =ᵇ []
          then raw (codes "Nothing written yet.") ∷ []
          else raw (codes "Nothing matches ") ∷ escaped query ∷ raw (codes ".") ∷ [])
        ++ (raw (codes "</p>") ∷ [])))

-- `stateBadge`
unfoldable pub state_badge : (state : Bytes) → Markup
state_badge s = component (
    if s =ᵇ codes "draft"
    then raw (
        join (
          "<span class=\"shrink-0 rounded bg-amber-100 px-2 py-0.5 text-xs font-medium"
          ∷ " text-amber-800\">draft</span>" ∷ []))
      ∷ []
    else if s =ᵇ codes "scheduled"
    then raw (
        join (
          "<span class=\"shrink-0 rounded bg-sky-100 px-2 py-0.5 text-xs font-medium"
          ∷ " text-sky-800\">scheduled</span>" ∷ []))
      ∷ []
    else raw (
        join (
          "<span class=\"shrink-0 rounded bg-stone-100 px-2 py-0.5 text-xs font-medium"
          ∷ " text-stone-600\">published</span>" ∷ []))
      ∷ [])
