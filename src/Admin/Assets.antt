-- ===== src/Admin/Assets.antt =====
-- internal/admin/assets.go: the embedded front end, and the headers of every response.
use go_personal_web.Prelude.{Option, none, some, [], ◌∷◌, Bytes, ◌=ᵇ◌, codes, if◌then◌else◌}
use go_personal_web.GoStd.Strings.{has_suffix, trim_prefix}
use go_personal_web.Http.{Request, with_header}
use go_personal_web.Admin.Render.{Reply, http_error, file}

abbrev htmx_file : Bytes
htmx_file = codes "htmx-2.0.10.min.js"

abbrev content_security_policy : Bytes
content_security_policy =
    codes
      "default-src 'self'; script-src 'self'; style-src 'self'; img-src 'self' data:; form-action 'self'; frame-ancestors 'none'; base-uri 'none'"

-- The names that `serveAsset` knows. Both files are embedded, so the read succeeds.
unfoldable pub asset_name : Bytes → Option Bytes
asset_name path =
    let name = trim_prefix path (codes "/admin/static/") in
    if name =ᵇ codes "htmx.min.js"
    then some htmx_file
    else if name =ᵇ codes "app.css"
    then some (codes "app.css")
    else none

-- `http.NotFound`
unfoldable pub page_not_found : Reply
unfolding http_error
page_not_found = http_error (codes "404 page not found") 404

unfoldable pub serve_asset : Request → Reply
unfolding asset_name page_not_found
serve_asset r = elim (asset_name r.path) [
  | none ↦ page_not_found
  | some name ↦ record {
    status = 200;
    headers =
        (
          codes "Content-Type",
          if has_suffix name (codes ".css")
              then codes "text/css; charset=utf-8"
              else codes "text/javascript; charset=utf-8",
        )
        ∷ (codes "Cache-Control", codes "no-cache")
        ∷ [];
    cookies = [];
    redirect = none;
    body = some (file name);
  }
]

-- `secured`. A handler sets none of the three names to another value.
unfoldable pub secured : Reply → Reply
unfolding with_header
secured w = with_header (codes "Content-Security-Policy") content_security_policy (
    with_header (codes "X-Content-Type-Options") (codes "nosniff")
      (with_header (codes "Referrer-Policy") (codes "same-origin") w))
