-- ===== src/Admin/Render.antt =====
-- internal/admin/render.go: the one place where a response is framed.
use go_personal_web.Prelude.{
  ℕ, Bool, Option, none, some, [], ◌∷◌, Bytes, ◌=ᵇ◌, codes, ◌==◌, if◌then◌else◌,
}
use go_personal_web.Http.{Request, Response, get}
use go_personal_web.View.{Nav, Component, layout}

-- A body is a component, the plain text of `http.Error` or an embedded file, by its name.
pub data Body : Type 0 where
  component : Component → Body
  text : Bytes → Body
  file : (name : Bytes) → Body

abbrev pub Reply : Type 0
Reply = Response Body

pub record Screen : Type 0 where
  pub title : Bytes
  pub nav : Nav
  pub body : Component
  pub fragment : Option Component
  pub status : ℕ

unfoldable pub is_htmx : Request → Bool
is_htmx r = get (codes "HX-Request") r.headers =ᵇ codes "true"

-- The component that `render` writes.
unfoldable pub framed : Request → Screen → Component
framed r s =
    if is_htmx r
    then elim s.fragment [ none ↦ s.body | some fragment ↦ fragment ]
    else layout s.title s.nav s.body

unfoldable pub render : Request → Screen → Reply
unfolding framed
render r s = record {
  status = if s.status == 0 then 200 else s.status;
  headers =
      (codes "Cache-Control", codes "no-store")
      ∷ (codes "Content-Type", codes "text/html; charset=utf-8")
      ∷ [];
  cookies = [];
  redirect = none;
  body = some (component (framed r s));
}

-- `http.Error(w, message, code)`
unfoldable pub http_error : Bytes → ℕ → Reply
http_error message code = record {
  status = code;
  headers =
      (codes "X-Content-Type-Options", codes "nosniff")
      ∷ (codes "Content-Type", codes "text/plain; charset=utf-8")
      ∷ [];
  cookies = [];
  redirect = none;
  body = some (text message);
}

-- `fail` also logs the error.
unfoldable pub fail : Reply
unfolding http_error
fail = http_error (codes "something went wrong") 500

unfoldable pub not_found_reply : Reply
unfolding http_error
not_found_reply = http_error (codes "not found") 404

unfoldable pub bad_request : Reply
unfolding http_error
bad_request = http_error (codes "bad request") 400
