-- ===== src/Admin/Auth.antt =====
-- internal/admin/auth.go: the guard, the login form, logging in and out. A handler takes the state
-- that it changes and returns the new one with its reply and its effects in order.
pub mod Redirect
pub mod Login
pub mod Work
pub mod Attempts
pub mod Access
use go_personal_web.Prelude.{
  ℕ, Bool, true, false, not, ◌&&◌, ◌||◌, Option, none, some, List, [], ◌∷◌, ◌++◌, Bytes, ◌=ᵇ◌,
  codes, if◌then◌else◌, is_absent,
}
use go_personal_web.GoStd.Time.{Time}
use go_personal_web.GoStd.Strings.{has_prefix}
use go_personal_web.GoStd.Net.{split_host_port}
use go_personal_web.GoStd.Urls.{query_escape, parses_rooted}
use go_personal_web.Http.{
  Request, Response, LogLevel, warn, error, get, form_value, empty_response, see_other, with_header,
  with_cookie,
}
use go_personal_web.View.{Nav, nav_none, Component, LoginForm}
use go_personal_web.View
use go_personal_web.Admin.Session.{Session, Sessions, issue, verify, clear}
use go_personal_web.Admin.Limiter.{Limiter, allow, reset}
use go_personal_web.Admin.Password.{KeyFunction, verify_password}
use go_personal_web.Admin.Render.{Reply, Screen, is_htmx, render, bad_request}

-- What a failed login says, whatever the reason.
unfoldable pub refused : Bytes
refused = codes "That did not work."

-- What a handler does besides its state and its reply: a line of the log, or the work of argon2id on
-- a password.
pub data Effect : Type 0 where
  logged : LogLevel → (message : Bytes) → Effect
  derived : (password : Bytes) → Effect

pub record LoginOutcome : Type 0 where
  pub logins : Limiter
  pub reply : Reply
  pub effects : List Effect

-- `clientIP`
unfoldable pub client_ip : Request → Bytes
client_ip r = elim (split_host_port r.remote_addr) [ none ↦ r.remote_addr | some host ↦ host ]

-- `returnPath`
unfoldable pub return_path : Request → Bytes
return_path r =
    if not (r.method =ᵇ codes "GET")
    then []
    else if r.path =ᵇ codes "/admin/login"
    then []
    else r.request_uri

-- Where `rejectUnauthenticated` sends the browser.
unfoldable pub login_url : Request → Bytes
unfolding return_path
login_url r =
    if return_path r =ᵇ []
    then codes "/admin/login"
    else codes "/admin/login" ++ (codes "?next=" ++ query_escape (return_path r))

unfoldable pub reject_unauthenticated : Request → Reply
unfolding login_url
reject_unauthenticated r =
    if is_htmx r
    then with_header (codes "HX-Redirect") (login_url r) (empty_response 401)
    else see_other (login_url r)

-- `safeNext`
unfoldable pub safe_next : Bytes → Bytes
safe_next next =
    if (next =ᵇ []) || not (has_prefix next (codes "/admin")) || has_prefix next (codes "//")
    then codes "/admin/posts"
    else if parses_rooted next
    then next
    else codes "/admin/posts"

unfoldable pub login_form : Request → Reply
unfolding safe_next
login_form r = render r (record {
  title = codes "Log in";
  nav = nav_none;
  body = View.login (record { next = safe_next (get (codes "next") r.query); error = [] });
  fragment = none;
  status = 0;
})

unfoldable pub render_login_failure : Request → Bytes → ℕ → Reply
unfolding refused
render_login_failure r next status = render r (record {
  title = codes "Log in";
  nav = nav_none;
  body = View.login (record { next = next; error = refused });
  fragment = none;
  status = status;
})

unfoldable pub logout : Sessions → Reply
logout s = with_cookie (clear s) (see_other (codes "/admin/login"))

module _ (hmac : Bytes → Bytes → Bytes) where
  -- `requireSession`: `next` runs only with a session.
  unfoldable pub require_session {ℓ} :
      {S : Type ℓ} → Sessions → Time → (Request → S → Reply × S) → Request → S → Reply × S
  require_session s now next r st = elim (verify hmac s now r) [
    | none ↦ (reject_unauthenticated r, st)
    | some sess ↦ next r st
  ]

module _ (hmac : Bytes → Bytes → Bytes) (id_key : KeyFunction) where
  -- The part of `login` behind the limiter.
  unfoldable pub check_password : Sessions → Bytes → Time → Limiter → Request → LoginOutcome
  check_password s hash now l r =
      let password = form_value r (codes "password") in
      let next = safe_next (form_value r (codes "next")) in
      elim (verify_password id_key hash password) [
        | none ↦ record {
          logins = l;
          reply = render_login_failure r next 401;
          effects = logged error (codes "admin: password hash is unusable") ∷ [];
        }
        | some false ↦ record {
          logins = l;
          reply = render_login_failure r next 401;
          effects = derived password ∷ [];
        }
        | some true ↦ record {
          logins = reset l (client_ip r);
          reply = with_cookie (issue hmac s now) (see_other next);
          effects = derived password ∷ [];
        }
      ]

  -- `login`; `hash` is the configured password hash.
  unfoldable pub login : Sessions → Bytes → Time → Limiter → Request → LoginOutcome
  unfolding check_password
  login s hash now l r = elim r.form [
    | none ↦ record { logins = l; reply = bad_request; effects = [] }
    | some form ↦
        if (allow l (client_ip r) now).1
        then check_password s hash now (allow l (client_ip r) now).0 r
        else record {
          logins = (allow l (client_ip r) now).0;
          reply = render_login_failure r (safe_next (form_value r (codes "next"))) 429;
          effects = logged warn (codes "admin: login attempts refused") ∷ [];
        }
  ]
