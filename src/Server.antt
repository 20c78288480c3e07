-- ===== src/Server.antt =====
-- internal/server/server.go: the routes of the process, and what internal/admin's `New` builds from the
-- configuration. Paths are those that `http.ServeMux` takes as they are.
pub mod Run
pub mod Fresh
use go_personal_web.Prelude.{
  ℕ, ◌≡◌, refl, ◌∙◌, sym, Bool, true, false, ◌&&◌, Option, none, some, List, [], ◌∷◌, Bytes, ◌=ᵇ◌,
  codes, if◌then◌else◌, arith,
}
use go_personal_web.GoStd.Time.{Time}
use go_personal_web.GoStd.Strings.{has_prefix}
use go_personal_web.View.{Zone}
use go_personal_web.Http.{Request, with_header}
use go_personal_web.Content.{UuidNumber}
use go_personal_web.Config.{Url, Config, Timeout, is_set, enabled, location, validate}
use go_personal_web.Config.Validity.{Visits, validate_iff}
use go_personal_web.Admin.Session.{new_sessions}
use go_personal_web.Admin.Limiter.{Limiter, new_limiter}
use go_personal_web.Admin.Password.{KeyFunction}
use go_personal_web.Admin.Render.{Reply, text, http_error}
use go_personal_web.Admin.Store.{Store}
use go_personal_web.Admin.Assets.{page_not_found}
use go_personal_web.Admin.Routes.{Surface, Outcome, is_get, serve}

-- What lies outside the repository.
pub record Outside : Type 0 where
  pub hmac : Bytes → Bytes → Bytes
  pub id_key : KeyFunction
  pub from_string : Bytes → Option UuidNumber
  pub print_id : UuidNumber → Bytes
  pub load_location : Bytes → Option Zone
  pub utc : Zone

-- `admin.New`: the handler, and its limiter at the start.
abbrev pub new_surface : Outside → Store → Config → Surface
new_surface o store c = record {
  store = store;
  sessions = new_sessions c.admin.session_secret c.admin.session_ttl c.admin.insecure_cookie;
  hash = c.admin.password_hash;
  editor = record {
    zone = location o.load_location o.utc c.admin;
    from_string = o.from_string;
    print_id = o.print_id;
  };
  hmac = o.hmac;
  id_key = o.id_key;
}

unfoldable pub new_logins : Config → Limiter
unfolding new_limiter
new_logins c = new_limiter c.admin.login_attempts c.admin.login_window

-- `fmt.Fprintln(w, line)` under a status.
unfoldable pub plain : ℕ → Bytes → Reply
plain status line = record {
  status = status;
  headers = (codes "Content-Type", codes "text/plain; charset=utf-8") ∷ [];
  cookies = [];
  redirect = none;
  body = some (text line);
}

unfoldable pub healthz : Reply
unfolding plain
healthz = plain 200 (codes "ok\n")

-- `answers` says whether `database.Ping` succeeds.
unfoldable pub readyz : (answers : Bool) → Reply
unfolding plain
readyz answers =
    if answers then plain 200 (codes "ok\n") else plain 503 (codes "database unavailable\n")

unfoldable pub get_only : Request → Reply → Reply
unfolding is_get http_error with_header
get_only r reply =
    if is_get r
    then reply
    else with_header (codes "Allow") (codes "GET, HEAD")
        (http_error (codes "Method Not Allowed") 405)

module _ (o : Outside) (store : Store) (c : Config) where
  -- `routes`, on one request.
  unfoldable pub respond :
      (answers : Bool)
      → (others : ℕ → store.State → store.State) → (ℕ → Time)
      → Request
      → Limiter
      → store.State
      → Outcome store.State
  unfolding enabled serve healthz readyz get_only page_not_found
  respond answers others clock r l st =
      if enabled c.admin && has_prefix r.path (codes "/admin/")
      then serve (new_surface o store c) others clock r l st
      else record {
        logins = l;
        state = st;
        reply =
            if r.path =ᵇ codes "/healthz"
            then get_only r healthz
            else if r.path =ᵇ codes "/readyz"
            then get_only r (readyz answers)
            else page_not_found;
        effects = [];
      }

elsewhere :
    (p : Bytes)
    → has_prefix p (codes "/admin/") ≡ true
    → ((p =ᵇ codes "/healthz") ≡ false) × ((p =ᵇ codes "/readyz") ≡ false)
unfolding has_prefix codes ◌=ᵇ◌
elsewhere [] h = (refl, refl)
elsewhere (a ∷ []) h = ground arith
elsewhere (a ∷ b ∷ p) h = ground arith

module _ (o : Outside) (parse : Bytes → Option Url) (order : List Timeout) (c : Config)
    (store : Store) (answers : Bool) (others : ℕ → store.State → store.State) (clock : ℕ → Time)
    (r : Request) (l : Limiter) (st : store.State) (visits : (t : Timeout) → Visits t order)
    (valid : validate parse o.load_location order c ≡ none)
    (under : has_prefix r.path (codes "/admin/") ≡ true) where
  together : is_set c.admin.password_hash ≡ is_set c.admin.session_secret
  together =
      let (_, _, _, (_, _, _, _, both), _) =
        (validate_iff parse o.load_location order c visits).0 valid in
      both

  -- With a validated configuration that has a password hash, every request under "/admin/" goes to the
  -- Admin surface, and the sessions of that surface have a key.
  pub admin_mounted :
      is_set c.admin.password_hash ≡ true
      → (is_set (new_surface o store c).sessions.key ≡ true)
        × (respond o store c answers others clock r l st
            ≡ serve (new_surface o store c) others clock r l st)
  unfolding respond enabled new_sessions
  admin_mounted set = (sym together ∙ set, rw (set, sym together ∙ set, under))

  -- With a validated configuration that has no password hash, every request under "/admin/" is answered 404 and
  -- touches nothing.
  pub admin_absent :
      is_set c.admin.password_hash ≡ false
      → respond o store c answers others clock r l st
        ≡ record { logins = l; state = st; reply = page_not_found; effects = [] }
  unfolding respond enabled
  admin_absent unset =
      let (not_health, not_ready) = elsewhere r.path under in rw (unset, not_health, not_ready)
