-- ===== src/Admin/Routes.antt =====
-- internal/admin/admin.go: which handler answers a request, and what stands in front of it. The
-- muxes are modelled on clean paths without escapes that begin with "/admin/", which are those that
-- internal/server hands over as they are; `http.ServeMux` redirects or unescapes the others itself.
pub mod Table
pub mod Safety
pub mod Histories
use go_personal_web.Prelude.{
  ℕ, suc, Bool, true, false, not, ◌&&◌, ◌||◌, Option, none, some, List, [], ◌∷◌, ◌++◌, Bytes, ◌=ᵇ◌,
  codes, if◌then◌else◌,
}
use go_personal_web.GoStd.Time.{Time}
use go_personal_web.GoStd.Strings.{split, has_prefix}
use go_personal_web.Http.{Request, see_other, with_header}
use go_personal_web.Content.{UuidNumber}
use go_personal_web.Admin.Session.{Sessions}
use go_personal_web.Admin.Limiter.{Limiter}
use go_personal_web.Admin.Password.{KeyFunction}
use go_personal_web.Admin.Render.{Reply, http_error}
use go_personal_web.Admin.Store.{Store}
use go_personal_web.Admin.Writing.{Editor, blank, edit}
use go_personal_web.Admin.Writing.Handlers.{save, autosave}
use go_personal_web.Admin.Writing.Resources.{Resource, posts, pages}
use go_personal_web.Admin.Lists.{list_posts, list_pages}
use go_personal_web.Admin.Auth.{Effect, LoginOutcome, login_form, login, logout, require_session}
use go_personal_web.Admin.Assets.{serve_asset, page_not_found, secured}

pub data Kind : Type 0 where
  post page : Kind

-- The handlers behind the guard, with the `{id}` of the path.
pub data Action : Type 0 where
  log_out home : Action
  list new_form create : Kind → Action
  edit_form update draft : Kind → (id : Bytes) → Action

-- A pattern's method; one for GET also serves HEAD.
pub data Method : Type 0 where
  get_head post_only : Method

unfoldable pub kind_of : Bytes → Option Kind
kind_of s = if s =ᵇ codes "posts" then some post else if s =ᵇ codes "pages" then some page else none

abbrev one_segment : Bytes → Option Kind → List (Method × Action)
one_segment b (some k) = (get_head, list k) ∷ (post_only, create k) ∷ []
one_segment b none =
    if b =ᵇ []
    then (get_head, home) ∷ []
    else if b =ᵇ codes "logout"
    then (post_only, log_out) ∷ []
    else []

abbrev two_segments : Bytes → Option Kind → List (Method × Action)
two_segments c none = []
two_segments [] (some k) = []
two_segments (x ∷ c) (some k) =
    if x ∷ c =ᵇ codes "new"
    then (get_head, new_form k) ∷ (post_only, update k (x ∷ c)) ∷ []
    else (post_only, update k (x ∷ c)) ∷ []

abbrev three_segments : Bytes → Bytes → Option Kind → List (Method × Action)
three_segments c d none = []
three_segments [] d (some k) = []
three_segments (x ∷ c) d (some k) =
    if d =ᵇ codes "edit"
    then (get_head, edit_form k (x ∷ c)) ∷ []
    else if d =ᵇ codes "autosave"
    then (post_only, draft k (x ∷ c)) ∷ []
    else []

-- The patterns of `guarded` that match a path's segments.
unfoldable pub guarded_patterns : List Bytes → List (Method × Action)
unfolding kind_of
guarded_patterns (root ∷ admin ∷ b ∷ []) = one_segment b (kind_of b)
guarded_patterns (root ∷ admin ∷ b ∷ c ∷ []) = two_segments c (kind_of b)
guarded_patterns (root ∷ admin ∷ b ∷ c ∷ d ∷ []) = three_segments c d (kind_of b)
guarded_patterns _ = []

unfoldable pub method_matches : Method → Bytes → Bool
method_matches get_head method = (method =ᵇ codes "GET") || (method =ᵇ codes "HEAD")
method_matches post_only method = method =ᵇ codes "POST"

-- What a mux makes of the patterns that match the path.
pub data Match : Type 0 where
  matched : Action → Match
  -- The path has patterns, for the methods of `Allow` alone.
  wrong_method : (allow : Bytes) → Match
  no_match : Match

unfoldable pub select : Bytes → List (Method × Action) → Option Action
unfolding method_matches
select method [] = none
select method ((m, a) ∷ rest) = if method_matches m method then some a else select method rest

-- The value of the `Allow` header.
unfoldable pub allowed : List (Method × Action) → Bytes
allowed [] = []
allowed ((get_head, a) ∷ []) = codes "GET, HEAD"
allowed ((post_only, a) ∷ []) = codes "POST"
allowed (p ∷ q ∷ rest) = codes "GET, HEAD, POST"

abbrev matched_by : Option Action → List (Method × Action) → Match
matched_by (some action) patterns = matched action
matched_by none [] = no_match
matched_by none (p ∷ rest) = wrong_method (allowed (p ∷ rest))

unfoldable pub guarded_match : Bytes → Bytes → Match
unfolding guarded_patterns select allowed
guarded_match method path =
    let patterns = guarded_patterns (split b'/' path) in
    matched_by (select method patterns) patterns

-- The patterns of the outer mux.
unfoldable pub is_get : Request → Bool
is_get r = (r.method =ᵇ codes "GET") || (r.method =ᵇ codes "HEAD")

unfoldable pub is_login_form : Request → Bool
unfolding is_get
is_login_form r = (r.path =ᵇ codes "/admin/login") && is_get r

unfoldable pub is_login : Request → Bool
is_login r = (r.path =ᵇ codes "/admin/login") && (r.method =ᵇ codes "POST")

unfoldable pub is_asset : Request → Bool
unfolding is_get
is_asset r = has_prefix r.path (codes "/admin/static/") && is_get r

-- What `New` puts into the handler, with what the handlers call outside the repository.
pub record Surface : Type 1 where
  pub store : Store
  pub sessions : Sessions
  pub hash : Bytes
  pub editor : Editor
  pub hmac : Bytes → Bytes → Bytes
  pub id_key : KeyFunction

-- The state of the server: the limiter and the store.
pub record Outcome (S : Type 0) : Type 0 where
  pub logins : Limiter
  pub state : S
  pub reply : Reply
  pub effects : List Effect

abbrev with_id : Request → Bytes → Request
with_id r id = record r { path_id = id }

module _ (h : Surface) where
  open h use {store, sessions, editor, hmac, id_key}

  abbrev pub resource : Kind → Resource store.State
  resource post = posts store
  resource page = pages store

  abbrev listed : Kind → Time → Request → store.State → Reply
  listed post now r st = list_posts store editor.zone now r st
  listed page now r st = list_pages store editor.zone now r st

  -- The handler of a pattern.
  unfoldable pub handle :
      Action
      → (others : ℕ → store.State → store.State) → (ℕ → Time)
      → Request
      → store.State
      → store.State × Reply
  unfolding posts pages list_posts list_pages blank edit save autosave logout see_other
  handle log_out others clock r st = (st, logout sessions)
  handle home others clock r st = (st, see_other (codes "/admin/posts"))
  handle (list k) others clock r st = (st, listed k (clock 0) r st)
  handle (new_form k) others clock r st = blank editor (resource k) r st
  handle (create k) others clock r st = save editor (resource k) true others clock r st
  handle (edit_form k id) others clock r st = edit editor (resource k) clock (with_id r id) st
  handle (update k id) others clock r st =
      save editor (resource k) false others clock (with_id r id) st
  handle (draft k id) others clock r st =
      autosave editor (resource k) others clock (with_id r id) st

  -- The mux `guarded`.
  unfoldable pub dispatch :
      Match
      → (others : ℕ → store.State → store.State) → (ℕ → Time)
      → Request
      → store.State
      → store.State × Reply
  unfolding handle page_not_found http_error with_header
  dispatch (matched action) others clock r st = handle action others clock r st
  dispatch (wrong_method allow) others clock r st =
      (st, with_header (codes "Allow") allow (http_error (codes "Method Not Allowed") 405))
  dispatch no_match others clock r st = (st, page_not_found)

  abbrev swap : {A B : Type 0} → A × B → B × A
  swap (a, b) = (b, a)

  -- `h.requireSession(guarded)`; the guard reads the clock first.
  unfoldable pub guard :
      (others : ℕ → store.State → store.State)
      → (ℕ → Time)
      → Request
      → store.State
      → store.State × Reply
  unfolding require_session guarded_match dispatch
  guard others clock r st = swap (
      require_session hmac sessions (clock 0)
        (λ r' st'.
          swap (dispatch (guarded_match r'.method r'.path) others (λ i. clock (suc i)) r' st'))
        r st)

  abbrev of_login : store.State → LoginOutcome → Outcome store.State
  of_login st out = record {
    logins = out.logins;
    state = st;
    reply = secured out.reply;
    effects = out.effects;
  }

  -- `routes`, on one request.
  unfoldable pub serve :
      (others : ℕ → store.State → store.State)
      → (ℕ → Time)
      → Request
      → Limiter
      → store.State
      → Outcome store.State
  unfolding is_login_form is_login is_asset login_form login serve_asset guard secured
  serve others clock r l st =
      if is_login_form r
      then record { logins = l; state = st; reply = secured (login_form r); effects = [] }
      else if is_login r
      then of_login st (login hmac id_key sessions h.hash (clock 0) l r)
      else if is_asset r
      then record { logins = l; state = st; reply = secured (serve_asset r); effects = [] }
      else (let (st', reply) = guard others clock r st in
          record { logins = l; state = st'; reply = secured reply; effects = [] })
