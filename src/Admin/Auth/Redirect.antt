-- ===== src/Admin/Auth/Redirect.antt =====
-- Where a login sends the browser, and how the screen that was asked for survives it.
use go_personal_web.Prelude.{
  ℕ, Bool, ◌==◌, ◌||◌, ◌&&◌, ◌≡◌, ◌≢◌, inl, refl, true, false, some, [], ◌∷◌, ◌++◌, Bytes, ◌=ᵇ◌,
  =ᵇ_iff, =ᵇ_refl, codes, arith, All, All-append, IsByte, Lacks,
}
use go_personal_web.GoStd.Strings.{has_prefix}
use go_personal_web.GoStd.Urls.{
  query_escape, parses_rooted, raw_query, parse_query, parse_part, query_unescape,
}
use go_personal_web.GoStd.Urls.Laws.{
  query_escape-Lacks, parse_query_one, parse_part_pair, raw_query-append,
}
use go_personal_web.GoStd.Time.{Time}
use go_personal_web.GoStd.Paths.{redirect_target}
use go_personal_web.GoStd.Paths.Laws.{IsRooted, redirect_target-IsRooted}
use go_personal_web.GoStd.Paths.Backslash.{
  IsPlain, parses_rooted-plain, up-IsPlain, redirect_target-up,
}
use go_personal_web.Http.{Request, Pairs, get, form_value, with_cookie, see_other, empty_response}
use go_personal_web.Admin.Session.{Sessions}
use go_personal_web.Admin.Limiter.{Limiter, allow}
use go_personal_web.Admin.Password.{KeyFunction, verify_password}
use go_personal_web.Admin.Render.{render, bad_request}
use go_personal_web.Admin.Auth.{
  safe_next, login_url, return_path, client_ip, check_password, login, render_login_failure,
}

-- What a return path is once it has passed `safeNext`.
record IsLocal (next : Bytes) : Type 0 where
  in_admin : has_prefix next (codes "/admin") ≡ true
  one_slash : has_prefix next (codes "//") ≡ false
  parses : parses_rooted next ≡ true

posts_IsLocal : IsLocal (codes "/admin/posts")
unfolding codes has_prefix parses_rooted
posts_IsLocal = record { in_admin = refl; one_slash = refl; parses = refl }

safe_next-IsLocal : (next : Bytes) → IsLocal (safe_next next)
unfolding safe_next
safe_next-IsLocal next = ground (arith, posts_IsLocal)

local-IsRooted : (s : Bytes) → IsLocal s → IsRooted s
unfolding has_prefix codes
local-IsRooted [] h = absurd (let e = h.in_admin in cc)
local-IsRooted (c ∷ s) h = record {
  slash = (let e = h.in_admin in ground arith);
  one_slash = h.one_slash;
}

safe_next_up :
    (name : Bytes)
    → All IsPlain name
    → safe_next (codes "/admin/../" ++ b'\\' ∷ name) ≡ codes "/admin/../" ++ b'\\' ∷ name
unfolding safe_next
safe_next_up name h =
    rw (parses_rooted-plain _ (up-IsPlain name h)) (unfold codes has_prefix ◌=ᵇ◌ in refl)

is_slash : ℕ → Bool
is_slash c = c == b'/' || c == b'\\'

-- Where a browser takes a `Location` for an address of another host: the URL standard (WHATWG) reads a
-- backslash in an http address as a slash, and two slashes as the beginning of a host.
unfoldable pub names_host : Bytes → Bool
unfolding is_slash
names_host [] = false
names_host (c ∷ []) = false
names_host (c ∷ d ∷ s) = is_slash c && is_slash d

module _ (hmac : Bytes → Bytes → Bytes) (id_key : KeyFunction) (s : Sessions) (hash : Bytes)
    (now : Time) (l : Limiter) (r : Request) where
  -- Whatever a request asks for, where a login redirects, the `Location` begins with a slash and not with
  -- two, once `http.Redirect` has cleaned the path.
  pub login_redirect-IsRooted :
      (to : Bytes) → (login hmac id_key s hash now l r).reply.redirect ≡ some to → IsRooted to
  unfolding login check_password bad_request render_login_failure render with_cookie see_other
      empty_response
  login_redirect-IsRooted to e =
      let next = safe_next (form_value r (codes "next")) in
      let here : IsRooted (redirect_target next) =
        redirect_target-IsRooted next (local-IsRooted next (safe_next-IsLocal _)) in
      ground (arith, e, here)

  -- Where the form is read, the limiter lets the attempt through, the password is the right one, and `next` is
  -- the path `/admin/../\` with a name behind it, of printable ASCII without a slash, `#`, `%` or `?`: the
  -- login redirects to `/\` and that name, which a browser takes for an address of another host.
  pub login_leaves_host :
      (form : Pairs) (name : Bytes)
      → r.form ≡ some form
      → (allow l (client_ip r) now).1 ≡ true
      → verify_password id_key hash (form_value r (codes "password")) ≡ some true
      → form_value r (codes "next") ≡ codes "/admin/../" ++ b'\\' ∷ name
      → All IsPlain name
      → Lacks b'/' name
      → ((login hmac id_key s hash now l r).reply.redirect ≡ some (b'/' ∷ b'\\' ∷ name))
        × (names_host (b'/' ∷ b'\\' ∷ name) ≡ true)
  unfolding names_host login check_password with_cookie see_other empty_response
  login_leaves_host form name sent allowed right asks plain lacks = (
    rw
        (
          login,
          sent,
          allowed,
          check_password,
          right,
          asks,
          safe_next_up name plain,
          redirect_target-up name plain lacks,
        )
        refl,
    refl,
  )

pair_read :
    (uri : Bytes)
    → All IsByte uri
    → parse_part (codes "next" ++ b'=' ∷ query_escape uri) ≡ (codes "next", uri) ∷ []
unfolding codes
pair_read uri h =
    parse_part_pair (codes "next") uri (cc) (omega arith) (omega arith)
      (unfold query_unescape in refl) h

login_url_asked :
    (r : Request)
    → return_path r ≢ []
    → login_url r
      ≡ codes "/admin/login" ++ b'?' ∷ (codes "next" ++ b'=' ∷ query_escape (return_path r))
login_url_asked r ne =
    let asked : (return_path r =ᵇ []) ≡ false = ground (arith, =ᵇ_iff (return_path r) []) in
    unfold login_url codes in rw asked

next_Lacks : (uri : Bytes) → All IsByte uri → Lacks b'&' (codes "next" ++ b'=' ∷ query_escape uri)
unfolding codes
next_Lacks uri h =
    All-append _ (codes "next") (b'=' ∷ query_escape uri) (omega arith)
      ((λ e. omega arith), query_escape-Lacks b'&' uri (inl refl) h)

get_first : (key value : Bytes) → get key ((key, value) ∷ []) ≡ value
unfolding get
get_first key value = ground (arith, =ᵇ_refl key)

login_Lacks : Lacks b'?' (codes "/admin/login")
unfolding codes
login_Lacks = omega arith

-- The screen that a redirect to the login form names, where it names one, is what the form reads
-- back from its query.
pub login_url_roundtrip :
    (r : Request)
    → return_path r ≢ []
    → All IsByte (return_path r)
    → get (codes "next") (parse_query (raw_query (login_url r))) ≡ return_path r
login_url_roundtrip r ne h = rw (
  login_url_asked r ne,
  raw_query-append (codes "/admin/login") (codes "next" ++ b'=' ∷ query_escape (return_path r))
      login_Lacks,
  parse_query_one (codes "next" ++ b'=' ∷ query_escape (return_path r)) (next_Lacks _ h),
  pair_read (return_path r) h,
  get_first (codes "next") (return_path r),
)
