-- ===== src/Tests/Login.antt =====
-- Logging in with a concrete key function: the limiter, the hash, the work and the redirect.
use go_personal_web.Prelude.{
  ℕ, ◌+◌, ◌≤◌, ◌<◌, min, ◌≡◌, ◌∙◌, ap, wrap64, ◌≢◌, ◌↔◌, refl, true, false, none, some, [], ◌∷◌,
  ◌++◌, Bytes, codes, pos, ltb_ℤ, arith, if◌then◌else◌, ◌=ᵇ◌, =ᵇ_refl, floor_div, ◌+ℤ◌, ◌-ℤ◌,
  clamp64,
}
use go_personal_web.GoStd.Time.{add, unix, since}
use go_personal_web.GoStd.Net.{split_host_port}
use go_personal_web.GoStd.Strings.{cut, split}
use go_personal_web.GoStd.Urls.{
  parse_query, raw_query, parses_rooted, parses_reference, before_query,
}
use go_personal_web.Http.{
  Request, Pairs, Cookie, find_pair, get, form_value, see_other, empty_response, with_cookie,
}
use go_personal_web.Admin.Session.{cookie_name, payload, issue}
use go_personal_web.Admin.Limiter.{
  Limiter, new_limiter, allow, find, put, bump, drop_expired, is_expired,
}
use go_personal_web.Admin.Limiter.Windows.{live, granted, allow-granted}
use go_personal_web.Admin.Limiter.Bound.{Attempts, made, passed, Within, passed-Within}
use go_personal_web.Admin.Password.{argon2_params, hash_password, format_hash, verify_password}
use go_personal_web.Admin.Password.RoundTrip.{IsParams, verify_password-hash_password}
use go_personal_web.Admin.Render.{Reply}
use go_personal_web.Admin.Auth.{
  client_ip, check_password, login, return_path, login_url, require_session, reject_unauthenticated,
  safe_next,
}
use go_personal_web.Admin.Auth.Redirect.{
  names_host, login_redirect-IsRooted, login_leaves_host, login_url_roundtrip,
}
use go_personal_web.GoStd.Paths.{redirect_target}
use go_personal_web.GoStd.Paths.Laws.{IsRooted}
use go_personal_web.Admin.Auth.Login.{
  derivations, login_limited, login_sets_cookie, login_opens_session,
}
use go_personal_web.Admin.Auth.Work.{attempts_of, work, guessing_work}
use go_personal_web.Admin.Auth.Attempts.{tried, recent, tried-le-length}
use go_personal_web.Admin.Auth.Access.{logins_after, author_let_in}
use go_personal_web.Tests.Data.{mac, derive, at, sessions, logins, request}

abbrev pub salt : Bytes
salt = 1 ∷ 2 ∷ 3 ∷ []

abbrev key : Bytes → Bytes
key password =
    derive password salt argon2_params.time argon2_params.memory argon2_params.threads
      argon2_params.key_len

abbrev pub hash : Bytes
hash = format_hash argon2_params salt (key (7 ∷ 8 ∷ []))

verify_password-hash_password_example :
    (verify_password derive hash (7 ∷ 9 ∷ []) ≡ some (key (7 ∷ 9 ∷ []) =ᵇ key (7 ∷ 8 ∷ [])))
    × (verify_password derive hash (7 ∷ 8 ∷ []) ≡ some true)
verify_password-hash_password_example =
    verify_password-hash_password derive argon2_params salt (7 ∷ 8 ∷ []) (7 ∷ 9 ∷ []) hash
      (record { memory_fits = omega arith; time_fits = omega arith; threads_fit = omega arith })
      (omega arith) (omega arith) refl (omega arith) (unfold hash_password in refl)

-- An address and what it sends within a window.
abbrev address : Bytes
address = codes "192.0.2.1"

abbrev attempts : Attempts
attempts = (at 1, address) ∷ (at 2, codes "192.0.2.2") ∷ (at 3, address) ∷ []

attempts-Within : Within (logins 2).window (at 0) attempts
unfolding is_expired since ◌-ℤ◌ clamp64
attempts-Within = (refl, (refl, (refl, tt)))

passed-Within_example :
    passed address (logins 2) ((at 0, address) ∷ attempts)
    ≡ min (made address ((at 0, address) ∷ attempts)) 2
passed-Within_example =
    passed-Within (logins 2) address 2 (at 0) attempts tt refl (omega arith)
      (unfold live find in refl) attempts-Within (omega arith)

abbrev guess : Pairs
guess = (codes "password", 7 ∷ 9 ∷ []) ∷ []

abbrev guessing : Request
guessing = request (codes "POST") (codes "/admin/login") [] (some guess)

fits : IsParams argon2_params
fits = record { memory_fits = omega arith; time_fits = omega arith; threads_fit = omega arith }

made_with :
    (tried : Bytes) → verify_password derive hash tried ≡ some (key tried =ᵇ key (7 ∷ 8 ∷ []))
made_with tried =
    (verify_password-hash_password derive argon2_params salt (7 ∷ 8 ∷ []) tried hash fits
      (omega arith) (omega arith) refl (omega arith) (unfold hash_password in refl)).0

wrong : verify_password derive hash (form_value guessing (codes "password")) ≢ some true
unfolding form_value get find_pair ◌=ᵇ◌ codes
wrong e =
    let answer : verify_password derive hash (7 ∷ 9 ∷ []) ≡ some false = made_with (7 ∷ 9 ∷ []) in
    cc

guessing-Within :
    Within (logins 2).window (at 0) (attempts_of ((at 1, guessing) ∷ (at 2, guessing) ∷ []))
unfolding is_expired since ◌-ℤ◌ clamp64 attempts_of
guessing-Within = (refl, (refl, tt))

guessing_work_example :
    work mac derive sessions hash
      (client_ip guessing)
      (logins 2)
      ((at 0, guessing) ∷ (at 1, guessing) ∷ (at 2, guessing) ∷ [])
    ≤ 2
guessing_work_example =
    guessing_work mac derive sessions hash (logins 2) 2 (at 0) guessing
      ((at 1, guessing) ∷ (at 2, guessing) ∷ []) tt refl (omega arith) (unfold live find in refl)
      (λ e. cc) (wrong, (wrong, (wrong, tt))) guessing-Within (unfold attempts_of in omega arith)

-- A limiter whose only attempt of the address is spent, and one that has not seen it.
abbrev spent : Limiter
spent = record (logins 1) {
  windows = (client_ip guessing, record { count = pos 1; started = at 0 }) ∷ [];
}

limited : (allow spent (client_ip guessing) (at 1)).1 ≡ false
unfolding client_ip split_host_port codes ◌=ᵇ◌ allow drop_expired is_expired since ◌-ℤ◌ clamp64 find
    bump put wrap64 ◌+ℤ◌
limited = refl

not_limited : (allow (logins 1) (client_ip guessing) (at 1)).1 ≡ true
not_limited =
    allow-granted (logins 1) (client_ip guessing) (at 1) tt ∙ (unfold live find granted in refl)

abbrev other_guess : Pairs
other_guess = (codes "password", 7 ∷ 8 ∷ []) ∷ []

login_limited_example :
    (login mac derive sessions hash (at 1) spent guessing
      ≡ login mac derive sessions [] (at 1) spent (record guessing { form = some other_guess }))
    × (derivations (login mac derive sessions hash (at 1) spent guessing).effects ≡ 0)
    × ((login mac derive sessions hash (at 1) spent guessing).reply.status ≡ 429)
login_limited_example =
    login_limited mac derive derive sessions hash [] (at 1) spent guessing guess other_guess refl
      (unfold get find_pair ◌=ᵇ◌ codes in refl) limited

login_sets_cookie_example :
    ((login mac derive sessions hash (at 1) (logins 1) guessing).reply.cookies ≢ []) ↔ (
      (guessing.form ≢ none)
      × ((allow (logins 1) (client_ip guessing) (at 1)).1 ≡ true)
      × (verify_password derive hash (form_value guessing (codes "password")) ≡ some true))
login_sets_cookie_example = login_sets_cookie mac derive sessions hash (at 1) (logins 1) guessing

abbrev right : Request
right = request (codes "POST") (codes "/admin/login") [] (some other_guess)

abbrev issued : Cookie
issued = issue mac sessions (at 1)

accepted : verify_password derive hash (7 ∷ 8 ∷ []) ≡ some true
accepted = made_with (7 ∷ 8 ∷ []) ∙ ap some (=ᵇ_refl (key (7 ∷ 8 ∷ [])))

right_allowed : (allow (logins 1) (client_ip right) (at 1)).1 ≡ true
right_allowed =
    allow-granted (logins 1) (client_ip right) (at 1) tt ∙ (unfold live find granted in refl)

set : (login mac derive sessions hash (at 1) (logins 1) right).reply.cookies ≡ issued ∷ []
unfolding login check_password with_cookie see_other empty_response form_value get find_pair ◌=ᵇ◌
    codes
set = rw (right_allowed, check_password, accepted)

abbrev returning : Request
returning = request (codes "GET") (codes "/admin/posts") ((cookie_name, issued.value) ∷ []) none

abbrev next : Request → ℕ → Reply × ℕ
next r n = (see_other (codes "/"), 1 + n)

login_opens_session_example : require_session mac sessions (at 60) next returning 0 ≡ (
    if ltb_ℤ (unix (at 60)) (unix (add (at 1) sessions.ttl))
    then next returning 0
    else (reject_unauthenticated returning, 0))
login_opens_session_example =
    login_opens_session mac derive sessions hash (at 1) (at 60) (logins 1) right returning issued
      next 0 set (unfold find_pair in rw =ᵇ_refl) (unfold unix floor_div ◌+ℤ◌ in omega arith)
      (unfold payload in omega arith)

-- A login that names no screen.
to_posts :
    (login mac derive sessions hash (at 1) (logins 1) right).reply.redirect
    ≡ some (codes "/admin/posts")
unfolding login check_password with_cookie see_other empty_response form_value get find_pair ◌=ᵇ◌
    codes safe_next redirect_target parses_reference parses_rooted before_query cut split
to_posts = rw (right_allowed, check_password, accepted)

login_redirect-IsRooted_example : IsRooted (codes "/admin/posts")
login_redirect-IsRooted_example =
    login_redirect-IsRooted mac derive sessions hash (at 1) (logins 1) right (codes "/admin/posts")
      to_posts

abbrev lured : Pairs
lured =
    (codes "password", 7 ∷ 8 ∷ [])
    ∷ (codes "next", codes "/admin/../" ++ b'\\' ∷ codes "evil.example")
    ∷ []

abbrev lured_request : Request
lured_request = record right { form = some lured }

login_leaves_host_example :
    ((login mac derive sessions hash (at 1) (logins 1) lured_request).reply.redirect
      ≡ some (b'/' ∷ b'\\' ∷ codes "evil.example"))
    × (names_host (b'/' ∷ b'\\' ∷ codes "evil.example") ≡ true)
unfolding client_ip
login_leaves_host_example =
    login_leaves_host mac derive sessions hash (at 1) (logins 1) lured_request lured
      (codes "evil.example") refl right_allowed
      (unfold form_value get find_pair ◌=ᵇ◌ codes in accepted)
      (unfold form_value get find_pair ◌=ᵇ◌ codes in refl) (unfold codes in omega arith)
      (unfold codes in omega arith)

abbrev asked : Request
asked = request (codes "GET") (codes "/admin/posts/new") [] none

login_url_roundtrip_example :
    get (codes "next") (parse_query (raw_query (login_url asked))) ≡ return_path asked
login_url_roundtrip_example =
    login_url_roundtrip asked (unfold return_path ◌=ᵇ◌ codes in λ e. cc)
      (unfold return_path ◌=ᵇ◌ codes in omega arith)

-- One wrong guess of the same address, and then the right password, with two attempts allowed.
abbrev knowing : Request
knowing = record guessing { form = some ((codes "password", 7 ∷ 8 ∷ []) ∷ []) }

knows : verify_password derive hash (form_value knowing (codes "password")) ≡ some true
unfolding form_value get find_pair codes ◌=ᵇ◌
knows =
    (verify_password-hash_password derive argon2_params salt (7 ∷ 8 ∷ []) (7 ∷ 9 ∷ []) hash fits
      (omega arith) (omega arith) refl (omega arith) (unfold hash_password in refl)).1

few : tried (recent (pos 900_000_000_000) (at 1)) (client_ip knowing) ((at 0, guessing) ∷ []) < 2
few = omega (
  arith,
  tried-le-length (recent (pos 900_000_000_000) (at 1)) (client_ip knowing) ((at 0, guessing) ∷ []),
)

author_let_in_example :
    (login mac derive sessions hash
      (at 1)
      (logins_after mac derive sessions hash
        (new_limiter (pos 2) (pos 900_000_000_000))
        ((at 0, guessing) ∷ []))
      knowing).reply.cookies
    ≢ []
author_let_in_example =
    author_let_in mac derive sessions hash 2 (pos 900_000_000_000) ((at 0, guessing) ∷ []) (at 1)
      knowing ((omega arith, tt), (tt, tt)) (omega arith) (λ e. cc) knows few
