-- ===== src/Admin/Auth/Login.antt =====
-- What a login attempt costs, what it says, and what it opens.
use go_personal_web.Prelude.{
  ℕ, suc, ◌≡◌, ◌≢◌, ◌↔◌, ◌∙◌, ap, sym, refl, true, false, none, some, List, [], ◌∷◌, Bytes, codes,
  if◌then◌else◌, arith, All, IsByte, ltb_ℤ,
}
use go_personal_web.GoStd.Time.{Time, add, unix}
use go_personal_web.Http.{
  warn, with_cookie, see_other, empty_response, Request, Pairs, Cookie, get, form_value, find_pair,
}
use go_personal_web.Admin.Session.{Sessions, cookie_name, payload, issue}
use go_personal_web.Admin.Session.Deadline.{IsSane, verify-issue}
use go_personal_web.Admin.Limiter.{Limiter, allow}
use go_personal_web.Admin.Password.{KeyFunction, verify_password}
use go_personal_web.Admin.Render.{Reply, render, is_htmx, bad_request}
use go_personal_web.Admin.Auth.{
  Effect, logged, derived, LoginOutcome, client_ip, safe_next, render_login_failure,
  require_session, reject_unauthenticated, login,
}

-- How often argon2id has run.
unfoldable pub derivations : List Effect → ℕ
derivations [] = 0
derivations (logged level message ∷ es) = derivations es
derivations (derived password ∷ es) = suc (derivations es)

abbrev limited_outcome : Limiter → Time → Request → Bytes → LoginOutcome
limited_outcome l now r next = record {
  logins = (allow l (client_ip r) now).0;
  reply = render_login_failure r (safe_next next) 429;
  effects = logged warn (codes "admin: login attempts refused") ∷ [];
}

login-limited_outcome :
    (hmac : Bytes → Bytes → Bytes) (id_key : KeyFunction) (s : Sessions) (hash : Bytes) (now : Time)
    (l : Limiter) (r : Request) (form : Pairs)
    → r.form ≡ some form
    → (allow l (client_ip r) now).1 ≡ false
    → login hmac id_key s hash now l r ≡ limited_outcome l now r (get (codes "next") form)
unfolding login form_value get
login-limited_outcome hmac id_key s hash now l r form e limited = ground (arith, e, limited)

limited_form :
    (l : Limiter) (now : Time) (r : Request) (form : Pairs) (next : Bytes)
    → limited_outcome l now r next ≡ limited_outcome l now (record r { form = some form }) next
unfolding render render_login_failure client_ip is_htmx
limited_form l now r form next = refl

login-wrong_reply :
    (hmac : Bytes → Bytes → Bytes) (id_key : KeyFunction) (s : Sessions) (hash : Bytes) (now : Time)
    (l : Limiter) (r : Request) (form : Pairs)
    → r.form ≡ some form
    → (allow l (client_ip r) now).1 ≡ true
    → verify_password id_key hash (form_value r (codes "password")) ≢ some true
    → (login hmac id_key s hash now l r).reply
      ≡ render_login_failure r (safe_next (get (codes "next") form)) 401
unfolding login form_value get
login-wrong_reply hmac id_key s hash now l r form e allowed wrong = ground (arith, e, allowed)

status_only :
    (r : Request) (next : Bytes)
    → (render_login_failure r next 429 ≡ record (render_login_failure r next 401) { status = 429 })
      × (render_login_failure r next 401
          ≡ record (render_login_failure r next 429) { status = 401 })
unfolding render_login_failure render
status_only r next = (refl, refl)

-- The outcome of a refused attempt does not depend on the password, on the configured hash or on the
-- key function: two requests that differ in the form alone, and agree on its `next`, get the same
-- reply and leave the same limiter, and argon2id does not run.
pub login_limited :
    (hmac : Bytes → Bytes → Bytes) (id_key id_key' : KeyFunction) (s : Sessions)
    (hash hash' : Bytes) (now : Time) (l : Limiter) (r : Request) (form form' : Pairs)
    → r.form ≡ some form
    → get (codes "next") form ≡ get (codes "next") form'
    → (allow l (client_ip r) now).1 ≡ false
    → (login hmac id_key s hash now l r
        ≡ login hmac id_key' s hash' now l (record r { form = some form' }))
      × (derivations (login hmac id_key s hash now l r).effects ≡ 0)
      × ((login hmac id_key s hash now l r).reply.status ≡ 429)
unfolding derivations render render_login_failure client_ip
login_limited hmac id_key id_key' s hash hash' now l r form form' e n limited =
    let here = login-limited_outcome hmac id_key s hash now l r form e limited in
    let there =
      login-limited_outcome hmac id_key' s hash' now l (record r { form = some form' }) form' refl
        limited in
    (
      here ∙ ap (limited_outcome l now r) n ∙ limited_form l now r form' _ ∙ sym there,
      rw here refl,
      rw here refl,
    )

-- A limited attempt says what a wrong password says: the replies differ in the status alone.
pub limited_reads_like_wrong :
    (hmac : Bytes → Bytes → Bytes) (id_key : KeyFunction) (s : Sessions) (hash : Bytes) (now : Time)
    (l l' : Limiter) (r : Request) (form : Pairs)
    → r.form ≡ some form
    → (allow l (client_ip r) now).1 ≡ false
    → (allow l' (client_ip r) now).1 ≡ true
    → verify_password id_key hash (form_value r (codes "password")) ≢ some true
    → let limited = (login hmac id_key s hash now l r).reply in
      let wrong = (login hmac id_key s hash now l' r).reply in
      (limited ≡ record wrong { status = 429 }) × (wrong ≡ record limited { status = 401 })
limited_reads_like_wrong hmac id_key s hash now l l' r form e limited allowed wrong =
    rw
      (
        login-limited_outcome hmac id_key s hash now l r form e limited,
        login-wrong_reply hmac id_key s hash now l' r form e allowed wrong,
      )
      (status_only r (safe_next (get (codes "next") form)))

-- A session cookie is set exactly when the form was read, the limiter let the attempt through and the
-- password is the right one.
pub login_sets_cookie :
    (hmac : Bytes → Bytes → Bytes) (id_key : KeyFunction) (s : Sessions) (hash : Bytes) (now : Time)
    (l : Limiter) (r : Request)
    → ((login hmac id_key s hash now l r).reply.cookies ≢ []) ↔ (
        (r.form ≢ none)
        × ((allow l (client_ip r) now).1 ≡ true)
        × (verify_password id_key hash (form_value r (codes "password")) ≡ some true))
unfolding login bad_request render_login_failure render with_cookie
login_sets_cookie hmac id_key s hash now l r = ground arith

login_cookie :
    (hmac : Bytes → Bytes → Bytes) (id_key : KeyFunction) (s : Sessions) (hash : Bytes)
    (start : Time) (l : Limiter) (r : Request) (c : Cookie)
    → (login hmac id_key s hash start l r).reply.cookies ≡ c ∷ []
    → c ≡ issue hmac s start
unfolding login bad_request render_login_failure render with_cookie see_other empty_response
login_cookie hmac id_key s hash start l r c e = ground (arith, e)

-- The cookie that a login at `start` sets opens the guard until `start + ttl`, in seconds: before it
-- the guarded handler runs, from then on the request is rejected and the state is left as it was.
pub login_opens_session {ℓ} :
    {S : Type ℓ} (hmac : Bytes → Bytes → Bytes) (id_key : KeyFunction) (s : Sessions) (hash : Bytes)
    (start now : Time) (l : Limiter) (r later : Request) (c : Cookie)
    (next : Request → S → Reply × S) (st : S)
    → (login hmac id_key s hash start l r).reply.cookies ≡ c ∷ []
    → find_pair cookie_name later.cookies ≡ some c.value
    → IsSane (record { issued_at = start; expires_at = add start s.ttl })
    → All IsByte (hmac s.key (payload (record { issued_at = start; expires_at = add start s.ttl })))
    → require_session hmac s now next later st ≡ (
        if ltb_ℤ (unix now) (unix (add start s.ttl))
        then next later st
        else (reject_unauthenticated later, st))
unfolding require_session
login_opens_session hmac id_key s hash start now l r later c next st set carried sane bytes =
    let same = login_cookie hmac id_key s hash start l r c set in
    let value = carried ∙ ap (λ (d : Cookie). some d.value) same in
    ground (arith, verify-issue hmac s start now later sane bytes value)
