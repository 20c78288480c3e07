-- ===== src/Admin/Routes/Histories.antt =====
-- internal/admin/admin.go: what any sequence of requests can do without the password.
use go_personal_web.Prelude.{
  ℕ, ◌≡◌, ◌≢◌, ◌⊎◌, inl, inr, refl, ap, ◌∙◌, true, Option, none, some, List, [], ◌∷◌, ◌++◌, Bytes,
  codes, All, Bool-cases, map, arith,
}
use go_personal_web.GoStd.Time.{Time}
use go_personal_web.Http.{
  Request, Cookie, form_value, find_pair, with_header, see_other, empty_response,
}
use go_personal_web.Admin.Session.{Session, cookie_name, verify}
use go_personal_web.Admin.Limiter.{Limiter}
use go_personal_web.Admin.Password.{verify_password}
use go_personal_web.Admin.Render.{Reply, render, http_error}
use go_personal_web.Admin.Auth.{login_form, login, reject_unauthenticated}
use go_personal_web.Admin.Auth.Login.{login_sets_cookie}
use go_personal_web.Admin.Assets.{secured, serve_asset, page_not_found}
use go_personal_web.Admin.Routes.{Surface, guard, is_login_form, is_login, is_asset, serve}
use go_personal_web.Admin.Routes.Safety.{store_needs_session, guard_closed}

-- One of the texts.
abbrev pub IsAmong : Bytes → List Bytes → Type 0
IsAmong v [] = ⊥
IsAmong v (w ∷ ws) = (v ≡ w) ⊎ IsAmong v ws

eq-nil : {A : Type 0} (xs : List A) → (xs ≢ [] → ⊥) → xs ≡ []
eq-nil [] f = refl
eq-nil (x ∷ xs) f = absurd (f (λ e. cc))

module _ (h : Surface) where
  -- A request, the instants at which it reads the clock, and what others do meanwhile.
  pub record Visit : Type 0 where
    pub request : Request
    pub clock : ℕ → Time
    pub others : ℕ → h.store.State → h.store.State

  -- The server, and the values of the cookies that it has set so far.
  pub record Standing : Type 0 where
    pub logins : Limiter
    pub state : h.store.State
    pub issued : List Bytes

  -- The requests one by one, the latest first.
  unfoldable pub after : Limiter → h.store.State → List Visit → Standing
  after l st [] = record { logins = l; state = st; issued = [] }
  after l st (v ∷ earlier) =
      let before = after l st earlier in
      let out = serve h v.others v.clock v.request before.logins before.state in
      record {
        logins = out.logins;
        state = out.state;
        issued = map (λ (c : Cookie). c.value) out.reply.cookies ++ before.issued;
      }

  -- A cookie that is accepted is one that the server has set: nobody else makes the MAC.
  abbrev pub IsUnforged : Limiter → h.store.State → List Visit → Type 0
  IsUnforged l st [] = Unit
  IsUnforged l st (v ∷ earlier) =
      ((sess : Session)
        → verify h.hmac h.sessions (v.clock 0) v.request ≡ some sess
        → (value : Bytes) × (find_pair cookie_name v.request.cookies ≡ some value)
          × IsAmong value (after l st earlier).issued)
      × IsUnforged l st earlier

  -- No request carries the right password.
  abbrev pub IsGuessing : List Visit → Type 0
  IsGuessing =
      All
        (λ v. verify_password h.id_key h.hash (form_value v.request (codes "password")) ≢ some true)

  secured-cookies : (w : Reply) → (secured w).cookies ≡ w.cookies
  unfolding secured with_header
  secured-cookies w = refl

  login_form-cookies : (r : Request) → (login_form r).cookies ≡ []
  unfolding login_form render
  login_form-cookies r = refl

  serve_asset-cookies : (r : Request) → (serve_asset r).cookies ≡ []
  unfolding serve_asset page_not_found http_error
  serve_asset-cookies r = ground arith

  reject-cookies : (r : Request) → (reject_unauthenticated r).cookies ≡ []
  unfolding reject_unauthenticated see_other empty_response with_header
  reject-cookies r = ground arith

  login-cookies :
      (l : Limiter) (now : Time) (r : Request)
      → verify_password h.id_key h.hash (form_value r (codes "password")) ≢ some true
      → (login h.hmac h.id_key h.sessions h.hash now l r).reply.cookies ≡ []
  login-cookies l now r wrong =
      eq-nil _ λ some_set.
        wrong ((login_sets_cookie h.hmac h.id_key h.sessions h.hash now l r).0 some_set).2

  -- What a request without a session and without the password does.
  quiet :
      (others : ℕ → h.store.State → h.store.State) (clock : ℕ → Time) (r : Request) (l : Limiter)
      (st : h.store.State)
      → verify h.hmac h.sessions (clock 0) r ≡ none
      → verify_password h.id_key h.hash (form_value r (codes "password")) ≢ some true
      → (serve h others clock r l st).reply.cookies ≡ []
  unfolding serve
  quiet others clock r l st closed wrong = elim (Bool-cases (is_login_form r)) [
    | inl a ↦ rw (a) (secured-cookies (login_form r) ∙ login_form-cookies r)
    | inr a ↦ elim (Bool-cases (is_login r)) [
      | inl b ↦
          rw (a, b)
            (secured-cookies (login h.hmac h.id_key h.sessions h.hash (clock 0) l r).reply
              ∙ login-cookies l (clock 0) r wrong)
      | inr b ↦ elim (Bool-cases (is_asset r)) [
        | inl c ↦ rw (a, b, c) (secured-cookies (serve_asset r) ∙ serve_asset-cookies r)
        | inr c ↦
            rw (a, b, c)
              (secured-cookies (guard h others clock r st).1
                ∙ ap (λ t. t.1.cookies) (guard_closed h others clock r st closed)
                ∙ reject-cookies r)
      ]
    ]
  ]

  -- No cookie is accepted where none has been set.
  closed_to :
      (issued : List Bytes) (o : Option Session) (carried : Option Bytes)
      → issued ≡ []
      → ((sess : Session)
          → o ≡ some sess
          → (value : Bytes) × (carried ≡ some value) × IsAmong value issued)
      → o ≡ none
  closed_to [] none carried e f = refl
  closed_to [] (some sess) carried e f = let (_, _, among) = f sess refl in elim among [ ]
  closed_to (w ∷ ws) o carried e f = absurd (cc)

  -- In any sequence of requests to the Admin surface, whichever they are and whenever they come: where
  -- none carries the right password, and a session cookie is accepted only if the server has set it
  -- before, the store stays as it was and no cookie is set at all.
  pub nothing_without_password :
      (l : Limiter) (st : h.store.State) (vs : List Visit)
      → IsUnforged l st vs
      → IsGuessing vs
      → ((after l st vs).state ≡ st) × ((after l st vs).issued ≡ [])
  unfolding after
  nothing_without_password l st [] u g = (refl, refl)
  nothing_without_password l st (v ∷ earlier) (unforged, u) (wrong, g) =
      let before = after l st earlier in
      let (same, none_set) = nothing_without_password l st earlier u g in
      let closed =
        closed_to before.issued (verify h.hmac h.sessions (v.clock 0) v.request)
          (find_pair cookie_name v.request.cookies) none_set unforged in
      (
        (store_needs_session h v.others v.clock v.request before.logins before.state closed).0
            ∙ same,
        rw (quiet v.others v.clock v.request before.logins before.state closed wrong) none_set,
      )
