-- ===== src/Admin/Auth/Work.antt =====
-- How much work an address can make argon2id do.
use go_personal_web.Prelude.{
  ℕ, ◌+◌, ◌^◌, ◌<◌, ◌≤◌, ◌≡◌, ◌≢◌, inl, inr, ap, true, none, some, List, [], ◌∷◌, Bytes, ◌=ᵇ◌,
  codes, if◌then◌else◌, arith, Option-cases, All, length, pos,
}
use go_personal_web.GoStd.Time.{Time}
use go_personal_web.Http.{Request, Pairs, form_value}
use go_personal_web.Admin.Session.{Sessions}
use go_personal_web.Admin.Limiter.{Limiter, allow}
use go_personal_web.Admin.Limiter.Windows.{IsMap, live}
use go_personal_web.Admin.Limiter.Bound.{Attempts, passed, Within, passed-Within}
use go_personal_web.Admin.Password.{KeyFunction, verify_password}
use go_personal_web.Admin.Auth.{client_ip, login}
use go_personal_web.Admin.Auth.Login.{derivations}

-- Login requests in the order in which they arrive.
abbrev pub Visits : Type 0
Visits = List (Time × Request)

-- The attempts that the limiter sees: a request whose form cannot be read is answered before it.
unfoldable pub attempts_of : Visits → Attempts
attempts_of [] = []
attempts_of ((t, r) ∷ vs) =
    let rest = attempts_of vs in elim r.form [ none ↦ rest | some form ↦ (t, client_ip r) ∷ rest ]

attempts_of-unread :
    (t : Time) (r : Request) (vs : Visits)
    → r.form ≡ none
    → attempts_of ((t, r) ∷ vs) ≡ attempts_of vs
unfolding attempts_of
attempts_of-unread t r vs e = ground (arith, e)

attempts_of-read :
    (t : Time) (r : Request) (vs : Visits) (form : Pairs)
    → r.form ≡ some form
    → attempts_of ((t, r) ∷ vs) ≡ (t, client_ip r) ∷ attempts_of vs
unfolding attempts_of
attempts_of-read t r vs form e = ground (arith, e)

module _ (hmac : Bytes → Bytes → Bytes) (id_key : KeyFunction) (s : Sessions) (hash : Bytes) where
  -- How often argon2id runs for the requests of an address.
  unfoldable pub work : Bytes → Limiter → Visits → ℕ
  work key l [] = 0
  work key l ((t, r) ∷ vs) =
      (if client_ip r =ᵇ key then derivations (login hmac id_key s hash t l r).effects else 0)
      + work key (login hmac id_key s hash t l r).logins vs

  -- No request carries the right password.
  abbrev pub IsGuessing : Visits → Type 0
  IsGuessing =
      All (λ v. verify_password id_key hash (form_value v.1 (codes "password")) ≢ some true)

  login_unread :
      (t : Time) (l : Limiter) (r : Request)
      → r.form ≡ none
      → ((login hmac id_key s hash t l r).logins ≡ l)
        × (derivations (login hmac id_key s hash t l r).effects ≡ 0)
  unfolding login derivations
  login_unread t l r e = ground arith

  login_wrong :
      (t : Time) (l : Limiter) (r : Request)
      → r.form ≢ none
      → verify_password id_key hash (form_value r (codes "password")) ≢ some true
      → ((login hmac id_key s hash t l r).logins ≡ (allow l (client_ip r) t).0)
        × (derivations (login hmac id_key s hash t l r).effects
            ≤ (if (allow l (client_ip r) t).1 then 1 else 0))
  unfolding login derivations
  login_wrong t l r e w = ground arith

  work-le-passed :
      (key : Bytes) (l : Limiter) (vs : Visits)
      → IsGuessing vs
      → work key l vs ≤ passed key l (attempts_of vs)
  unfolding work passed
  work-le-passed key l [] g = omega arith
  work-le-passed key l ((t, r) ∷ vs) (w, g) = elim (Option-cases r.form) [
    | inl unread ↦
        rw (attempts_of-unread t r vs unread)
          (ground (arith, login_unread t l r unread, work-le-passed key l vs g))
    | inr (form, e) ↦ rw (attempts_of-read t r vs form e) (
        ground (
          arith,
          login_wrong t l r (λ n. cc) w,
          work-le-passed key (allow l (client_ip r) t).0 vs g,
        ))
  ]

-- Guessing costs bounded work: with a positive limit, from an address with no open window, the
-- requests with a wrong password that arrive while the window of its first attempt is open make
-- argon2id run at most `limit` times, however many they are and whatever other addresses send.
pub guessing_work :
    (hmac : Bytes → Bytes → Bytes) (id_key : KeyFunction) (s : Sessions) (hash : Bytes)
    (l : Limiter) (limit : ℕ) (start : Time) (first : Request) (vs : Visits)
    → IsMap l.windows
    → l.limit ≡ pos limit
    → 0 < limit
    → live l.window start (client_ip first) l.windows ≡ none
    → first.form ≢ none
    → IsGuessing hmac id_key s hash ((start, first) ∷ vs)
    → Within l.window start (attempts_of vs)
    → 1 + length (attempts_of vs) < 2 ^ 63
    → work hmac id_key s hash (client_ip first) l ((start, first) ∷ vs) ≤ limit
guessing_work hmac id_key s hash l limit start first vs m e h fresh read g w small =
    elim (Option-cases first.form) [
      | inl n ↦ absurd (read n)
      | inr (form, f) ↦ omega (
        arith,
        work-le-passed hmac id_key s hash (client_ip first) l ((start, first) ∷ vs) g,
        ap (passed (client_ip first) l) (attempts_of-read start first vs form f),
        passed-Within l (client_ip first) limit start (attempts_of vs) m e h fresh w small,
      )
    ]
