-- ===== src/Admin/Auth/Access.antt =====
-- Whom the limiter lets in: an address is refused only for what it has itself tried within one window.
use go_personal_web.Prelude.{
  ℕ, ◌+◌, ◌^◌, ◌<◌, ◌≡◌, ◌≢◌, ◌⊎◌, inl, inr, sym, true, none, some, [], ◌∷◌, Bytes, =ᵇ_refl, codes,
  arith, Bool-cases, length, pos, subst,
}
use go_personal_web.GoStd.Time.{Time, Duration}
use go_personal_web.Http.{Request, form_value}
use go_personal_web.Admin.Session.{Sessions}
use go_personal_web.Admin.Limiter.{Limiter, allow, reset, new_limiter}
use go_personal_web.Admin.Password.{KeyFunction, verify_password}
use go_personal_web.Admin.Auth.{client_ip, check_password, login}
use go_personal_web.Admin.Auth.Login.{login_sets_cookie}
use go_personal_web.Admin.Auth.Work.{Visits}
use go_personal_web.Admin.Auth.Attempts.{
  is_attempt, tried, recent, InOrder, IsEarned, IsEarned-new, IsEarned-allow, IsEarned-reset,
  IsEarned-later, refused_earned,
}

module _ (hmac : Bytes → Bytes → Bytes) (id_key : KeyFunction) (s : Sessions) (hash : Bytes) where
  -- The limiter behind a history of login requests.
  unfoldable pub logins_after : Limiter → Visits → Limiter
  logins_after l [] = l
  logins_after l ((t, r) ∷ earlier) = (login hmac id_key s hash t (logins_after l earlier) r).logins

  -- A login leaves the limiter alone, counts an attempt, or counts it and forgets the address.
  login_logins :
      (t : Time) (l : Limiter) (r : Request)
      → let next = (login hmac id_key s hash t l r).logins in
        (next ≡ l)
        ⊎ ((is_attempt (client_ip r) r ≡ true)
            × ((next ≡ (allow l (client_ip r) t).0)
                ⊎ (next ≡ reset (allow l (client_ip r) t).0 (client_ip r))))
  unfolding login check_password is_attempt
  login_logins t l r = ground (arith, =ᵇ_refl (client_ip r))

  IsEarned-logins_after :
      (limit : ℕ) (window : Duration) (vs : Visits)
      → InOrder vs
      → length vs < 2 ^ 63
      → IsEarned limit window vs (logins_after (new_limiter (pos limit) window) vs)
  unfolding logins_after
  IsEarned-logins_after limit window [] order small = IsEarned-new limit window
  IsEarned-logins_after limit window ((t, r) ∷ vs) (first, order) small =
      let l = logins_after (new_limiter (pos limit) window) vs in
      let before = IsEarned-logins_after limit window vs order (omega arith) in
      let becomes : (next : Limiter)
          → (login hmac id_key s hash t l r).logins ≡ next
          → IsEarned limit window ((t, r) ∷ vs) next
          → IsEarned limit window ((t, r) ∷ vs) (login hmac id_key s hash t l r).logins =
        λ next e. subst (IsEarned limit window ((t, r) ∷ vs)) (sym e) in
      elim (login_logins t l r) [
        | inl same ↦ becomes _ same (IsEarned-later limit window vs t r l before)
        | inr (own, inl counts) ↦
            becomes _ counts (IsEarned-allow limit window vs t r l before first (omega arith) own)
        | inr (own, inr forgets) ↦ becomes _ forgets (
            IsEarned-reset limit window ((t, r) ∷ vs) _ (client_ip r)
              (IsEarned-allow limit window vs t r l before first (omega arith) own))
      ]

  -- The Author is never locked out by others, nor for longer than a window: whatever login requests
  -- came before, in the order of their instants, from a fresh limiter on, a readable request with the right
  -- password sets a session cookie where its own address has made fewer than `limit` attempts in the
  -- window that ends with it.
  pub author_let_in :
      (limit : ℕ) (window : Duration) (vs : Visits) (now : Time) (r : Request)
      → InOrder ((now, r) ∷ vs)
      → 1 + length vs < 2 ^ 63
      → r.form ≢ none
      → verify_password id_key hash (form_value r (codes "password")) ≡ some true
      → tried (recent window now) (client_ip r) vs < limit
      → (login hmac id_key s hash now
          (logins_after (new_limiter (pos limit) window) vs)
          r).reply.cookies
        ≢ []
  author_let_in limit window vs now r (first, order) small read right few =
      let l = logins_after (new_limiter (pos limit) window) vs in
      let earned = IsEarned-logins_after limit window vs order (omega arith) in
      elim (Bool-cases (allow l (client_ip r) now).1) [
        | inl allowed ↦ (login_sets_cookie hmac id_key s hash now l r).1 (read, allowed, right)
        | inr refused ↦ absurd (
            omega (
              arith,
              refused_earned limit window vs now (client_ip r) l earned first small refused,
            ))
      ]
