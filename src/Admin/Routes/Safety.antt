-- ===== src/Admin/Routes/Safety.antt =====
-- internal/admin/admin.go: what a request can do to the store, over all routes.
use go_personal_web.Prelude.{
  ℕ, suc, ◌≡◌, ◌≢◌, ◌⊎◌, inl, inr, refl, subst, ap, true, Option, none, some, List, [], ◌∷◌, Bytes,
  ◌=ᵇ◌, =ᵇ_iff, codes, All, Bool-cases, Option-cases, arith,
}
use go_personal_web.GoStd.Time.{Time}
use go_personal_web.GoStd.Strings.{split}
use go_personal_web.Http.{Request}
use go_personal_web.Admin.Session.{verify}
use go_personal_web.Admin.Limiter.{Limiter}
use go_personal_web.Admin.Render.{Reply}
use go_personal_web.Admin.Auth.{require_session, reject_unauthenticated}
use go_personal_web.Admin.Assets.{secured}
use go_personal_web.Admin.Writing.Resources.{Resource}
use go_personal_web.Admin.Writing.{Editor, load, found, answered, Loaded, edit, edit_loaded, blank}
use go_personal_web.Admin.Routes.{
  Kind, Action, log_out, home, list, new_form, create, edit_form, update, draft, Method, get_head,
  post_only, method_matches, select, Match, matched, wrong_method, no_match, guarded_match,
  guarded_patterns, one_segment, two_segments, three_segments, kind_of, matched_by, Surface,
  Outcome, resource, with_id, handle, dispatch, guard, is_login_form, is_login, is_asset, serve,
}

pub guard_closed :
    (h : Surface) (others : ℕ → h.store.State → h.store.State) (clock : ℕ → Time) (r : Request)
    (st : h.store.State)
    → verify h.hmac h.sessions (clock 0) r ≡ none
    → guard h others clock r st ≡ (st, reject_unauthenticated r)
unfolding guard require_session
guard_closed h others clock r st closed = rw (guard, require_session, closed)

abbrev outcome_of : {S : Type 0} → Limiter → S → Reply → Outcome S
outcome_of l st reply = record { logins = l; state = st; reply = secured reply; effects = [] }

-- Without a session nothing reaches the store, on any route; beyond the login form, the login and the
-- assets, the reply is the rejection, the limiter stays as it is and nothing else happens.
pub store_needs_session :
    (h : Surface) (others : ℕ → h.store.State → h.store.State) (clock : ℕ → Time) (r : Request)
    (l : Limiter) (st : h.store.State)
    → verify h.hmac h.sessions (clock 0) r ≡ none
    → ((serve h others clock r l st).state ≡ st)
      × ((is_login_form r ≡ true)
          ⊎ (is_login r ≡ true)
          ⊎ (is_asset r ≡ true)
          ⊎ (serve h others clock r l st ≡ record {
            logins = l;
            state = st;
            reply = secured (reject_unauthenticated r);
            effects = [];
          }))
unfolding serve
store_needs_session h others clock r l st closed = elim (Bool-cases (is_login_form r)) [
  | inl a ↦ rw (a) (refl, inl refl)
  | inr a ↦ elim (Bool-cases (is_login r)) [
    | inl b ↦ rw (a, b) (refl, inr (inl refl))
    | inr b ↦ elim (Bool-cases (is_asset r)) [
      | inl c ↦ rw (a, b, c) (refl, inr (inr (inl refl)))
      | inr c ↦
          let rejected = guard_closed h others clock r st closed in
          rw (a, b, c)
            (ap (λ t. t.0) rejected, inr (inr (inr (ap (λ t. outcome_of l t.0 t.1) rejected))))
    ]
  ]
]

-- The handlers of screens.
abbrev IsReading : Action → Type 0
IsReading home = Unit
IsReading (list k) = Unit
IsReading (new_form k) = Unit
IsReading (edit_form k id) = Unit
IsReading log_out = ⊥
IsReading (create k) = ⊥
IsReading (update k id) = ⊥
IsReading (draft k id) = ⊥

abbrev IsProper : Method × Action → Type 0
IsProper (get_head, a) = IsReading a
IsProper (post_only, a) = Unit

one_segment-IsProper : (b : Bytes) (k : Option Kind) → All IsProper (one_segment b k)
one_segment-IsProper b (some k) = (tt, (tt, tt))
one_segment-IsProper b none = ground arith

two_segments-IsProper : (c : Bytes) (k : Option Kind) → All IsProper (two_segments c k)
two_segments-IsProper c none = tt
two_segments-IsProper [] (some k) = tt
two_segments-IsProper (x ∷ c) (some k) = elim (Bool-cases (x ∷ c =ᵇ codes "new")) [
  | inl e ↦ rw (e) (tt, (tt, tt))
  | inr e ↦ rw (e) (tt, tt)
]

three_segments-IsProper : (c d : Bytes) (k : Option Kind) → All IsProper (three_segments c d k)
three_segments-IsProper c d none = tt
three_segments-IsProper [] d (some k) = tt
three_segments-IsProper (x ∷ c) d (some k) = ground arith

guarded_patterns-IsProper : (segments : List Bytes) → All IsProper (guarded_patterns segments)
unfolding guarded_patterns
guarded_patterns-IsProper [] = tt
guarded_patterns-IsProper (a ∷ []) = tt
guarded_patterns-IsProper (a ∷ b ∷ []) = tt
guarded_patterns-IsProper (a ∷ b ∷ c ∷ []) = one_segment-IsProper c (kind_of c)
guarded_patterns-IsProper (a ∷ b ∷ c ∷ d ∷ []) = two_segments-IsProper d (kind_of c)
guarded_patterns-IsProper (a ∷ b ∷ c ∷ d ∷ e ∷ []) = three_segments-IsProper d e (kind_of c)
guarded_patterns-IsProper (a ∷ b ∷ c ∷ d ∷ e ∷ f ∷ rest) = tt

select-IsReading :
    (method : Bytes) (patterns : List (Method × Action)) (a : Action)
    → (method ≡ codes "POST" → ⊥)
    → All IsProper patterns
    → select method patterns ≡ some a
    → IsReading a
unfolding select method_matches
select-IsReading method [] a safe p e = absurd cc
select-IsReading method ((m, b) ∷ rest) a safe (p, ps) e =
    elim (Bool-cases (method_matches m method)) [
      | inl hit ↦
          let same : b ≡ a = let e' = rw (select, hit) at e in cc in
          subst IsReading same (read m b hit p)
      | inr miss ↦ select-IsReading method rest a safe ps (rw (select, miss) at e)
    ]
  where
    read :
        (m : Method) (b : Action) → method_matches m method ≡ true → IsProper (m, b) → IsReading b
    read get_head b hit p = p
    read post_only b hit p = absurd (safe ((=ᵇ_iff method (codes "POST")).0 hit))

matched-IsReading :
    (method : Bytes) (patterns : List (Method × Action)) (a : Action)
    → (method ≡ codes "POST" → ⊥)
    → All IsProper patterns
    → (found : Option Action) → select method patterns ≡ found
    → matched_by found patterns ≡ matched a
    → IsReading a
matched-IsReading method patterns a safe p (some b) e m =
    let same : b ≡ a = cc in subst IsReading same (select-IsReading method patterns b safe p e)
matched-IsReading method [] a safe p none e m = absurd cc
matched-IsReading method (q ∷ rest) a safe p none e m = absurd cc

guarded_match-IsReading :
    (method path : Bytes) (a : Action)
    → (method ≡ codes "POST" → ⊥)
    → guarded_match method path ≡ matched a
    → IsReading a
unfolding guarded_match
guarded_match-IsReading method path a safe e =
    matched-IsReading method _ a safe (guarded_patterns-IsProper (split b'/' path)) _ refl e

edit_keeps :
    {S : Type 0} (h : Editor) (res : Resource S) (now : Time) (r : Request) (st : S) (l : Loaded)
    → (edit_loaded h res now r st l).0 ≡ st
unfolding edit_loaded
edit_keeps h res now r st (answered reply) = refl
edit_keeps h res now r st (found rec) = refl

handle_keeps :
    (h : Surface) (others : ℕ → h.store.State → h.store.State) (clock : ℕ → Time) (r : Request)
    (st : h.store.State) (a : Action)
    → IsReading a
    → (handle h a others clock r st).0 ≡ st
unfolding handle edit blank
handle_keeps h others clock r st home p = refl
handle_keeps h others clock r st (list k) p = refl
handle_keeps h others clock r st (new_form k) p = refl
handle_keeps h others clock r st (edit_form k id) p =
    edit_keeps h.editor (resource h k) (clock 0) (with_id r id) st
      (load h.editor (resource h k) (with_id r id) st)
handle_keeps h others clock r st log_out p = elim p [ ]
handle_keeps h others clock r st (create k) p = elim p [ ]
handle_keeps h others clock r st (update k id) p = elim p [ ]
handle_keeps h others clock r st (draft k id) p = elim p [ ]

dispatch_keeps :
    (h : Surface) (others : ℕ → h.store.State → h.store.State) (clock : ℕ → Time) (r : Request)
    (st : h.store.State) (m : Match)
    → ((a : Action) → m ≡ matched a → IsReading a)
    → (dispatch h m others clock r st).0 ≡ st
unfolding dispatch
dispatch_keeps h others clock r st (matched a) p = handle_keeps h others clock r st a (p a refl)
dispatch_keeps h others clock r st (wrong_method allow) p = refl
dispatch_keeps h others clock r st no_match p = refl

guard_keeps :
    (h : Surface) (others : ℕ → h.store.State → h.store.State) (clock : ℕ → Time) (r : Request)
    (st : h.store.State)
    → (r.method ≡ codes "POST" → ⊥)
    → (guard h others clock r st).0 ≡ st
unfolding guard require_session
guard_keeps h others clock r st safe = elim (Option-cases (verify h.hmac h.sessions (clock 0) r)) [
  | inl closed ↦ ap (λ t. t.0) (guard_closed h others clock r st closed)
  | inr (sess, open_now) ↦
      rw (guard, require_session, open_now)
        (dispatch_keeps h others (λ i. clock (suc i)) r st (guarded_match r.method r.path)
          (λ a e. guarded_match-IsReading r.method r.path a safe e))
]

-- Only a POST writes: a request of any other method leaves the store as it was, on every route, with
-- a session or without.
pub only_post_writes :
    (h : Surface) (others : ℕ → h.store.State → h.store.State) (clock : ℕ → Time) (r : Request)
    (l : Limiter) (st : h.store.State)
    → r.method ≢ codes "POST"
    → (serve h others clock r l st).state ≡ st
unfolding serve
only_post_writes h others clock r l st safe = elim (Bool-cases (is_login_form r)) [
  | inl a ↦ rw (a)
  | inr a ↦ elim (Bool-cases (is_login r)) [
    | inl b ↦ rw (a, b)
    | inr b ↦ elim (Bool-cases (is_asset r)) [
      | inl c ↦ rw (a, b, c)
      | inr c ↦ rw (a, b, c) (guard_keeps h others clock r st safe)
    ]
  ]
]
