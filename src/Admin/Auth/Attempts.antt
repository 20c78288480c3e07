-- ===== src/Admin/Auth/Attempts.antt =====
-- What the windows of the limiter are owed to: the attempts of their own addresses.
use go_personal_web.Prelude.{
  ℕ, ◌+◌, ◌^◌, ◌≤◌, ◌<◌, ◌≡◌, inl, inr, refl, sym, ◌∙◌, ap, Bool, true, false, not, ◌&&◌, Option,
  none, some, [], ◌∷◌, Bytes, ◌=ᵇ◌, =ᵇ_iff, if◌then◌else◌, arith, Option-cases, Bool-cases, All,
  length, ℤ, pos, ◌+ℤ◌, ◌-ℤ◌, ◌≤ℤ◌, leb_ℤ, leb_ℤ_iff, clamp64, wrap64, int_laws, is_absent, subst,
}
use go_personal_web.GoStd.Time.{Time, Duration, since}
use go_personal_web.Http.{Request}
use go_personal_web.Admin.Limiter.{
  Window, Limiter, find, is_expired, bump, allow, reset, new_limiter,
}
use go_personal_web.Admin.Limiter.Windows.{
  IsMap, live, counted, granted, allow-granted, find-allow, allow-IsMap, allow_config, reset-IsMap,
  find-reset,
}
use go_personal_web.Admin.Auth.{client_ip}
use go_personal_web.Admin.Auth.Work.{Visits}

-- Whether a request is an attempt of an address: one whose form cannot be read is answered before the
-- limiter is asked.
unfoldable pub is_attempt : Bytes → Request → Bool
is_attempt key r = not (is_absent r.form) && (client_ip r =ᵇ key)

-- The attempts of an address that a test of their instants counts.
unfoldable pub tried : (Time → Bool) → Bytes → Visits → ℕ
unfolding is_attempt
tried counts key [] = 0
tried counts key ((t, r) ∷ vs) =
    (if is_attempt key r && counts t then 1 else 0) + tried counts key vs

-- The instants less than a window before `now`.
abbrev pub recent : Duration → Time → Time → Bool
recent window now t = not (leb_ℤ window (since now t))

-- The latest visit stands first, and no visit is earlier than one before it.
abbrev pub InOrder : Visits → Type 0
InOrder [] = Unit
InOrder ((t, r) ∷ earlier) = All (λ v. v.0 ≤ℤ t) earlier × InOrder earlier

pub tried-le-length :
    (counts : Time → Bool) (key : Bytes) (vs : Visits) → tried counts key vs ≤ length vs
unfolding tried
tried-le-length counts key [] = omega arith
tried-le-length counts key ((t, r) ∷ vs) = ground (arith, tried-le-length counts key vs)

tried-le :
    (p q : Time → Bool) (key : Bytes) (vs : Visits)
    → ((t : Time) → p t ≡ true → q t ≡ true)
    → tried p key vs ≤ tried q key vs
unfolding tried
tried-le p q key [] h = omega arith
tried-le p q key ((t, r) ∷ vs) h = ground (arith, tried-le p q key vs h, h t)

clamp64_mono : (a b : ℤ) → a ≤ℤ b → clamp64 a ≤ℤ clamp64 b
unfolding clamp64
clamp64_mono a b h = ground arith

-- What comes behind a recent instant is recent.
recent_mono :
    (window : Duration) (now start t : Time)
    → leb_ℤ window (since now start) ≡ false
    → start ≤ℤ t
    → recent window now t ≡ true
unfolding since
recent_mono window now start t h le =
    let later : now -ℤ t ≤ℤ now -ℤ start = omega int_laws in
    ground (arith, clamp64_mono (now -ℤ t) (now -ℤ start) later)

module _ (limit : ℕ) (window : Duration) where
  -- Every window of a limiter is accounted for by attempts of its own address.
  abbrev IsAccounted : Visits → Bytes → Window → Type 0
  IsAccounted vs key w =
      (c : ℕ) × (w.count ≡ pos c)
      × (c ≤ tried (leb_ℤ w.started) key vs)
      × ((now : Time) → All (λ v. v.0 ≤ℤ now) vs → w.started ≤ℤ now)

  pub record IsEarned (vs : Visits) (l : Limiter) : Type 0 where
    pub is_map : IsMap l.windows
    pub limited : l.limit ≡ pos limit
    pub length_of : l.window ≡ window
    pub accounted : (key : Bytes) (w : Window) → find key l.windows ≡ some w → IsAccounted vs key w

  live_found :
      (now : Time) (key : Bytes) (l : Limiter) (w : Window)
      → live l.window now key l.windows ≡ some w
      → (find key l.windows ≡ some w) × (leb_ℤ l.window (since now w.started) ≡ false)
  unfolding live is_expired
  live_found now key l w e = ground arith

  -- A visit more.
  later-IsAccounted :
      (vs : Visits) (t : Time) (r : Request) (key : Bytes) (w : Window)
      → IsAccounted vs key w
      → IsAccounted ((t, r) ∷ vs) key w
  unfolding tried
  later-IsAccounted vs t r key w (c, count, earned, after) =
      (c, count, omega arith, λ now (_, all). after now all)

  pub IsEarned-later :
      (vs : Visits) (t : Time) (r : Request) (l : Limiter)
      → IsEarned vs l
      → IsEarned ((t, r) ∷ vs) l
  IsEarned-later vs t r l h = record {
    is_map = h.is_map;
    limited = h.limited;
    length_of = h.length_of;
    accounted = λ key w e. later-IsAccounted vs t r key w (h.accounted key w e);
  }

  counted-IsAccounted :
      (vs : Visits) (t : Time) (r : Request) (key : Bytes) (l : Limiter)
      → IsEarned vs l
      → All (λ v. v.0 ≤ℤ t) vs
      → 1 + length vs < 2 ^ 63
      → is_attempt key r ≡ true
      → (o : Option Window) → live l.window t key l.windows ≡ o
      → IsAccounted ((t, r) ∷ vs) key (counted t o)
  unfolding tried counted bump ◌+ℤ◌ wrap64
  counted-IsAccounted vs t r key l h order small own none e =
      (1, refl, ground (arith, own), λ now (first, _). first)
  counted-IsAccounted vs t r key l h order small own (some w) e =
      let (c, count, earned, after) = h.accounted key w (live_found t key l w e).0 in
      let few = tried-le-length (leb_ℤ w.started) key vs in
      (
        c + 1,
        ground (arith, count),
        ground (arith, own, after t order, leb_ℤ_iff w.started t),
        λ now (_, all). after now all,
      )

  pub IsEarned-allow :
      (vs : Visits) (t : Time) (r : Request) (l : Limiter)
      → IsEarned vs l
      → All (λ v. v.0 ≤ℤ t) vs
      → 1 + length vs < 2 ^ 63
      → is_attempt (client_ip r) r ≡ true
      → IsEarned ((t, r) ∷ vs) (allow l (client_ip r) t).0
  IsEarned-allow vs t r l h order small own =
      let key = client_ip r in
      record {
        is_map = allow-IsMap l key t h.is_map;
        limited = (allow_config l key t h.is_map).0 ∙ h.limited;
        length_of = (allow_config l key t h.is_map).1 ∙ h.length_of;
        accounted = λ j w e. elim (Bool-cases (key =ᵇ j)) [
          | inl same ↦
              let here : find j (allow l key t).0.windows
                  ≡ some (counted t (live l.window t key l.windows)) =
                find-allow l key t h.is_map j
                ∙ ap
                    (λ b.
                      if b
                      then some (counted t (live l.window t key l.windows))
                      else live l.window t j l.windows)
                    same in
              let this : counted t (live l.window t key l.windows) ≡ w = cc in
              let at_key : key ≡ j = (=ᵇ_iff key j).0 same in
              subst (λ k. IsAccounted ((t, r) ∷ vs) k w) at_key
                (subst (IsAccounted ((t, r) ∷ vs) key) this
                  (counted-IsAccounted vs t r key l h order small own _ refl))
          | inr other ↦
              let there : find j (allow l key t).0.windows ≡ live l.window t j l.windows =
                find-allow l key t h.is_map j
                ∙ ap
                    (λ b.
                      if b
                      then some (counted t (live l.window t key l.windows))
                      else live l.window t j l.windows)
                    other in
              later-IsAccounted vs t r j w (h.accounted j w (live_found t j l w (sym there ∙ e)).0)
        ];
      }

  pub IsEarned-reset :
      (vs : Visits) (l : Limiter) (key : Bytes) → IsEarned vs l → IsEarned vs (reset l key)
  IsEarned-reset vs l key h = record {
    is_map = reset-IsMap l key h.is_map;
    limited = unfold reset in h.limited;
    length_of = unfold reset in h.length_of;
    accounted = λ j w e. h.accounted j w (ground (arith, find-reset l key j, e));
  }

  pub IsEarned-new : IsEarned [] (new_limiter (pos limit) window)
  unfolding new_limiter find
  IsEarned-new = record {
    is_map = tt;
    limited = refl;
    length_of = refl;
    accounted = λ key w e. absurd (cc);
  }

  -- An attempt is refused only behind `limit` recent ones of its own address.
  pub refused_earned :
      (vs : Visits) (now : Time) (key : Bytes) (l : Limiter)
      → IsEarned vs l
      → All (λ v. v.0 ≤ℤ now) vs
      → 1 + length vs < 2 ^ 63
      → (allow l key now).1 ≡ false
      → limit ≤ tried (recent window now) key vs
  unfolding granted bump ◌+ℤ◌ wrap64
  refused_earned vs now key l h order small refused =
      elim (Option-cases (live l.window now key l.windows)) [
        | inl e ↦ absurd (ground (arith, allow-granted l key now h.is_map, e))
        | inr (w, e) ↦
            let (found, fresh) = live_found now key l w e in
            let (c, count, earned, after) = h.accounted key w found in
            let few = tried-le-length (leb_ℤ w.started) key vs in
            let fresh' : leb_ℤ window (since now w.started) ≡ false = rw (sym h.length_of) fresh in
            let over : limit ≤ c =
              ground (arith, allow-granted l key now h.is_map, e, count, h.limited) in
            let within =
              tried-le (leb_ℤ w.started) (recent window now) key vs
                λ t le. recent_mono window now w.started t fresh' ((leb_ℤ_iff w.started t).0 le) in
            omega arith
      ]
