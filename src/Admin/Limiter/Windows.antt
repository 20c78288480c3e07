-- ===== src/Admin/Limiter/Windows.antt =====
-- The windows as a map: each call in terms of what is found under each key.
use go_personal_web.Prelude.{
  ◌≡◌, refl, Bool, true, Option, none, some, [], ◌∷◌, arith, Bytes, ◌=ᵇ◌, =ᵇ_iff, ℤ, pos, leb_ℤ,
  if◌then◌else◌, Option-cases, inl, inr,
}
use go_personal_web.GoStd.Time.{Time, Duration}
use go_personal_web.Admin.Limiter.{
  Window, Windows, Limiter, find, put, delete, is_expired, drop_expired, bump, allow, reset,
}

-- One entry for each key, as in a Go map.
abbrev pub IsMap : Windows → Type 0
IsMap [] = Unit
IsMap ((k, w) ∷ ws) = (find k ws ≡ none) × IsMap ws

-- The window that counts for a key at an instant: an expired one does not.
unfoldable pub live : Duration → Time → Bytes → Windows → Option Window
live window now key ws = elim (find key ws) [
  | none ↦ none
  | some w ↦ if is_expired window now w then none else some w
]

find-put :
    (key j : Bytes) (v w : Window) (ws : Windows)
    → find key ws ≡ some w
    → find j (put key v ws) ≡ (if key =ᵇ j then some v else find j ws)
unfolding find put
find-put key j v w [] e = absurd (cc)
find-put key j v w ((k, u) ∷ ws) e =
    ground (arith, =ᵇ_iff k key, =ᵇ_iff k j, =ᵇ_iff key j, find-put key j v w ws)

find-delete :
    (key j : Bytes) (ws : Windows) → find j (delete key ws) ≡ (if key =ᵇ j then none else find j ws)
unfolding find delete
find-delete key j [] = ground arith
find-delete key j ((k, u) ∷ ws) =
    ground (arith, =ᵇ_iff k key, =ᵇ_iff k j, =ᵇ_iff key j, find-delete key j ws)

module _ (window : Duration) (now : Time) where
  drop_expired-none :
      (key : Bytes) (ws : Windows)
      → find key ws ≡ none
      → find key (drop_expired window now ws) ≡ none
  unfolding find drop_expired
  drop_expired-none key [] e = refl
  drop_expired-none key ((k, w) ∷ ws) e = ground (arith, drop_expired-none key ws)

  find-drop_expired :
      (key : Bytes) (ws : Windows)
      → IsMap ws
      → find key (drop_expired window now ws) ≡ live window now key ws
  unfolding find drop_expired live
  find-drop_expired key [] m = refl
  find-drop_expired key ((k, w) ∷ ws) (fresh, m) =
      ground (arith, =ᵇ_iff k key, find-drop_expired key ws m, drop_expired-none key ws)

  drop_expired-IsMap : (ws : Windows) → IsMap ws → IsMap (drop_expired window now ws)
  unfolding drop_expired
  drop_expired-IsMap [] m = tt
  drop_expired-IsMap ((k, w) ∷ ws) (fresh, m) =
      ground (arith, drop_expired-IsMap ws m, drop_expired-none k ws fresh)

put-none :
    (key j : Bytes) (v : Window) (ws : Windows) → find j ws ≡ none → find j (put key v ws) ≡ none
unfolding find put
put-none key j v [] e = refl
put-none key j v ((k, w) ∷ ws) e = ground (arith, put-none key j v ws)

put-IsMap : (key : Bytes) (v : Window) (ws : Windows) → IsMap ws → IsMap (put key v ws)
unfolding put
put-IsMap key v [] m = tt
put-IsMap key v ((k, w) ∷ ws) (fresh, m) =
    ground (arith, put-IsMap key v ws m, put-none key k v ws fresh)

delete-none : (key j : Bytes) (ws : Windows) → find j ws ≡ none → find j (delete key ws) ≡ none
delete-none key j ws e = ground (arith, find-delete key j ws)

delete-IsMap : (key : Bytes) (ws : Windows) → IsMap ws → IsMap (delete key ws)
unfolding delete
delete-IsMap key [] m = tt
delete-IsMap key ((k, w) ∷ ws) (fresh, m) =
    ground (arith, delete-IsMap key ws m, delete-none key k ws fresh)

-- What a key's window becomes at an attempt: a first attempt opens one, a later one counts.
unfoldable pub counted : Time → Option Window → Window
counted now none = record { count = pos 1; started = now }
counted now (some w) = bump w

-- Whether the attempt goes ahead: the first of a window always does.
unfoldable pub granted : ℤ → Option Window → Bool
granted limit none = true
granted limit (some w) = leb_ℤ (bump w).count limit

module _ (l : Limiter) (key : Bytes) (now : Time) (m : IsMap l.windows) where
  -- `allow` decides by the key's own live window.
  pub allow-granted : (allow l key now).1 ≡ granted l.limit (live l.window now key l.windows)
  unfolding allow granted
  allow-granted = ground (arith, find-drop_expired l.window now key l.windows m)

  -- On windows with one entry for each key, an attempt is counted under its own key: it opens a window
  -- or counts in the live one. Of other keys an expired window is forgotten, and a live one left alone.
  pub find-allow :
      (j : Bytes)
      → find j (allow l key now).0.windows ≡ (
          if key =ᵇ j
          then some (counted now (live l.window now key l.windows))
          else live l.window now j l.windows)
  unfolding allow find counted
  find-allow j =
      let ws = drop_expired l.window now l.windows in
      let here = find-drop_expired l.window now key l.windows m in
      let there = find-drop_expired l.window now j l.windows m in
      elim (Option-cases (find key ws)) [
        | inl e ↦ ground (arith, e, here, there)
        | inr (w, e) ↦ ground (arith, e, here, there, find-put key j (bump w) w ws e)
      ]

  pub allow-IsMap : IsMap (allow l key now).0.windows
  unfolding allow
  allow-IsMap =
      let ws = drop_expired l.window now l.windows in
      let v = drop_expired-IsMap l.window now l.windows m in
      elim (Option-cases (find key ws)) [
        | inl e ↦ rw (e, allow) (e, v)
        | inr (w, e) ↦ rw (e, allow) (put-IsMap key (bump w) ws v)
      ]

  pub allow_config : ((allow l key now).0.limit ≡ l.limit) × ((allow l key now).0.window ≡ l.window)
  unfolding allow
  allow_config = ground arith

pub reset-IsMap : (l : Limiter) (key : Bytes) → IsMap l.windows → IsMap (reset l key).windows
unfolding reset
reset-IsMap l key m = delete-IsMap key l.windows m

pub find-reset :
    (l : Limiter) (key j : Bytes)
    → find j (reset l key).windows ≡ (if key =ᵇ j then none else find j l.windows)
unfolding reset
find-reset l key j = find-delete key j l.windows
