-- ===== src/Admin/Limiter.antt =====
-- internal/admin/ratelimit.go: login attempts per address over a fixed window. The map of windows is
-- an association list with one entry for each key; the mutex makes each call one step, and the clock
-- is an argument of the call. `clientIP` is `client_ip`, over `net.SplitHostPort`.
pub mod Windows
pub mod Bound
use go_personal_web.Prelude.{
  ℕ, ◌≡◌, Bool, true, false, not, Option, none, some, List, [], ◌∷◌, keep, Bytes, ◌=ᵇ◌, ℤ, pos,
  ◌+ℤ◌, leb_ℤ, wrap64, if◌then◌else◌,
}
use go_personal_web.GoStd.Time.{Time, Duration, since}

pub record Window : Type 0 where
  pub count : ℤ
  pub started : Time

abbrev pub Windows : Type 0
Windows = List (Bytes × Window)

pub record Limiter : Type 0 where
  pub limit : ℤ
  pub window : Duration
  pub windows : Windows

unfoldable pub new_limiter : ℤ → Duration → Limiter
new_limiter limit per = record { limit = limit; window = per; windows = [] }

-- `l.windows[key]`
unfoldable pub find : Bytes → Windows → Option Window
find key [] = none
find key ((k, w) ∷ ws) = if k =ᵇ key then some w else find key ws

-- A write through the pointer that the map holds under `key`.
unfoldable pub put : Bytes → Window → Windows → Windows
put key v [] = []
put key v ((k, w) ∷ ws) = let rest = put key v ws in if k =ᵇ key then (k, v) ∷ ws else (k, w) ∷ rest

-- `delete(l.windows, key)`
unfoldable pub delete : Bytes → Windows → Windows
delete key [] = []
delete key ((k, w) ∷ ws) = let rest = delete key ws in if k =ᵇ key then rest else (k, w) ∷ rest

unfoldable pub is_expired : Duration → Time → Window → Bool
is_expired window now w = leb_ℤ window (since now w.started)

-- The loop that deletes the expired windows.
unfoldable pub drop_expired : Duration → Time → Windows → Windows
drop_expired window now [] = []
drop_expired window now ((k, w) ∷ ws) =
    let rest = drop_expired window now ws in if is_expired window now w then rest else (k, w) ∷ rest

-- `w.count++`
unfoldable pub bump : Window → Window
bump w = record w { count = wrap64 (w.count +ℤ pos 1) }

unfoldable pub allow : Limiter → Bytes → Time → Limiter × Bool
allow l key now =
    let ws = drop_expired l.window now l.windows in
    elim (find key ws) [
      | none ↦ (record l { windows = (key, record { count = pos 1; started = now }) ∷ ws }, true)
      | some w ↦ (record l { windows = put key (bump w) ws }, leb_ℤ (bump w).count l.limit)
    ]

unfoldable pub reset : Limiter → Bytes → Limiter
reset l key = record l { windows = delete key l.windows }
