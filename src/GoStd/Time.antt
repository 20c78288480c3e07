-- ===== src/GoStd/Time.antt =====
-- `time`: an instant is the number of nanoseconds since the Unix epoch, a duration a number of
-- nanoseconds. One clock stands for the wall and the monotonic reading of Go's `time.Time`.
use go_personal_web.Prelude.{
  ℕ, ◌≡◌, ◌↔◌, Bool, true, arith, ℤ, pos, negsuc, ◌+ℤ◌, ◌-ℤ◌, ◌≤ℤ◌, ◌<ℤ◌, ltb_ℤ, wrap64,
  wrap64-eq_of_IsInt64, min_int64, max_int64, clamp64, floor_div, scale, int_laws,
}

abbrev pub Time : Type 0
Time = ℤ

abbrev pub Duration : Type 0
Duration = ℤ

abbrev pub second : ℕ
second = 1_000_000_000

-- `t.Before(u)`
abbrev pub is_before : Time → Time → Bool
is_before t u = ltb_ℤ t u

-- `t.After(u)`
abbrev pub is_after : Time → Time → Bool
is_after t u = ltb_ℤ u t

-- `t.Add(d)`
abbrev pub add : Time → Duration → Time
add t d = t +ℤ d

-- `t.Sub(u)` saturates at the range of a duration.
unfoldable pub since : Time → Time → Duration
since t u = clamp64 (t -ℤ u)

-- `t.Unix()`
unfoldable pub unix : Time → ℤ
unix t = floor_div t second

-- The seconds from year 1 to the Unix epoch, which `time.Unix` adds in an int64.
abbrev pub epoch_offset : ℕ
epoch_offset = 62_135_596_800

-- `time.Unix(s, 0)`
unfoldable pub from_unix : ℤ → Time
from_unix s = scale (wrap64 (s +ℤ pos epoch_offset) -ℤ pos epoch_offset) second

-- Seconds that `time.Unix` takes with no wrap-around.
abbrev pub IsUnix : ℤ → Type 0
IsUnix s = (min_int64 ≤ℤ s) × (s +ℤ pos epoch_offset ≤ℤ max_int64)

+ℤ-ℤ_cancel : (a b : ℤ) → a +ℤ b -ℤ b ≡ a
+ℤ-ℤ_cancel a b = omega int_laws

pub from_unix-eq_scale : (s : ℤ) → IsUnix s → from_unix s ≡ scale s second
unfolding from_unix
from_unix-eq_scale s h =
    rw (wrap64-eq_of_IsInt64 (s +ℤ pos epoch_offset) (omega int_laws), +ℤ-ℤ_cancel)

-- An instant lies before a whole second exactly when its own second does.
before-scale : (t s : ℤ) → (t <ℤ scale s second) ↔ (floor_div t second <ℤ s)
unfolding scale floor_div
before-scale (pos n) (pos m) = (λ h. omega arith, λ h. omega arith)
before-scale (pos n) (negsuc m) = ground arith
before-scale (negsuc n) (pos m) = ground arith
before-scale (negsuc n) (negsuc m) = ground arith

pub before-from_unix_iff : (t s : ℤ) → IsUnix s → (is_before t (from_unix s) ≡ true) ↔ (unix t <ℤ s)
unfolding unix
before-from_unix_iff t s h = rw (from_unix-eq_scale s h) (ground (arith, before-scale t s))
