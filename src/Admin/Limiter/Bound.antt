-- ===== src/Admin/Limiter/Bound.antt =====
-- How many attempts of one address go ahead within one window.
use go_personal_web.Prelude.{
  ℕ, ◌+◌, ◌-◌, ◌^◌, ◌<◌, min, ◌≡◌, false, none, some, List, [], ◌∷◌, ◌&&◌, arith, Bytes, ◌=ᵇ◌,
  =ᵇ_iff, =ᵇ_refl, pos, ◌+ℤ◌, leb, wrap64, if◌then◌else◌, Bool-cases, inl, inr, length, All,
}
use go_personal_web.GoStd.Time.{Time, Duration}
use go_personal_web.Admin.Limiter.{Limiter, find, is_expired, bump, allow}
use go_personal_web.Admin.Limiter.Windows.{
  IsMap, live, counted, granted, allow-granted, find-allow, allow-IsMap, allow_config,
}

-- An attempt is an instant and the address it comes from.
abbrev pub Attempts : Type 0
Attempts = List (Time × Bytes)

-- The attempts made from an address, and those of them that `allow` lets through, in order.
unfoldable pub made : Bytes → Attempts → ℕ
made key [] = 0
made key ((t, k) ∷ es) = (if k =ᵇ key then 1 else 0) + made key es

unfoldable pub passed : Bytes → Limiter → Attempts → ℕ
passed key l [] = 0
passed key l ((t, k) ∷ es) =
    (if (k =ᵇ key) && (allow l k t).1 then 1 else 0) + passed key (allow l k t).0 es

-- A window of the length `window` that started at `start` is still open at each attempt.
abbrev pub Within : Duration → Time → Attempts → Type 0
Within window start =
    All (λ e. is_expired window e.0 (record { count = pos 0; started = start }) ≡ false)

bump_pos :
    (c : ℕ) (start : Time)
    → c + 1 < 2 ^ 63
    → bump (record { count = pos c; started = start })
      ≡ record { count = pos (c + 1); started = start }
unfolding bump ◌+ℤ◌ wrap64
bump_pos c start h = ground arith

module _ (key : Bytes) (limit : ℕ) (window : Duration) (start : Time) where
  -- The state of a limiter in which the address has an open window with `c` attempts.
  record IsCounting (c : ℕ) (l : Limiter) : Type 0 where
    is_map : IsMap l.windows
    limited : l.limit ≡ pos limit
    length_of : l.window ≡ window
    counting : find key l.windows ≡ some (record { count = pos c; started = start })

  abbrev IsOpen : Time → Type 0
  IsOpen t = is_expired window t (record { count = pos 0; started = start }) ≡ false

  live_counting :
      (c : ℕ) (l : Limiter) (t : Time)
      → IsCounting c l
      → IsOpen t
      → live l.window t key l.windows ≡ some (record { count = pos c; started = start })
  unfolding live is_expired
  live_counting c l t v o = ground arith

  step_own :
      (c : ℕ) (l : Limiter) (t : Time)
      → IsCounting c l
      → IsOpen t
      → c + 1 < 2 ^ 63
      → IsCounting (c + 1) (allow l key t).0
  step_own c l t v o h = record {
    is_map = allow-IsMap l key t v.is_map;
    limited = ground (arith, allow_config l key t v.is_map, v.limited);
    length_of = ground (arith, allow_config l key t v.is_map, v.length_of);
    counting =
        unfold counted in
        ground (
          arith,
          find-allow l key t v.is_map key,
          =ᵇ_refl key,
          live_counting c l t v o,
          bump_pos c start h,
        );
  }

  step_other :
      (c : ℕ) (l : Limiter) (t : Time) (k : Bytes)
      → IsCounting c l
      → IsOpen t
      → (k =ᵇ key) ≡ false
      → IsCounting c (allow l k t).0
  step_other c l t k v o other = record {
    is_map = allow-IsMap l k t v.is_map;
    limited = ground (arith, allow_config l k t v.is_map, v.limited);
    length_of = ground (arith, allow_config l k t v.is_map, v.length_of);
    counting = ground (arith, find-allow l k t v.is_map key, other, live_counting c l t v o);
  }

  own_granted :
      (c : ℕ) (l : Limiter) (t : Time)
      → IsCounting c l
      → IsOpen t
      → c + 1 < 2 ^ 63
      → (allow l key t).1 ≡ leb (c + 1) limit
  unfolding granted
  own_granted c l t v o h = ground (
    arith,
    allow-granted l key t v.is_map,
    live_counting c l t v o,
    bump_pos c start h,
    v.limited,
  )

  passed_counting :
      (es : Attempts) (c : ℕ) (l : Limiter)
      → IsCounting c l
      → Within window start es
      → c + length es < 2 ^ 63
      → passed key l es ≡ min (made key es) (limit - c)
  unfolding passed made
  passed_counting [] c l v w h = omega arith
  passed_counting ((t, k) ∷ es) c l v (o, w) h = elim (Bool-cases (k =ᵇ key)) [
    | inl own ↦
        rw ((=ᵇ_iff k key).0 own, =ᵇ_refl key, own_granted c l t v o (omega arith))
          (ground (
            arith,
            passed_counting es (c + 1) (allow l key t).0 (step_own c l t v o (omega arith)) w
                (omega arith),
          ))
    | inr other ↦ rw other (
        ground (
          arith,
          passed_counting es c (allow l k t).0 (step_other c l t k v o other) w (omega arith),
        ))
  ]

-- With a positive limit, an address with no open window gets one at its first attempt. Of its
-- attempts from then on, while that window is open, the first `limit` go ahead and no other,
-- whatever other addresses do.
pub passed-Within :
    (l : Limiter) (key : Bytes) (limit : ℕ) (start : Time) (es : Attempts)
    → IsMap l.windows
    → l.limit ≡ pos limit
    → 0 < limit
    → live l.window start key l.windows ≡ none
    → Within l.window start es
    → 1 + length es < 2 ^ 63
    → passed key l ((start, key) ∷ es) ≡ min (made key ((start, key) ∷ es)) limit
unfolding passed made granted counted
passed-Within l key limit start es m e h fresh w small =
    let counting : IsCounting key limit l.window start 1 (allow l key start).0 = record {
      is_map = allow-IsMap l key start m;
      limited = ground (arith, allow_config l key start m);
      length_of = ground (arith, allow_config l key start m);
      counting = ground (arith, find-allow l key start m key, =ᵇ_refl key);
    } in
    rw =ᵇ_refl (
      ground (
        arith,
        allow-granted l key start m,
        passed_counting key limit l.window start es 1 (allow l key start).0 counting w small,
      ))
