-- ===== src/GoStd/Paths/Backslash.antt =====
-- `http.Redirect` of a path that leads up to a part which begins with a backslash.
use go_personal_web.Prelude.{
  ℕ, ◌≤◌, ◌<◌, ◌≡◌, ◌≢◌, refl, true, false, [], ◌∷◌, ◌++◌, arith, Bytes, Lacks, All, All-append,
  append-nil, codes, ◌=ᵇ◌,
}
use go_personal_web.GoStd.Strings.{cut-Lacks, split, split-Lacks}
use go_personal_web.GoStd.Urls.{
  escapes_ok, no_controls, before_query, parses_rooted, parses_reference,
}
use go_personal_web.GoStd.Paths.{
  drop_last, clean_part, clean_parts, joined, rooted, clean, ends_in, from_query, hex_escape,
  clean_path, redirect_target,
}

-- A printable byte of ASCII that means nothing to the parser of a path: no space, `#`, `%` or `?`.
abbrev pub IsPlain : ℕ → Type 0
IsPlain c = (33 ≤ c) × (c < 127) × (c ≢ b'#') × (c ≢ b'%') × (c ≢ b'?')

plain-Lacks : (s : Bytes) → All IsPlain s → Lacks b'#' s
plain-Lacks [] h = tt
plain-Lacks (c ∷ s) ((low, high, hash, percent, mark), h) = (hash, plain-Lacks s h)

no_controls-plain : (s : Bytes) → All IsPlain s → no_controls s ≡ true
unfolding no_controls
no_controls-plain [] h = refl
no_controls-plain (c ∷ s) (p, h) = ground (arith, p, no_controls-plain s h)

escapes_ok-plain : (s : Bytes) → All IsPlain s → escapes_ok s ≡ true
unfolding escapes_ok
escapes_ok-plain [] h = refl
escapes_ok-plain (c ∷ []) (p, h) = ground (arith, p)
escapes_ok-plain (c ∷ d ∷ []) (p, (q, h)) = ground (arith, p, q)
escapes_ok-plain (c ∷ d ∷ e ∷ s) (p, h) = ground (arith, p, escapes_ok-plain (d ∷ e ∷ s) h)

before_query-plain : (s : Bytes) → All IsPlain s → before_query s ≡ s
unfolding before_query
before_query-plain [] h = refl
before_query-plain (c ∷ s) (p, h) = ground (arith, p, before_query-plain s h)

from_query-plain : (s : Bytes) → All IsPlain s → from_query s ≡ []
unfolding from_query
from_query-plain [] h = refl
from_query-plain (c ∷ s) (p, h) = ground (arith, p, from_query-plain s h)

hex_escape-plain : (s : Bytes) → All IsPlain s → hex_escape s ≡ s
unfolding hex_escape
hex_escape-plain [] h = refl
hex_escape-plain (c ∷ s) (p, h) = ground (arith, p, hex_escape-plain s h)

pub parses_rooted-plain : (s : Bytes) → All IsPlain s → parses_rooted s ≡ true
unfolding parses_rooted
parses_rooted-plain s h =
    rw (before_query-plain s h, no_controls-plain s h, escapes_ok-plain s h) refl

parses_reference-plain : (s : Bytes) → All IsPlain s → parses_reference s ≡ true
unfolding parses_reference
parses_reference-plain s h =
    rw (parses_reference, cut-Lacks b'#' s (plain-Lacks s h), parses_rooted-plain s h) refl

ends_in-Lacks : (c d : ℕ) (s : Bytes) → d ≢ c → Lacks c s → ends_in c (d ∷ s) ≡ false
unfolding ends_in
ends_in-Lacks c d [] ne h = ground arith
ends_in-Lacks c d (e ∷ s) ne (ne', h) = ends_in-Lacks c e s ne' h

-- Where a slash-free name stands behind a backslash, the two are all that is left.
clean_path-up :
    (name : Bytes)
    → Lacks b'/' name
    → clean_path (codes "/admin/../" ++ b'\\' ∷ name) ≡ b'/' ∷ b'\\' ∷ name
unfolding clean_path clean ends_in codes split clean_parts clean_part drop_last rooted joined ◌=ᵇ◌
clean_path-up name h =
    rw
      (
        clean_path,
        split-Lacks b'/' name h,
        ends_in-Lacks b'/' b'\\' name (omega arith) h,
        append-nil name,
      )
      refl

pub up-IsPlain :
    (name : Bytes) → All IsPlain name → All IsPlain (codes "/admin/../" ++ b'\\' ∷ name)
unfolding codes
up-IsPlain name h =
    All-append IsPlain (codes "/admin/../") (b'\\' ∷ name) (omega arith) (omega arith, h)

-- The redirect goes to a slash, a backslash and the name.
pub redirect_target-up :
    (name : Bytes)
    → All IsPlain name
    → Lacks b'/' name
    → redirect_target (codes "/admin/../" ++ b'\\' ∷ name) ≡ b'/' ∷ b'\\' ∷ name
unfolding redirect_target
redirect_target-up name h lacks =
    let to = codes "/admin/../" ++ b'\\' ∷ name in
    let plain : All IsPlain to = up-IsPlain name h in
    rw
      (
        parses_reference-plain to plain,
        before_query-plain to plain,
        from_query-plain to plain,
        clean_path-up name lacks,
        append-nil name,
      )
      (hex_escape-plain (b'/' ∷ b'\\' ∷ name) (omega arith, (omega arith, h)))
