-- ===== src/GoStd/Strings.antt =====
-- `strings`: prefixes and suffixes, `Cut` and `Split` at a one-byte separator.
use go_personal_web.Prelude.{
  ℕ, ◌-◌, ◌≡◌, refl, Bool, true, false, ◌&&◌, ◌||◌, codes, Option, none, some, List, [], ◌∷◌, ◌++◌,
  arith, leb, ◌==◌, if◌then◌else◌, length, drop, Bytes, ◌=ᵇ◌, Lacks, All, ◌≢◌,
}
use mathlib.Core.List.{reverse}

-- `strings.HasPrefix(s, prefix)`
unfoldable pub has_prefix : Bytes → Bytes → Bool
has_prefix s [] = true
has_prefix [] (p ∷ ps) = false
has_prefix (c ∷ s) (p ∷ ps) = (c == p) && has_prefix s ps

-- `strings.HasSuffix(s, suffix)`
unfoldable pub has_suffix : Bytes → Bytes → Bool
has_suffix s suffix =
    leb (length suffix) (length s) && (drop (length s - length suffix) s =ᵇ suffix)

abbrev cons_first : ℕ → Option (Bytes × Bytes) → Option (Bytes × Bytes)
cons_first c none = none
cons_first c (some (before, after)) = some (c ∷ before, after)

-- `strings.Cut(s, sep)`: the text before and after the first separator.
unfoldable pub cut : ℕ → Bytes → Option (Bytes × Bytes)
cut sep [] = none
cut sep (c ∷ s) = if c == sep then some ([], s) else cons_first c (cut sep s)

abbrev cons_part : ℕ → List Bytes → List Bytes
cons_part c [] = (c ∷ []) ∷ []
cons_part c (p ∷ ps) = (c ∷ p) ∷ ps

-- `strings.Split(s, sep)`
unfoldable pub split : ℕ → Bytes → List Bytes
split sep [] = [] ∷ []
split sep (c ∷ s) = if c == sep then [] ∷ split sep s else cons_part c (split sep s)

-- The code points that `unicode.IsSpace` names, by the bytes of their encodings.
unfoldable pub is_space1 : ℕ → Bool
is_space1 c = (leb 9 c && leb c 13) || c == b' '

unfoldable pub is_space2 : ℕ → ℕ → Bool
is_space2 a b = a == 0xc2 && (b == 0x85 || b == 0xa0)

unfoldable pub is_space3 : ℕ → ℕ → ℕ → Bool
is_space3 a b c =
    (a == 0xe1 && b == 0x9a && c == 0x80)
    || (a == 0xe2
        && b == 0x80
        && ((leb 0x80 c && leb c 0x8a) || c == 0xa8 || c == 0xa9 || c == 0xaf))
    || (a == 0xe2 && b == 0x81 && c == 0x9f)
    || (a == 0xe3 && b == 0x80 && c == 0x80)

-- Skips the spaces at the front; the tests say how two and three bytes are read.
skip_spaces : (ℕ → ℕ → Bool) → (ℕ → ℕ → ℕ → Bool) → Bytes → Bytes
skip_spaces two three [] = []
skip_spaces two three (a ∷ []) = if is_space1 a then [] else a ∷ []
skip_spaces two three (a ∷ b ∷ []) =
    let after1 = skip_spaces two three (b ∷ []) in
    if is_space1 a then after1 else if two a b then [] else a ∷ b ∷ []
skip_spaces two three (a ∷ b ∷ c ∷ s) =
    let after1 = skip_spaces two three (b ∷ c ∷ s) in
    let after2 = skip_spaces two three (c ∷ s) in
    let after3 = skip_spaces two three s in
    if is_space1 a
    then after1
    else if two a b
    then after2
    else if three a b c
    then after3
    else a ∷ b ∷ c ∷ s

-- `strings.TrimSpace`: the back is trimmed on the reversed text.
unfoldable pub trim_space : Bytes → Bytes
unfolding skip_spaces is_space1 is_space2 is_space3
trim_space s = reverse (
    skip_spaces (λ a b. is_space2 b a) (λ a b c. is_space3 c b a)
      (reverse (skip_spaces is_space2 is_space3 s)))

-- `strings.TrimPrefix(s, prefix)`
unfoldable pub trim_prefix : Bytes → Bytes → Bytes
unfolding has_prefix
trim_prefix s prefix = if has_prefix s prefix then drop (length prefix) s else s

trims : (trim_space (codes " a b \t\n") ≡ codes "a b") × (trim_space (codes "  ") ≡ [])
unfolding trim_space codes
trims = (refl, refl)

pub has_prefix-append : (p s : Bytes) → has_prefix (p ++ s) p ≡ true
unfolding has_prefix
has_prefix-append [] s = refl
has_prefix-append (c ∷ p) s = ground (arith, has_prefix-append p s)

-- A text with a prefix is the prefix and a rest.
pub rest_of_has_prefix : (s p : Bytes) → has_prefix s p ≡ true → (rest : Bytes) × (s ≡ p ++ rest)
unfolding has_prefix
rest_of_has_prefix s [] h = (s, refl)
rest_of_has_prefix [] (q ∷ p) h = absurd (cc)
rest_of_has_prefix (c ∷ s) (q ∷ p) h =
    let (rest, e) = rest_of_has_prefix s p (ground arith) in (rest, ground arith)

pub cut-append : (sep : ℕ) (s t : Bytes) → Lacks sep s → cut sep (s ++ sep ∷ t) ≡ some (s, t)
unfolding cut
cut-append sep [] t h = ground arith
cut-append sep (c ∷ s) t (ne, h) = ground (arith, cut-append sep s t h)

pub cut-Lacks : (sep : ℕ) (s : Bytes) → Lacks sep s → cut sep s ≡ none
unfolding cut
cut-Lacks sep [] h = refl
cut-Lacks sep (c ∷ s) (ne, h) = ground (arith, cut-Lacks sep s h)

-- What `Cut` returns spells the text, and the first part is free of the separator.
pub cut_sound :
    (sep : ℕ) (s before after : Bytes)
    → cut sep s ≡ some (before, after)
    → (s ≡ before ++ sep ∷ after) × Lacks sep before
unfolding cut
cut_sound sep [] before after e = absurd (cc)
cut_sound sep (c ∷ s) [] after e = ground arith
cut_sound sep (c ∷ s) (b ∷ before) after e = ground (arith, cut_sound sep s before after)

pub split-Lacks : (sep : ℕ) (s : Bytes) → Lacks sep s → split sep s ≡ s ∷ []
unfolding split
split-Lacks sep [] h = refl
split-Lacks sep (c ∷ s) (ne, h) = ground (arith, split-Lacks sep s h)

cons_part-Lacks :
    (sep c : ℕ) (ps : List Bytes) → c ≢ sep → All (Lacks sep) ps → All (Lacks sep) (cons_part c ps)
cons_part-Lacks sep c [] ne h = ((ne, tt), tt)
cons_part-Lacks sep c (p ∷ ps) ne (lacks, h) = ((ne, lacks), h)

-- No part of a split text holds the separator.
pub split_parts-Lacks : (sep : ℕ) (s : Bytes) → All (Lacks sep) (split sep s)
unfolding split
split_parts-Lacks sep [] = (tt, tt)
split_parts-Lacks sep (c ∷ s) =
    ground (arith, split_parts-Lacks sep s, cons_part-Lacks sep c (split sep s))

pub split-append :
    (sep : ℕ) (s t : Bytes) → Lacks sep s → split sep (s ++ sep ∷ t) ≡ s ∷ split sep t
unfolding split
split-append sep [] t h = ground arith
split-append sep (c ∷ s) t (ne, h) = ground (arith, split-append sep s t h)
