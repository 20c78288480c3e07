-- ===== src/GoStd/Paths/Laws.antt =====
-- Where a redirect can lead: what cleaning does to the beginning of a path.
use go_personal_web.Prelude.{
  ◌≡◌, ◌≢◌, refl, Bool, true, false, List, [], ◌∷◌, ◌++◌, arith, Bytes, Lacks, All, All-append,
  ◌=ᵇ◌, =ᵇ_iff, Bool-cases, inl, inr, append_assoc, not, ◌&&◌, if◌then◌else◌,
}
use go_personal_web.GoStd.Strings.{has_prefix, split, split_parts-Lacks}
use go_personal_web.GoStd.Urls.{before_query, parses_reference}
use go_personal_web.GoStd.Paths.{
  drop_last, clean_part, clean_parts, joined, rooted, clean, ends_in, from_query, hex_escape,
  clean_path, redirect_target,
}

-- A text that begins with a slash, and not with two: an address of the same host.
pub record IsRooted (s : Bytes) : Type 0 where
  pub slash : has_prefix s (b'/' ∷ []) ≡ true
  pub one_slash : has_prefix s (b'/' ∷ b'/' ∷ []) ≡ false

abbrev IsPart : Bytes → Type 0
IsPart p = (p ≢ []) × Lacks b'/' p

drop_last-All : (ps : List Bytes) → All IsPart ps → All IsPart (drop_last ps)
unfolding drop_last
drop_last-All [] h = tt
drop_last-All (p ∷ []) h = tt
drop_last-All (p ∷ q ∷ ps) (h, k) = (h, drop_last-All (q ∷ ps) k)

clean_part-All :
    (kept : List Bytes) (p : Bytes)
    → All IsPart kept
    → Lacks b'/' p
    → All IsPart (clean_part kept p)
unfolding clean_part
clean_part-All kept p h lacks = elim (Bool-cases (p =ᵇ [])) [
  | inl empty ↦ rw (empty) h
  | inr filled ↦
      let ne : p ≢ [] = (λ e. absurd (let e' = (=ᵇ_iff p []).1 e in cc)) in
      let more : All IsPart (kept ++ p ∷ []) =
        All-append IsPart kept (p ∷ []) h ((ne, lacks), tt) in
      ground (arith, drop_last-All kept h)
]

clean_parts-All :
    (kept ps : List Bytes)
    → All IsPart kept
    → All (Lacks b'/') ps
    → All IsPart (clean_parts kept ps)
unfolding clean_parts
clean_parts-All kept [] h k = h
clean_parts-All kept (p ∷ ps) h (lacks, k) =
    clean_parts-All (clean_part kept p) ps (clean_part-All kept p h lacks) k

rooted-IsRooted :
    (ps : List Bytes) (s : Bytes) → All IsPart ps → ps ≢ [] → IsRooted (rooted ps ++ s)
unfolding rooted joined has_prefix
rooted-IsRooted [] s h ne = absurd (ne refl)
rooted-IsRooted ([] ∷ ps) s ((ne', lacks), h) ne = absurd (ne' refl)
rooted-IsRooted ((c ∷ p) ∷ ps) s ((ne', (not_slash, lacks)), h) ne = record {
  slash = refl;
  one_slash = ground arith;
}

from_query-start : (s : Bytes) → has_prefix (from_query s) (b'/' ∷ []) ≡ false
unfolding from_query has_prefix
from_query-start [] = refl
from_query-start (c ∷ s) = ground (arith, from_query-start s)

hex_escape-start : (s : Bytes) → has_prefix (hex_escape s) (b'/' ∷ []) ≡ has_prefix s (b'/' ∷ [])
unfolding hex_escape has_prefix
hex_escape-start [] = refl
hex_escape-start (c ∷ s) = ground arith

hex_escape-IsRooted : (s : Bytes) → IsRooted s → IsRooted (hex_escape s)
unfolding hex_escape has_prefix
hex_escape-IsRooted [] h = h
hex_escape-IsRooted (c ∷ s) h =
    let first : c ≡ b'/' = (let e = h.slash in ground arith) in
    let start = hex_escape-start s in
    record { slash = ground arith; one_slash = (let e = h.one_slash in ground arith) }

slash_kept-IsRooted :
    (b : Bool) (ps : List Bytes) (t : Bytes)
    → All IsPart ps
    → IsRooted (
        (if b && not (ends_in b'/' (rooted ps)) then rooted ps ++ b'/' ∷ [] else rooted ps)
        ++ from_query t)
slash_kept-IsRooted b [] t h =
    unfold ends_in rooted has_prefix in
    elim (Bool-cases b) [
      | inl is ↦ rw (is) (record { slash = refl; one_slash = from_query-start t })
      | inr is ↦ rw (is) (record { slash = refl; one_slash = from_query-start t })
    ]
slash_kept-IsRooted b (p ∷ ps) t h = elim (Bool-cases (b && not (ends_in b'/' (rooted (p ∷ ps))))) [
  | inl is ↦
      rw (is, append_assoc (rooted (p ∷ ps)) (b'/' ∷ []) (from_query t))
        (rooted-IsRooted (p ∷ ps) (b'/' ∷ from_query t) h (λ e. cc))
  | inr is ↦ rw (is) (rooted-IsRooted (p ∷ ps) (from_query t) h (λ e. cc))
]

clean_path-IsRooted : (s t : Bytes) → IsRooted (clean_path s ++ from_query t)
unfolding clean_path clean
clean_path-IsRooted s t =
    slash_kept-IsRooted (ends_in b'/' s) (clean_parts [] (split b'/' s)) t
      (clean_parts-All [] (split b'/' s) tt (split_parts-Lacks b'/' s))

-- A redirect to a text that begins with one slash goes to a text that begins with one slash.
pub redirect_target-IsRooted : (s : Bytes) → IsRooted s → IsRooted (redirect_target s)
unfolding redirect_target
redirect_target-IsRooted s h = elim (Bool-cases (parses_reference s)) [
  | inl parsed ↦ rw (parsed) (hex_escape-IsRooted _ (clean_path-IsRooted (before_query s) s))
  | inr refused ↦ rw (refused) (hex_escape-IsRooted s h)
]
