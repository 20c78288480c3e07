-- ===== src/Content/Errors/Translation.antt =====
-- Which refusals of the database reach a caller as which domain error.
use go_personal_web.Prelude.{
  ◌+◌, ◌-◌, ◌≡◌, ◌↔◌, ◌∙◌, ◌≤◌, ℕ, refl, true, false, [], ◌∷◌, ◌++◌, Bytes, ◌=ᵇ◌, =ᵇ_refl, codes,
  arith, length, drop, length-append,
}
use native.Mathlib.Nat.{zero-add, suc-add}
use go_personal_web.GoStd.Strings.{has_suffix}
use go_personal_web.Content.Errors.{
  not_found, slug_taken, slug_invalid, title_required, DbError, no_rows, pg, other, refused,
  pg_unique_violation, pg_check_violation, wrap, is,
}

-- Only the absence of a row is reported as "not found".
pub wrap-not_found :
    (e : DbError) (what : Bytes) → (is (wrap e what) not_found ≡ true) ↔ (e ≡ no_rows)
unfolding wrap is
wrap-not_found no_rows what = ground arith
wrap-not_found (pg code constraint) what = ground arith
wrap-not_found (other message) what = ground arith

pub no_rows_of_refused :
    (e : DbError) (what what' : Bytes) → wrap e what ≡ refused what' not_found → e ≡ no_rows
unfolding wrap
no_rows_of_refused no_rows what what' h = refl
no_rows_of_refused (pg code constraint) what what' h = ground arith
no_rows_of_refused (other message) what what' h = ground arith

drop-length-append : (s t : Bytes) → drop (length s) (s ++ t) ≡ t
drop-length-append [] t = refl
drop-length-append (c ∷ s) t = drop-length-append s t

pub has_suffix-append : (s t : Bytes) → has_suffix (s ++ t) t ≡ true
unfolding has_suffix
has_suffix-append s t =
    let e : length (s ++ t) - length t ≡ length s = omega (arith, length-append s t) in
    rw (e, drop-length-append s t, =ᵇ_refl t) (ground (arith, length-append s t))

drop-append : (s t : Bytes) (k : ℕ) → drop (length s + k) (s ++ t) ≡ drop k t
drop-append [] t k = rw zero-add
drop-append (c ∷ s) t k = rw suc-add (drop-append s t k)

-- A suffix no longer than the end of a text is judged by that end.
has_suffix-append_left :
    (s t u : Bytes) → length u ≤ length t → has_suffix (s ++ t) u ≡ has_suffix t u
unfolding has_suffix
has_suffix-append_left s t u h =
    let e : length (s ++ t) - length u ≡ length s + (length t - length u) =
      omega (arith, length-append s t) in
    rw (e, drop-append s t (length t - length u)) (ground (arith, length-append s t))

check_ne_unique : (pg_check_violation =ᵇ pg_unique_violation) ≡ false
unfolding ◌=ᵇ◌ codes
check_ne_unique = refl

title_ne_slug :
    (table : Bytes) → has_suffix (table ++ codes "_title_present") (codes "_slug_format") ≡ false
unfolding codes ◌=ᵇ◌
title_ne_slug table =
    has_suffix-append_left table (codes "_title_present") (codes "_slug_format") (omega arith)
    ∙ (unfold has_suffix in refl)

-- What each constraint of the schema is reported as, whatever the table's name begins with. The
-- names end as the migrations spell them.
pub wrap_constraints :
    (table what : Bytes)
    → (wrap (pg pg_unique_violation (table ++ codes "_slug_key")) what ≡ refused what slug_taken)
      × (wrap (pg pg_check_violation (table ++ codes "_slug_format")) what
          ≡ refused what slug_invalid)
      × (wrap (pg pg_check_violation (table ++ codes "_title_present")) what
          ≡ refused what title_required)
unfolding wrap
wrap_constraints table what = (
  ground (arith, =ᵇ_refl pg_unique_violation, has_suffix-append table (codes "_slug_key")),
  ground (
    arith,
    check_ne_unique,
    =ᵇ_refl pg_check_violation,
    has_suffix-append table (codes "_slug_format"),
  ),
  ground (
    arith,
    check_ne_unique,
    =ᵇ_refl pg_check_violation,
    title_ne_slug table,
    has_suffix-append table (codes "_title_present"),
  ),
)
