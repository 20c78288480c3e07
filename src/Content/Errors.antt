-- ===== src/Content/Errors.antt =====
-- internal/content/errors.go: the database's refusals in the domain's words.
pub mod Translation
use go_personal_web.Prelude.{
  ◌≡◌, ◌↔◌, refl, Bool, true, false, ◌&&◌, Option, none, some, Bytes, ◌=ᵇ◌, =ᵇ_iff, codes,
  if◌then◌else◌, arith,
}
use go_personal_web.GoStd.Strings.{has_suffix}

-- The errors a caller can act on.
pub data Domain : Type 0 where
  not_found slug_taken slug_invalid title_required : Domain

-- What pop and the driver report: `sql.ErrNoRows`, a `*pgconn.PgError`, or anything else.
pub data DbError : Type 0 where
  no_rows : DbError
  pg : (code constraint : Bytes) → DbError
  other : (message : Bytes) → DbError

-- An error of this package: what was being done, and the domain error or the cause that it wraps.
pub data Error : Type 0 where
  refused : (what : Bytes) → Domain → Error
  broken : (what : Bytes) → DbError → Error

pub data Result (A : Type 0) : Type 0 where
  ok : A → Result A
  err : Error → Result A

pub data DbResult (A : Type 0) : Type 0 where
  row : A → DbResult A
  fault : DbError → DbResult A

abbrev pg_unique_violation : Bytes
pg_unique_violation = codes "23505"

abbrev pg_check_violation : Bytes
pg_check_violation = codes "23514"

unfoldable pub domain_error : DbError → Option Domain
domain_error no_rows = none
domain_error (other message) = none
domain_error (pg code constraint) =
    if code =ᵇ pg_unique_violation && has_suffix constraint (codes "_slug_key")
    then some slug_taken
    else if code =ᵇ pg_check_violation && has_suffix constraint (codes "_slug_format")
    then some slug_invalid
    else if code =ᵇ pg_check_violation && has_suffix constraint (codes "_title_present")
    then some title_required
    else none

-- `wrap`; `what` is the formatted text.
unfoldable pub wrap : DbError → Bytes → Error
unfolding domain_error
wrap no_rows what = refused what not_found
wrap e what = elim (domain_error e) [ none ↦ broken what e | some d ↦ refused what d ]

same_domain : Domain → Domain → Bool
same_domain not_found not_found = true
same_domain slug_taken slug_taken = true
same_domain slug_invalid slug_invalid = true
same_domain title_required title_required = true
same_domain _ _ = false

-- `errors.Is(err, d)`
unfoldable pub is : Error → Domain → Bool
unfolding same_domain
is (refused what d) e = same_domain d e
is (broken what cause) e = false
