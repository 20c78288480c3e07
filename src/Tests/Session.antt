-- ===== src/Tests/Session.antt =====
-- Session cookies under a concrete MAC.
use go_personal_web.Prelude.{
  ◌≡◌, refl, true, none, some, [], ◌∷◌, Bytes, codes, ltb_ℤ, All, IsByte, arith, if◌then◌else◌,
  floor_div, ◌+ℤ◌, =ᵇ_refl,
}
use go_personal_web.GoStd.Time.{add, unix}
use go_personal_web.Http.{Request, find_pair}
use go_personal_web.Admin.Session.{
  Session, Sessions, cookie_name, payload, sign, issue, open_value, verify, clear,
}
use go_personal_web.Admin.Session.Signing.{IsGenuine, open_value-IsGenuine}
use go_personal_web.Admin.Session.Deadline.{
  IsSane, truncated, verify-issue, open_value-sign_deadline,
}
use go_personal_web.Tests.Data.{mac, at, sessions, request}

abbrev pub started : Session
started = record { issued_at = at 0; expires_at = add (at 0) sessions.ttl }

pub started-IsSane : IsSane started
unfolding unix floor_div ◌+ℤ◌
started-IsSane = omega arith

pub started_bytes : All IsByte (mac sessions.key (payload started))
unfolding payload
started_bytes = omega arith

abbrev pub visitor : Request
visitor =
    request (codes "GET") (codes "/admin/posts")
      ((cookie_name, (issue mac sessions (at 0)).value) ∷ []) none

pub carried : find_pair cookie_name visitor.cookies ≡ some (issue mac sessions (at 0)).value
unfolding find_pair
carried = rw =ᵇ_refl

verify-issue_example : verify mac sessions (at 60) visitor ≡ (
    if ltb_ℤ (unix (at 60)) (unix (add (at 0) sessions.ttl))
    then some (truncated started)
    else none)
verify-issue_example =
    verify-issue mac sessions (at 0) (at 60) visitor started-IsSane started_bytes carried

abbrev value : Bytes
value = sign mac sessions started

alive_now : ltb_ℤ (unix (at 60)) (unix started.expires_at) ≡ true
unfolding unix floor_div ◌+ℤ◌
alive_now = refl

opened : open_value mac sessions (at 60) value ≡ some (truncated started)
opened =
    rw (
      open_value-sign_deadline mac sessions started (at 60) started-IsSane started_bytes,
      alive_now,
    )

open_value-IsGenuine_example : IsGenuine mac sessions (at 60) value (truncated started)
open_value-IsGenuine_example =
    open_value-IsGenuine mac sessions (at 60) value (truncated started) opened

abbrev rotated : Sessions
rotated = record sessions { key = 108 ∷ [] }

abbrev left : Request
left =
    request (codes "GET") (codes "/admin/posts") ((cookie_name, (clear sessions).value) ∷ []) none
