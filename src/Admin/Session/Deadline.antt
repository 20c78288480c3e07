-- ===== src/Admin/Session/Deadline.antt =====
-- How long an issued cookie is accepted, and what ends it earlier.
use go_personal_web.Prelude.{
  ◌≡◌, ◌≢◌, none, some, arith, Bytes, =ᵇ_iff, =ᵇ_refl, IsByte, All, ℤ, IsInt64, ltb_ℤ, ltb_ℤ_iff,
  if◌then◌else◌, int_laws,
}
use go_personal_web.GoStd.Time.{Time, is_before, add, unix, from_unix, IsUnix, before-from_unix_iff}
use go_personal_web.GoStd.Strings.{cut}
use go_personal_web.Http.{Request, find_pair}
use go_personal_web.Admin.Session.{
  Session, Sessions, payload, sign, issue, read_payload, open_value, verify, clear, cookie_name,
}
use go_personal_web.Admin.Session.Signing.{read_fields-payload, open_value-sign}

IsUnix-IsInt64 : (z : ℤ) → IsUnix z → IsInt64 z
IsUnix-IsInt64 z h = omega int_laws

-- The session as it comes back from a cookie: its times lose what is below a second.
abbrev pub truncated : Session → Session
truncated sess = record {
  issued_at = from_unix (unix sess.issued_at);
  expires_at = from_unix (unix sess.expires_at);
}

-- Instants whose Unix seconds Go converts both ways.
abbrev pub IsSane : Session → Type 0
IsSane sess = IsUnix (unix sess.issued_at) × IsUnix (unix sess.expires_at)

before-ltb : (t z : ℤ) → IsUnix z → is_before t (from_unix z) ≡ ltb_ℤ (unix t) z
before-ltb t z h = ground (arith, before-from_unix_iff t z h, ltb_ℤ_iff (unix t) z)

module _ (hmac : Bytes → Bytes → Bytes) where
  -- A signed session is accepted up to the second of its deadline and refused from then on; what
  -- comes back are its two times, truncated to seconds.
  pub open_value-sign_deadline :
      (s : Sessions) (sess : Session) (now : Time)
      → IsSane sess
      → All IsByte (hmac s.key (payload sess))
      → open_value hmac s now (sign hmac s sess)
        ≡ (if ltb_ℤ (unix now) (unix sess.expires_at) then some (truncated sess) else none)
  open_value-sign_deadline s sess now (hi, he) h =
      rw (open_value-sign hmac s s sess now h, =ᵇ_refl (hmac s.key (payload sess)))
        (unfold read_payload in
          ground (
            arith,
            read_fields-payload sess (IsUnix-IsInt64 _ hi) (IsUnix-IsInt64 _ he),
            before-ltb now (unix sess.expires_at) he,
          ))

  -- A request that carries the cookie issued at `start` is let in before `start + ttl`, counted in
  -- seconds, and never from then on, for instants whose seconds Go converts both ways: nothing
  -- renews the session, and `Max-Age` plays no part.
  pub verify-issue :
      (s : Sessions) (start now : Time) (r : Request)
      → IsSane (record { issued_at = start; expires_at = add start s.ttl })
      → All IsByte
          (hmac s.key (payload (record { issued_at = start; expires_at = add start s.ttl })))
      → find_pair cookie_name r.cookies ≡ some (issue hmac s start).value
      → verify hmac s now r ≡ (
          if ltb_ℤ (unix now) (unix (add start s.ttl))
          then some (truncated (record { issued_at = start; expires_at = add start s.ttl }))
          else none)
  unfolding verify issue
  verify-issue s start now r sane bytes carried =
      rw (carried, verify)
        (open_value-sign_deadline s (record { issued_at = start; expires_at = add start s.ttl }) now
          sane bytes)

  -- Rotating the key ends every session: where the two keys give the payload different MACs, the
  -- cookie issued under the old key is refused under the new one at any time.
  pub open_value_rotated :
      (old new : Sessions) (sess : Session) (now : Time)
      → All IsByte (hmac old.key (payload sess))
      → hmac new.key (payload sess) ≢ hmac old.key (payload sess)
      → open_value hmac new now (sign hmac old sess) ≡ none
  open_value_rotated old new sess now bytes differ =
      rw (open_value-sign hmac old new sess now bytes)
        (ground (arith, =ᵇ_iff (hmac old.key (payload sess)) (hmac new.key (payload sess))))

  -- The cookie that logging out sets is refused.
  pub verify-clear :
      (s : Sessions) (now : Time) (r : Request)
      → find_pair cookie_name r.cookies ≡ some (clear s).value
      → verify hmac s now r ≡ none
  unfolding verify clear open_value cut
  verify-clear s now r carried = ground arith
