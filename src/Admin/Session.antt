-- ===== src/Admin/Session.antt =====
-- internal/admin/session.go: issuing, signing and verifying the session cookie.
-- `hmac` is HMAC-SHA256 of the standard library, taken as an arbitrary function of key and message.
pub mod Signing
pub mod Deadline
use go_personal_web.Prelude.{
  ℕ, zero, suc, ◌≡◌, Bool, true, false, not, ◌&&◌, Option, none, some, List, [], ◌∷◌, ◌++◌, arith,
  Bytes, ◌=ᵇ◌, codes, ℤ, pos, negsuc, floor_div, if◌then◌else◌,
}
use go_personal_web.GoStd.Time.{Time, Duration, is_before, add, unix, from_unix, second}
use go_personal_web.GoStd.Strings.{cut, split}
use go_personal_web.GoStd.Decimal.{format_int, parse_int}
use go_personal_web.GoStd.Base64.{encode, decode, raw_url}
use go_personal_web.Http.{Request, Cookie, find_pair}

unfoldable pub cookie_name : Bytes
cookie_name = codes "pw_session"

-- What the signed cookie carries.
pub record Session : Type 0 where
  pub issued_at : Time
  pub expires_at : Time

pub record Sessions : Type 0 where
  pub key : Bytes
  pub ttl : Duration
  pub insecure : Bool

unfoldable pub new_sessions : Bytes → Duration → Bool → Sessions
new_sessions secret ttl insecure = record { key = secret; ttl = ttl; insecure = insecure }

-- `fmt.Sprintf("1|%d|%d", …)`
unfoldable pub payload : Session → Bytes
payload sess =
    b'1' ∷ b'|' ∷ (format_int (unix sess.issued_at) ++ b'|' ∷ format_int (unix sess.expires_at))

-- `int(d.Seconds())`, for durations whose float64 seconds do not round up to the next second.
unfoldable pub whole_seconds : Duration → ℤ
whole_seconds (pos n) = floor_div (pos n) second
whole_seconds (negsuc n) = elim (floor_div (pos (suc n)) second) [
  | pos zero ↦ pos zero
  | pos (suc q) ↦ negsuc q
  | negsuc q ↦ negsuc q
]

-- The two fields of a payload that are times, where they parse.
unfoldable pub read_fields : List Bytes → Option (ℤ × ℤ)
read_fields (version ∷ issued ∷ expires ∷ []) =
    if version =ᵇ (b'1' ∷ [])
    then elim (parse_int issued) [
      | none ↦ none
      | some i ↦ elim (parse_int expires) [ none ↦ none | some e ↦ some (i, e) ]
    ]
    else none
read_fields _ = none

-- The last step of `open`: a verified payload, its fields and its deadline.
unfoldable pub read_payload : Time → Bytes → Option Session
unfolding read_fields
read_payload now text = elim (read_fields (split b'|' text)) [
  | none ↦ none
  | some (i, e) ↦
      if is_before now (from_unix e)
      then some (record { issued_at = from_unix i; expires_at = from_unix e })
      else none
]

module _ (hmac : Bytes → Bytes → Bytes) where
  unfoldable pub sign : Sessions → Session → Bytes
  unfolding payload
  sign s sess = encode raw_url (payload sess) ++ b'.' ∷ encode raw_url (hmac s.key (payload sess))

  unfoldable pub issue : Sessions → Time → Cookie
  unfolding cookie_name
  issue s now = record {
    name = cookie_name;
    value = sign s (record { issued_at = now; expires_at = add now s.ttl });
    path = codes "/admin";
    same_site_strict = true;
    http_only = true;
    secure = not s.insecure;
    max_age = whole_seconds s.ttl;
  }

  -- `open`; `none` is `errNoSession`.
  unfoldable pub open_value : Sessions → Time → Bytes → Option Session
  unfolding read_payload
  open_value s now value = elim (cut b'.' value) [
    | none ↦ none
    | some (enc_payload, enc_mac) ↦ elim (decode raw_url enc_payload) [
      | none ↦ none
      | some text ↦ elim (decode raw_url enc_mac) [
        | none ↦ none
        | some mac ↦ if mac =ᵇ hmac s.key text then read_payload now text else none
      ]
    ]
  ]

  unfoldable pub verify : Sessions → Time → Request → Option Session
  unfolding cookie_name
  verify s now r = elim (find_pair cookie_name r.cookies) [
    | none ↦ none
    | some value ↦ open_value s now value
  ]

unfoldable pub clear : Sessions → Cookie
unfolding cookie_name
clear s = record {
  name = cookie_name;
  value = [];
  path = codes "/admin";
  same_site_strict = true;
  http_only = true;
  secure = not s.insecure;
  max_age = negsuc 0;
}
