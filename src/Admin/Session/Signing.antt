-- ===== src/Admin/Session/Signing.antt =====
-- What a cookie value is accepted for.
use go_personal_web.Prelude.{
  ◌≡◌, refl, ap, ◌∙◌, true, none, some, [], ◌∷◌, arith, Bytes, ◌=ᵇ◌, =ᵇ_iff, IsByte, All, ℤ,
  IsInt64, if◌then◌else◌, Option-cases, inl, inr, All-append,
}
use go_personal_web.GoStd.Time.{Time, is_before, unix, from_unix}
use go_personal_web.GoStd.Strings.{cut, split, cut-append, split-append, split-Lacks}
use go_personal_web.GoStd.Decimal.{format_int}
use go_personal_web.GoStd.Decimal.RoundTrip.{
  parse_int-format_int, format_int-Lacks, format_int-IsByte,
}
use go_personal_web.GoStd.Base64.{encode, decode, raw_url, decode-encode, encode-Lacks}
use go_personal_web.Admin.Session.{
  Session, Sessions, payload, read_fields, sign, read_payload, open_value,
}

-- The fields of a printed payload are read back.
pub read_fields-payload :
    (sess : Session)
    → IsInt64 (unix sess.issued_at)
    → IsInt64 (unix sess.expires_at)
    → read_fields (split b'|' (payload sess)) ≡ some (unix sess.issued_at, unix sess.expires_at)
unfolding payload read_fields ◌=ᵇ◌
read_fields-payload sess hi he =
    rw
      (
        split-append b'|' (b'1' ∷ []) _ (omega arith),
        split-append b'|' (format_int (unix sess.issued_at)) _
            (format_int-Lacks b'|' _ (omega arith)),
        split-Lacks b'|' (format_int (unix sess.expires_at))
            (format_int-Lacks b'|' _ (omega arith)),
      )
      (ground (
        arith,
        parse_int-format_int (unix sess.issued_at) hi,
        parse_int-format_int (unix sess.expires_at) he,
      ))

payload-IsByte : (sess : Session) → All IsByte (payload sess)
unfolding payload
payload-IsByte sess = (
  omega arith,
  (
    omega arith,
    All-append IsByte (format_int (unix sess.issued_at)) _ (format_int-IsByte _)
        (omega arith, format_int-IsByte _),
  ),
)

module _ (hmac : Bytes → Bytes → Bytes) where
  -- Opening a value signed under any key compares the MACs of its payload.
  pub open_value-sign :
      (old s : Sessions) (sess : Session) (now : Time)
      → All IsByte (hmac old.key (payload sess))
      → open_value hmac s now (sign hmac old sess) ≡ (
          if hmac old.key (payload sess) =ᵇ hmac s.key (payload sess)
          then read_payload now (payload sess)
          else none)
  unfolding open_value sign
  open_value-sign old s sess now h = ground (
    arith,
    cut-append b'.' (encode raw_url (payload sess)) (encode raw_url (hmac old.key (payload sess)))
        (encode-Lacks raw_url b'.' _ (inl refl) (inl refl)),
    decode-encode raw_url (payload sess) (inl refl) (payload-IsByte sess),
    decode-encode raw_url (hmac old.key (payload sess)) (inl refl) h,
  )

-- What `open` has seen of a value that it accepts: a payload and the MAC that the key gives it, the
-- two integers in the payload, and a deadline that has not passed.
pub record IsGenuine (hmac : Bytes → Bytes → Bytes) (s : Sessions) (now : Time) (value : Bytes)
    (sess : Session) : Type 0 where
  pub enc_payload : Bytes
  pub enc_mac : Bytes
  pub text : Bytes
  pub fields : ℤ × ℤ
  pub cut_here : cut b'.' value ≡ some (enc_payload, enc_mac)
  pub decoded : decode raw_url enc_payload ≡ some text
  pub authentic : decode raw_url enc_mac ≡ some (hmac s.key text)
  pub parsed : read_fields (split b'|' text) ≡ some fields
  pub times : sess ≡ record { issued_at = from_unix fields.0; expires_at = from_unix fields.1 }
  pub alive : is_before now sess.expires_at ≡ true

read_payload_inv :
    (now : Time) (text : Bytes) (sess : Session)
    → read_payload now text ≡ some sess
    → (f : ℤ × ℤ) × (read_fields (split b'|' text) ≡ some f)
      × (sess ≡ record { issued_at = from_unix f.0; expires_at = from_unix f.1 })
      × (is_before now sess.expires_at ≡ true)
unfolding read_payload
read_payload_inv now text sess e = elim (Option-cases (read_fields (split b'|' text))) [
  | inl n ↦ absurd (ground arith)
  | inr (f, p) ↦ (f, p, ground arith, ground arith)
]

module _ (hmac : Bytes → Bytes → Bytes) where
  -- `open` accepts a value only if it has two parts that decode, the second is the MAC that the key gives
  -- the first, the payload holds two times, and the deadline among them has not passed.
  pub open_value-IsGenuine :
      (s : Sessions) (now : Time) (value : Bytes) (sess : Session)
      → open_value hmac s now value ≡ some sess
      → IsGenuine hmac s now value sess
  unfolding open_value
  open_value-IsGenuine s now value sess e = elim (Option-cases (cut b'.' value)) [
    | inl n ↦ absurd (ground arith)
    | inr ((p, m), c) ↦ elim (Option-cases (decode raw_url p)) [
      | inl n ↦ absurd (ground arith)
      | inr (text, d) ↦ elim (Option-cases (decode raw_url m)) [
        | inl n ↦ absurd (ground arith)
        | inr (mac, d') ↦
            let same : mac ≡ hmac s.key text = (=ᵇ_iff _ _).0 (ground arith) in
            let (f, parsed, times, alive) = read_payload_inv now text sess (ground arith) in
            record {
              enc_payload = p;
              enc_mac = m;
              text = text;
              fields = f;
              cut_here = c;
              decoded = d;
              authentic = d' ∙ ap some same;
              parsed = parsed;
              times = times;
              alive = alive;
            }
      ]
    ]
  ]
