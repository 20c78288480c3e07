-- ===== src/Config/Redaction.antt =====
-- internal/config/dsn.go and secret.go: what a rendered value tells of what it hides.
use go_personal_web.Prelude.{◌≡◌, ◌≢◌, refl, Option, some, [], Bytes, ◌=ᵇ◌, =ᵇ_iff, false, arith}
use go_personal_web.Config.{Url, redact_user, dsn_string, secret_string}

-- A password was replaced by another one.
abbrev pub with_password : Url → Bytes → Bytes → Url
with_password u name password = record u { user = some (name, some password) }

-- Rendering tells nothing of a password: two connection strings whose URLs differ in it alone print the
-- same, whatever the printer of URLs is; and two secrets that are both set print the same.
pub rendering_hides :
    (parse : Bytes → Option Url) (print : Url → Bytes) (d d' name password password' : Bytes)
    (u : Url) (s s' : Bytes)
    → d ≢ []
    → d' ≢ []
    → parse d ≡ some (with_password u name password)
    → parse d' ≡ some (with_password u name password')
    → s ≢ []
    → s' ≢ []
    → (dsn_string parse print d ≡ dsn_string parse print d') × (secret_string s ≡ secret_string s')
unfolding dsn_string redact_user secret_string
rendering_hides parse print d d' name password password' u s s' hd hd' p p' hs hs' =
    (rw (dsn_string, filled d hd, filled d' hd', p, p') refl, rw (filled s hs, filled s' hs'))
  where
    filled : (t : Bytes) → t ≢ [] → (t =ᵇ []) ≡ false
    filled t ne = ground (arith, =ᵇ_iff t [])
