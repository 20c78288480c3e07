-- ===== src/Admin/Password.antt =====
-- internal/admin/password.go: argon2id hashes in their encoded form.
-- `id_key` is `argon2.IDKey` of golang.org/x/crypto: password, salt, time, memory, threads and key
-- length to the key. `argon2.Version` is 19. The constant-time comparison is an equality of bytes.
pub mod RoundTrip
use go_personal_web.Prelude.{
  ℕ, ◌≡◌, Bool, true, false, not, ◌&&◌, ◌||◌, ◌*◌, Option, none, some, List, [], ◌∷◌, ◌++◌, length,
  Bytes, ◌=ᵇ◌, codes, ℤ, pos, ltb_ℤ, if◌then◌else◌,
}
use go_personal_web.GoStd.Strings.{split}
use go_personal_web.GoStd.Decimal.{format_uint}
use go_personal_web.GoStd.Base64.{encode, decode, raw_std}
use go_personal_web.GoStd.Scan.{◌>>=◌, ◌>>◌, check, scan_byte, scan_uint, scan_int}

abbrev pub KeyFunction : Type 0
KeyFunction = (password salt : Bytes) (time memory threads key_len : ℕ) → Bytes

abbrev pub argon2_version : ℕ
argon2_version = 19

-- The parameters a hash is created with.
pub record Params : Type 0 where
  pub time : ℕ
  pub memory : ℕ
  pub threads : ℕ
  pub key_len : ℕ
  pub salt_len : ℕ

abbrev pub argon2_params : Params
argon2_params = record { time = 3; memory = 64 * 1024; threads = 4; key_len = 32; salt_len = 16 }

pub record Argon2Hash : Type 0 where
  pub memory : ℕ
  pub time : ℕ
  pub threads : ℕ
  pub salt : Bytes
  pub key : Bytes

-- `fmt.Sprintf("$argon2id$v=%d$m=%d,t=%d,p=%d$%s$%s", …)`, part by part.
unfoldable pub version_part : Bytes
version_part = b'v' ∷ b'=' ∷ format_uint argon2_version

unfoldable pub params_part : Params → Bytes
params_part p =
    b'm'
    ∷ b'='
    ∷ (format_uint p.memory
        ++ b','
          ∷ b't'
          ∷ b'='
          ∷ (format_uint p.time ++ b',' ∷ b'p' ∷ b'=' ∷ (format_uint p.threads ++ [])))

unfoldable pub format_hash : Params → Bytes → Bytes → Bytes
unfolding version_part params_part
format_hash p salt key =
    b'$'
    ∷ (codes "argon2id"
        ++ b'$'
          ∷ (version_part
              ++ b'$'
                ∷ (params_part p ++ b'$' ∷ (encode raw_std salt ++ b'$' ∷ encode raw_std key))))

-- `HashPassword` under parameters `p`; `salt` is what `rand.Read` gave, `none` its error.
unfoldable pub hash_password : KeyFunction → Params → Option Bytes → Bytes → Option Bytes
unfolding format_hash
hash_password id_key p none password = none
hash_password id_key p (some salt) password =
    some (format_hash p salt (id_key password salt p.time p.memory p.threads p.key_len))

-- `Sscanf(part, "v=%d", &version)`
scan_version : Bytes → Option ℤ
scan_version s = do s ← scan_byte b'v' s; s ← scan_byte b'=' s; (v, s) ← scan_int s; some v

-- `Sscanf(part, "m=%d,t=%d,p=%d", …)`
scan_params : Bytes → Option (ℕ × ℕ × ℕ)
scan_params s = do
  s ← scan_byte b'm' s
  s ← scan_byte b'=' s
  (memory, s) ← scan_uint 32 s
  s ← scan_byte b',' s
  s ← scan_byte b't' s
  s ← scan_byte b'=' s
  (time, s) ← scan_uint 32 s
  s ← scan_byte b',' s
  s ← scan_byte b'p' s
  s ← scan_byte b'=' s
  (threads, s) ← scan_uint 8 s
  some (memory, time, threads)

abbrev is_version : ℤ → Bool
is_version v = not (ltb_ℤ v (pos argon2_version)) && not (ltb_ℤ (pos argon2_version) v)

-- `parseHash`; `none` is `errBadHash`.
unfoldable pub parse_parts : List Bytes → Option Argon2Hash
unfolding scan_version scan_params
parse_parts (p0 ∷ p1 ∷ p2 ∷ p3 ∷ p4 ∷ p5 ∷ []) = do
  check ((p0 =ᵇ []) && (p1 =ᵇ codes "argon2id"))
  version ← scan_version p2
  check (is_version version)
  (memory, time, threads) ← scan_params p3
  salt ← decode raw_std p4
  key ← decode raw_std p5
  check (not (key =ᵇ []))
  some (record { memory = memory; time = time; threads = threads; salt = salt; key = key })
parse_parts _ = none

unfoldable pub parse_hash : Bytes → Option Argon2Hash
unfolding parse_parts
parse_hash encoded = parse_parts (split b'$' encoded)

-- `verifyPassword`; `none` is the error of `parseHash`. `uint32(len(h.key))` is the length of a key
-- below 4 GB.
unfoldable pub verify_password : KeyFunction → Bytes → Bytes → Option Bool
unfolding parse_hash
verify_password id_key encoded password = do
  h ← parse_hash encoded
  some (id_key password h.salt h.time h.memory h.threads (length h.key) =ᵇ h.key)
