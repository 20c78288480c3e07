-- ===== src/Admin/Password/RoundTrip.antt =====
-- A hash is verified with the parameters that it was made with.
use go_personal_web.Prelude.{
  ℕ, ◌^◌, ◌<◌, ◌≡◌, ◌≢◌, refl, ap, subst, ◌∙◌, inr, true, false, some, [], ◌∷◌, ◌++◌, length, Bytes,
  ◌=ᵇ◌, =ᵇ_iff, =ᵇ_refl, codes, pos, arith, All, All-append, Lacks, IsByte,
}
use mathlib.Core.Option.{some-injective}
use go_personal_web.GoStd.Strings.{split-append, is_space1, is_space2, is_space3, split-Lacks}
use go_personal_web.GoStd.Decimal.{format_uint, parse_int, parse_uint}
use go_personal_web.GoStd.Decimal.RoundTrip.{IsDigit, format_uint-IsDigit}
use go_personal_web.GoStd.Base64.{encode, raw_std, decode-encode, encode-Lacks}
use go_personal_web.GoStd.Scan.{scan_byte, scan_int, scan_uint-format_uint}
use go_personal_web.Admin.Password.{
  KeyFunction, Params, version_part, params_part, format_hash, hash_password, scan_version,
  scan_params, parse_hash, verify_password,
}

-- Parameters that fit the fields of a parsed hash.
pub record IsParams (p : Params) : Type 0 where
  pub memory_fits : p.memory < 2 ^ 32
  pub time_fits : p.time < 2 ^ 32
  pub threads_fit : p.threads < 2 ^ 8

digits-Lacks : (s : Bytes) → All IsDigit s → Lacks b'$' s
digits-Lacks [] h = tt
digits-Lacks (c ∷ s) (hc, h) = ((λ e. omega arith), digits-Lacks s h)

params_part-Lacks : (p : Params) → Lacks b'$' (params_part p)
unfolding params_part
params_part-Lacks p =
    let number = λ (n : ℕ). digits-Lacks (format_uint n) (format_uint-IsDigit n) in
    let last = All-append _ (format_uint p.threads) [] (number p.threads) tt in
    let middle : Lacks b'$' (b',' ∷ b'p' ∷ b'=' ∷ (format_uint p.threads ++ [])) =
      ((λ e. omega arith), ((λ e. omega arith), ((λ e. omega arith), last))) in
    let tail = All-append _ (format_uint p.time) _ (number p.time) middle in
    let rest : Lacks b'$' (
        b','
        ∷ b't'
        ∷ b'='
        ∷ (format_uint p.time ++ b',' ∷ b'p' ∷ b'=' ∷ (format_uint p.threads ++ []))) =
      ((λ e. omega arith), ((λ e. omega arith), ((λ e. omega arith), tail))) in
    (
      (λ e. omega arith),
      ((λ e. omega arith), All-append _ (format_uint p.memory) _ (number p.memory) rest),
    )

scan_params-params_part :
    (p : Params) → IsParams p → scan_params (params_part p) ≡ some (p.memory, p.time, p.threads)
unfolding scan_params params_part scan_byte
scan_params-params_part p v = rw (
  scan_uint-format_uint 32 p.memory
      (b','
        ∷ b't'
        ∷ b'='
        ∷ (format_uint p.time ++ b',' ∷ b'p' ∷ b'=' ∷ (format_uint p.threads ++ [])))
      v.memory_fits (omega (arith, v.memory_fits)) (λ d. absurd (omega arith)),
  scan_uint-format_uint 32 p.time (b',' ∷ b'p' ∷ b'=' ∷ (format_uint p.threads ++ [])) v.time_fits
      (omega (arith, v.time_fits)) (λ d. absurd (omega arith)),
  scan_uint-format_uint 8 p.threads [] v.threads_fit (omega (arith, v.threads_fit)) tt,
)

-- The version part is the text `v=19`, and reads as 19.
version_part_lem : (scan_version version_part ≡ some (pos 19)) × Lacks b'$' version_part
unfolding version_part scan_version scan_byte scan_int format_uint parse_int parse_uint is_space1
    is_space2 is_space3
version_part_lem = (refl, omega arith)

name_Lacks : Lacks b'$' (codes "argon2id")
unfolding codes
name_Lacks = omega arith

ne_false : (key : Bytes) → key ≢ [] → (key =ᵇ []) ≡ false
ne_false key ne = ground (arith, =ᵇ_iff key [])

parse_hash-format_hash :
    (p : Params) (salt key : Bytes)
    → IsParams p
    → All IsByte salt
    → All IsByte key
    → key ≢ []
    → parse_hash (format_hash p salt key)
      ≡ some
          (record { memory = p.memory; time = p.time; threads = p.threads; salt = salt; key = key })
unfolding parse_hash format_hash
parse_hash-format_hash p salt key v hs hk ne =
    rw
      (
        split-append b'$' [] _ tt,
        split-append b'$' (codes "argon2id") _ name_Lacks,
        split-append b'$' version_part _ version_part_lem.1,
        split-append b'$' (params_part p) _ (params_part-Lacks p),
        split-append b'$' (encode raw_std salt) _
            (encode-Lacks raw_std b'$' salt (inr refl) (inr refl)),
        split-Lacks b'$' (encode raw_std key) (encode-Lacks raw_std b'$' key (inr refl) (inr refl)),
      )
      (rw (
        =ᵇ_refl [],
        =ᵇ_refl (codes "argon2id"),
        version_part_lem.0,
        scan_params-params_part p v,
        decode-encode raw_std salt (inr refl) hs,
        decode-encode raw_std key (inr refl) hk,
        ne_false key ne,
      ))

ne_of_pos : (s : Bytes) (n : ℕ) → length s ≡ n → 0 < n → s ≢ []
ne_of_pos [] n e h = absurd (omega arith)
ne_of_pos (c ∷ s) n e h = cc

verify-format_hash :
    (id_key : KeyFunction) (p : Params) (salt made tried : Bytes)
    → IsParams p
    → All IsByte salt
    → All IsByte (id_key made salt p.time p.memory p.threads p.key_len)
    → length (id_key made salt p.time p.memory p.threads p.key_len) ≡ p.key_len
    → id_key made salt p.time p.memory p.threads p.key_len ≢ []
    → verify_password id_key
        (format_hash p salt (id_key made salt p.time p.memory p.threads p.key_len))
        tried
      ≡ some (
          id_key tried salt p.time p.memory p.threads p.key_len
          =ᵇ id_key made salt p.time p.memory p.threads p.key_len)
unfolding verify_password
verify-format_hash id_key p salt made tried v hs hk len ne =
    rw (parse_hash-format_hash p salt _ v hs hk ne, len)

-- Verification reads the parameters back out of the hash: for parameters that fit their fields and
-- a key of the asked length, whatever parameters are in force now, checking a password compares
-- its key under the hash's parameters and salt with the key in the hash. So the right password is
-- accepted.
pub verify_password-hash_password :
    (id_key : KeyFunction) (p : Params) (salt made tried encoded : Bytes)
    → IsParams p
    → All IsByte salt
    → All IsByte (id_key made salt p.time p.memory p.threads p.key_len)
    → length (id_key made salt p.time p.memory p.threads p.key_len) ≡ p.key_len
    → 0 < p.key_len
    → hash_password id_key p (some salt) made ≡ some encoded
    → (verify_password id_key encoded tried
        ≡ some (
            id_key tried salt p.time p.memory p.threads p.key_len
            =ᵇ id_key made salt p.time p.memory p.threads p.key_len))
      × (verify_password id_key encoded made ≡ some true)
unfolding hash_password
verify_password-hash_password id_key p salt made tried encoded v hs hk len pos_len e =
    let ne = ne_of_pos _ p.key_len len pos_len in
    subst
      (λ t.
        (verify_password id_key t tried
          ≡ some (
              id_key tried salt p.time p.memory p.threads p.key_len
              =ᵇ id_key made salt p.time p.memory p.threads p.key_len))
        × (verify_password id_key t made ≡ some true))
      (some-injective _ _ e)
      (
        verify-format_hash id_key p salt made tried v hs hk len ne,
        verify-format_hash id_key p salt made made v hs hk len ne ∙ ap some (=ᵇ_refl _),
      )
