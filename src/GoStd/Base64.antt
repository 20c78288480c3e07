-- ===== src/GoStd/Base64.antt =====
-- `encoding/base64` without padding: `RawURLEncoding` and `RawStdEncoding`.
use go_personal_web.Prelude.{
  ℕ, ◌+◌, ◌-◌, ◌*◌, ◌/◌, ◌%◌, ◌<◌, ◌≡◌, ◌≢◌, ◌⊎◌, refl, ◌&&◌, ◌||◌, Option, none, some, List, [],
  ◌∷◌, map, arith, ltb, leb, ◌==◌, if◌then◌else◌, Bytes, IsByte, All, Lacks, codes,
}

-- The two characters in which the alphabets differ.
pub record Encoding : Type 0 where
  pub c62 : ℕ
  pub c63 : ℕ

abbrev pub raw_url : Encoding
raw_url = record { c62 = b'-'; c63 = b'_' }

abbrev pub raw_std : Encoding
raw_std = record { c62 = b'+'; c63 = b'/' }

encode_char : Encoding → ℕ → ℕ
encode_char e v =
    if ltb v 26
    then b'A' + v
    else if ltb v 52
    then b'a' + (v - 26)
    else if ltb v 62
    then b'0' + (v - 52)
    else if v == 62
    then e.c62
    else e.c63

decode_char : Encoding → ℕ → Option ℕ
decode_char e c =
    if leb b'A' c && leb c b'Z'
    then some (c - b'A')
    else if leb b'a' c && leb c b'z'
    then some (c - b'a' + 26)
    else if leb b'0' c && leb c b'9'
    then some (c - b'0' + 52)
    else if c == e.c62
    then some 62
    else if c == e.c63
    then some 63
    else none

-- Three bytes as four groups of six bits; a rest of one or two bytes takes two or three.
sextets : Bytes → List ℕ
sextets [] = []
sextets (a ∷ []) = a / 4 ∷ (a % 4 * 16) ∷ []
sextets (a ∷ b ∷ []) = a / 4 ∷ (a % 4 * 16 + b / 16) ∷ (b % 16 * 4) ∷ []
sextets (a ∷ b ∷ c ∷ s) = a / 4 ∷ (a % 4 * 16 + b / 16) ∷ (b % 16 * 4 + c / 64) ∷ c % 64 ∷ sextets s

-- `EncodeToString`
unfoldable pub encode : Encoding → Bytes → Bytes
unfolding sextets encode_char
encode e s = map (encode_char e) (sextets s)

abbrev push : Option ℕ → Option (List ℕ) → Option (List ℕ)
push none rest = none
push (some v) none = none
push (some v) (some vs) = some (v ∷ vs)

-- The characters' values; line breaks are skipped, any other foreign character is an error.
values : Encoding → Bytes → Option (List ℕ)
values e [] = some []
values e (c ∷ s) =
    let rest = values e s in if c == 10 || c == 13 then rest else push (decode_char e c) rest

abbrev push3 : ℕ → ℕ → ℕ → Option Bytes → Option Bytes
push3 a b c none = none
push3 a b c (some s) = some (a ∷ b ∷ c ∷ s)

-- The bits that a short rest leaves over are not looked at: the encodings are not strict.
join_sextets : List ℕ → Option Bytes
join_sextets [] = some []
join_sextets (x ∷ []) = none
join_sextets (x ∷ y ∷ []) = some ((x * 4 + y / 16) ∷ [])
join_sextets (x ∷ y ∷ z ∷ []) = some ((x * 4 + y / 16) ∷ (y % 16 * 16 + z / 4) ∷ [])
join_sextets (x ∷ y ∷ z ∷ w ∷ r) =
    push3 (x * 4 + y / 16) (y % 16 * 16 + z / 4) (z % 4 * 64 + w) (join_sextets r)

abbrev join_values : Option (List ℕ) → Option Bytes
join_values none = none
join_values (some vs) = join_sextets vs

-- `DecodeString`
unfoldable pub decode : Encoding → Bytes → Option Bytes
unfolding values decode_char join_sextets
decode e s = join_values (values e s)

-- The two alphabets of the program.
abbrev pub IsAlphabet : Encoding → Type 0
IsAlphabet e = (e ≡ raw_url) ⊎ (e ≡ raw_std)

decode_char-encode_char :
    (e : Encoding) (v : ℕ) → IsAlphabet e → v < 64 → decode_char e (encode_char e v) ≡ some v
unfolding decode_char encode_char
decode_char-encode_char e v a h = ground arith

-- An encoded character is printable, and is no separator of the cookie or of the hash.
encode_char_range :
    (e : Encoding) (v : ℕ)
    → IsAlphabet e
    → (32 < encode_char e v) × (encode_char e v ≢ b'.') × (encode_char e v ≢ b'$')
unfolding encode_char
encode_char_range e v a = ground arith

sextets-lt : (s : Bytes) → All IsByte s → All (λ v. v < 64) (sextets s)
unfolding sextets
sextets-lt [] h = tt
sextets-lt (a ∷ []) h = omega arith
sextets-lt (a ∷ b ∷ []) h = omega arith
sextets-lt (a ∷ b ∷ c ∷ s) (ha, (hb, (hc, h))) =
    (omega arith, (omega arith, (omega arith, (omega arith, sextets-lt s h))))

values-map :
    (e : Encoding) (vs : List ℕ)
    → IsAlphabet e
    → All (λ v. v < 64) vs
    → values e (map (encode_char e) vs) ≡ some vs
unfolding values
values-map e [] a h = refl
values-map e (v ∷ vs) a (hv, h) =
    ground (arith, encode_char_range e v a, decode_char-encode_char e v a hv, values-map e vs a h)

join_sextets-sextets : (s : Bytes) → All IsByte s → join_sextets (sextets s) ≡ some s
unfolding join_sextets sextets
join_sextets-sextets [] h = refl
join_sextets-sextets (a ∷ []) h = ground arith
join_sextets-sextets (a ∷ b ∷ []) h = ground arith
join_sextets-sextets (a ∷ b ∷ c ∷ s) (ha, (hb, (hc, h))) = ground (arith, join_sextets-sextets s h)

-- Decoding gives the bytes back.
pub decode-encode :
    (e : Encoding) (s : Bytes) → IsAlphabet e → All IsByte s → decode e (encode e s) ≡ some s
unfolding decode encode
decode-encode e s a h = rw (values-map e (sextets s) a (sextets-lt s h)) (join_sextets-sextets s h)

map-Lacks :
    (e : Encoding) (c : ℕ) (vs : List ℕ)
    → IsAlphabet e
    → (c ≡ b'.') ⊎ (c ≡ b'$')
    → Lacks c (map (encode_char e) vs)
map-Lacks e c [] a k = tt
map-Lacks e c (v ∷ vs) a k = (ground (arith, encode_char_range e v a), map-Lacks e c vs a k)

pub encode-Lacks :
    (e : Encoding) (c : ℕ) (s : Bytes)
    → IsAlphabet e
    → (c ≡ b'.') ⊎ (c ≡ b'$')
    → Lacks c (encode e s)
unfolding encode
encode-Lacks e c s a k = map-Lacks e c (sextets s) a k

encode_tests :
    (encode raw_std (codes "any carnal pleas") ≡ codes "YW55IGNhcm5hbCBwbGVhcw")
    × (encode raw_url (251 ∷ 255 ∷ []) ≡ codes "-_8")
unfolding encode codes
encode_tests = (refl, refl)

decode_tests :
    (decode raw_std (codes "YW55\nIGNhcm4") ≡ some (codes "any carn"))
    × (decode raw_url (codes "YQ==") ≡ none)
    × (decode raw_url (codes "Y") ≡ none)
unfolding decode codes
decode_tests = (refl, refl, refl)
