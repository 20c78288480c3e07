-- ===== src/GoStd/Urls/Laws.antt =====
-- Escaping a query value and reading it back, and the bytes that an escaped value is free of.
use go_personal_web.Prelude.{
  ℕ, ◌+◌, ◌*◌, ◌/◌, ◌%◌, ◌<◌, ◌≡◌, ◌≢◌, ◌⊎◌, inl, inr, ◌∙◌, ap, refl, true, some, [], ◌∷◌, ◌++◌,
  arith, Bytes, Lacks, All, IsByte, All-append, append-nil,
}
use mathlib.Core.List.{flat_map}
use go_personal_web.GoStd.Strings.{cut-append, cut-Lacks, split-append, split-Lacks}
use go_personal_web.GoStd.Decimal.RoundTrip.{IsDigit}
use go_personal_web.GoStd.Urls.{
  is_hex, unhex, is_unreserved, upper_hex, escape_byte, query_escape, cons_byte, query_unescape,
  parse_part, parse_query, raw_query,
}

unescape_plain :
    (c : ℕ) (s : Bytes)
    → c ≢ b'%'
    → c ≢ b'+'
    → query_unescape (c ∷ s) ≡ cons_byte c (query_unescape s)
unfolding query_unescape
unescape_plain c [] h k = ground arith
unescape_plain c (d ∷ []) h k = ground arith
unescape_plain c (d ∷ e ∷ s) h k = ground arith

unescape_plus : (s : Bytes) → query_unescape (b'+' ∷ s) ≡ cons_byte b' ' (query_unescape s)
unfolding query_unescape
unescape_plus [] = refl
unescape_plus (d ∷ []) = refl
unescape_plus (d ∷ e ∷ s) = refl

hex_digit : (d : ℕ) → d < 16 → (is_hex (upper_hex d) ≡ true) × (unhex (upper_hex d) ≡ d)
unfolding is_hex unhex upper_hex
hex_digit d h = (ground arith, ground arith)

unescape_percent :
    (d e : ℕ) (s : Bytes)
    → is_hex d ≡ true
    → is_hex e ≡ true
    → query_unescape (b'%' ∷ d ∷ e ∷ s) ≡ cons_byte (unhex d * 16 + unhex e) (query_unescape s)
unfolding query_unescape
unescape_percent d e s h k = rw (h, k)

unescape_hex :
    (c : ℕ) (s : Bytes)
    → c < 256
    → query_unescape (b'%' ∷ upper_hex (c / 16) ∷ upper_hex (c % 16) ∷ s)
      ≡ cons_byte c (query_unescape s)
unescape_hex c s h =
    let (high, high_value) = hex_digit (c / 16) (omega arith) in
    let (low, low_value) = hex_digit (c % 16) (omega arith) in
    unescape_percent (upper_hex (c / 16)) (upper_hex (c % 16)) s high low
    ∙ ap (λ b. cons_byte b (query_unescape s)) (omega (arith, high_value, low_value))

unescape-escape_byte :
    (c : ℕ) (s : Bytes)
    → c < 256
    → query_unescape (escape_byte c ++ s) ≡ cons_byte c (query_unescape s)
unfolding escape_byte is_unreserved
unescape-escape_byte c s h = ground (arith, unescape_plain c s, unescape_plus s, unescape_hex c s h)

-- Unescaping gives back every text of bytes.
pub query_unescape-query_escape :
    (s : Bytes) → All IsByte s → query_unescape (query_escape s) ≡ some s
unfolding query_escape
query_unescape-query_escape [] h = unfold query_unescape in refl
query_unescape-query_escape (c ∷ s) (hc, h) =
    rw (unescape-escape_byte c (query_escape s) hc, query_unescape-query_escape s h) refl

-- The bytes that structure a URL and its query.
abbrev pub IsMark : ℕ → Type 0
IsMark c = (c ≡ b'&') ⊎ (c ≡ b'=') ⊎ (c ≡ b';') ⊎ (c ≡ b'?')

escape_byte-Lacks : (m c : ℕ) → IsMark m → c < 256 → Lacks m (escape_byte c)
unfolding escape_byte is_unreserved upper_hex
escape_byte-Lacks m c k h = ground arith

pub query_escape-Lacks : (m : ℕ) (s : Bytes) → IsMark m → All IsByte s → Lacks m (query_escape s)
unfolding query_escape
query_escape-Lacks m [] k h = tt
query_escape-Lacks m (c ∷ s) k (hc, h) =
    All-append _ (escape_byte c) (query_escape s) (escape_byte-Lacks m c k hc)
      (query_escape-Lacks m s k h)

-- A query of one pair is read back.
pub parse_part_pair :
    (key value : Bytes)
    → key ≢ []
    → Lacks b';' key
    → Lacks b'=' key
    → query_unescape key ≡ some key
    → All IsByte value
    → parse_part (key ++ b'=' ∷ query_escape value) ≡ (key, value) ∷ []
parse_part_pair [] value ne hs he u h = absurd (ne refl)
parse_part_pair (c ∷ key) value ne hs he u h =
    let semicolon : Lacks b';' ((c ∷ key) ++ b'=' ∷ query_escape value) =
      All-append _ (c ∷ key) (b'=' ∷ query_escape value) hs
        ((λ e. omega arith), query_escape-Lacks b';' value (inr (inr (inl refl))) h) in
    unfold parse_part in
    rw (
      cut-Lacks b';' ((c ∷ key) ++ b'=' ∷ query_escape value) semicolon,
      cut-append b'=' (c ∷ key) (query_escape value) he,
      u,
      query_unescape-query_escape value h,
    )

pub raw_query-append :
    (base query : Bytes) → Lacks b'?' base → raw_query (base ++ b'?' ∷ query) ≡ query
unfolding raw_query
raw_query-append base query h = rw (cut-append b'?' base query h, raw_query)

pub raw_query-Lacks : (base : Bytes) → Lacks b'?' base → raw_query base ≡ []
unfolding raw_query
raw_query-Lacks base h = rw (cut-Lacks b'?' base h, raw_query)

pub parse_query_one : (part : Bytes) → Lacks b'&' part → parse_query part ≡ parse_part part
unfolding parse_query flat_map
parse_query_one part h = rw (split-Lacks b'&' part h, append-nil)

pub parse_query_two :
    (part next : Bytes)
    → Lacks b'&' part
    → Lacks b'&' next
    → parse_query (part ++ b'&' ∷ next) ≡ parse_part part ++ parse_part next
unfolding parse_query flat_map
parse_query_two part next h k =
    rw (split-append b'&' part next h, split-Lacks b'&' next k, append-nil)

-- Digits are not escaped.
pub query_escape_digits : (s : Bytes) → All IsDigit s → query_escape s ≡ s
unfolding query_escape escape_byte is_unreserved
query_escape_digits [] h = refl
query_escape_digits (c ∷ s) (hc, h) = ground (arith, query_escape_digits s h)
