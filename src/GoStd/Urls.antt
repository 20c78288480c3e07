-- ===== src/GoStd/Urls.antt =====
-- `net/url`: which rooted request URIs parse, query escaping, and reading a query string.
pub mod Laws
use go_personal_web.Prelude.{
  ℕ, suc, ◌+◌, ◌-◌, ◌*◌, ◌/◌, ◌%◌, ◌<◌, ◌≡◌, ◌≢◌, refl, Bool, true, false, not, ◌&&◌, ◌||◌, Option,
  none, some, List, [], ◌∷◌, ◌++◌, arith, leb, ltb, ◌==◌, if◌then◌else◌, Bytes, Lacks, codes, All,
  IsByte, map, is_absent,
}
use mathlib.Core.List.{flat_map}
use go_personal_web.GoStd.Strings.{cut, split}

is_hex : ℕ → Bool
is_hex c = (leb b'0' c && leb c b'9') || (leb b'a' c && leb c b'f') || (leb b'A' c && leb c b'F')

unhex : ℕ → ℕ
unhex c =
    if leb b'0' c && leb c b'9'
    then c - b'0'
    else if leb b'a' c && leb c b'f'
    then c - b'a' + 10
    else if leb b'A' c && leb c b'F'
    then c - b'A' + 10
    else 0

-- Every `%` is followed by two hex digits.
unfoldable pub escapes_ok : Bytes → Bool
unfolding is_hex
escapes_ok [] = true
escapes_ok (c ∷ []) = not (c == b'%')
escapes_ok (c ∷ d ∷ []) = not (c == b'%') && not (d == b'%')
escapes_ok (c ∷ d ∷ e ∷ s) =
    let after = escapes_ok s in
    let next = escapes_ok (d ∷ e ∷ s) in if c == b'%' then is_hex d && is_hex e && after else next

unfoldable pub no_controls : Bytes → Bool
no_controls [] = true
no_controls (c ∷ s) = not (ltb c 32 || c == 127) && no_controls s

unfoldable pub before_query : Bytes → Bytes
before_query [] = []
before_query (c ∷ s) = if c == b'?' then [] else c ∷ before_query s

-- `url.ParseRequestURI` succeeds on a text that begins with a slash when it holds no control byte
-- and every escape of its path is well formed.
unfoldable pub parses_rooted : Bytes → Bool
unfolding no_controls escapes_ok before_query is_hex
parses_rooted s = no_controls s && escapes_ok (before_query s)

-- `url.Parse` succeeds on such a text that does not begin with two slashes: a fragment is cut off first, and
-- has to have well formed escapes too.
unfoldable pub parses_reference : Bytes → Bool
unfolding parses_rooted
parses_reference s = elim (cut b'#' s) [
  | none ↦ parses_rooted s
  | some (url, fragment) ↦ parses_rooted url && escapes_ok fragment
]

is_unreserved : ℕ → Bool
is_unreserved c =
    (leb b'a' c && leb c b'z')
    || (leb b'A' c && leb c b'Z')
    || (leb b'0' c && leb c b'9')
    || c == b'-'
    || c == b'_'
    || c == b'.'
    || c == b'~'

upper_hex : ℕ → ℕ
upper_hex d = if ltb d 10 then b'0' + d else b'A' + (d - 10)

-- What `url.QueryEscape` writes for one byte.
escape_byte : ℕ → Bytes
escape_byte c =
    if is_unreserved c
    then c ∷ []
    else if c == b' '
    then b'+' ∷ []
    else b'%' ∷ upper_hex (c / 16) ∷ upper_hex (c % 16) ∷ []

unfoldable pub query_escape : Bytes → Bytes
unfolding escape_byte is_unreserved upper_hex
query_escape [] = []
query_escape (c ∷ s) = escape_byte c ++ query_escape s

abbrev cons_byte : ℕ → Option Bytes → Option Bytes
cons_byte c none = none
cons_byte c (some s) = some (c ∷ s)

-- `url.QueryUnescape`
unfoldable pub query_unescape : Bytes → Option Bytes
unfolding is_hex unhex
query_unescape [] = some []
query_unescape (c ∷ []) = if c == b'%' then none else some ((if c == b'+' then b' ' else c) ∷ [])
query_unescape (c ∷ d ∷ []) =
    let next = query_unescape (d ∷ []) in
    if c == b'%' then none else cons_byte (if c == b'+' then b' ' else c) next
query_unescape (c ∷ d ∷ e ∷ s) =
    let after = query_unescape s in
    let next = query_unescape (d ∷ e ∷ s) in
    if c == b'%'
    then if is_hex d && is_hex e then cons_byte (unhex d * 16 + unhex e) after else none
    else cons_byte (if c == b'+' then b' ' else c) next

abbrev pair_of : Option Bytes → Option Bytes → List (Bytes × Bytes)
pair_of (some key) (some value) = (key, value) ∷ []
pair_of (some key) none = []
pair_of none value = []

-- One part of a query: a key and a value, or nothing where the part is empty or malformed.
unfoldable pub parse_part : Bytes → List (Bytes × Bytes)
parse_part [] = []
parse_part (c ∷ s) =
    if is_absent (cut b';' (c ∷ s))
    then elim (cut b'=' (c ∷ s)) [
      | none ↦ pair_of (query_unescape (c ∷ s)) (some [])
      | some (key, value) ↦ pair_of (query_unescape key) (query_unescape value)
    ]
    else []

-- `url.ParseQuery`, as `URL.Query` uses it: malformed parts are dropped.
unfoldable pub parse_query : Bytes → List (Bytes × Bytes)
unfolding parse_part
parse_query raw = flat_map parse_part (split b'&' raw)

-- `URL.RawQuery` of a rooted URL.
unfoldable pub raw_query : Bytes → Bytes
raw_query url = elim (cut b'?' url) [ none ↦ [] | some (path, query) ↦ query ]
